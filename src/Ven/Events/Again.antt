-- ===== src/Ven/Events/Again.antt =====
-- What the client makes of an event that it has handled and that comes again.
use openleadr_python.Base.{
  ℕ, ◌≡◌, inl, inr, refl, ap, ◌∙◌, true, false, none, some, List, [], ◌∷◌, ◌++◌, All, arith,
}
use openleadr_python.Base.Exec.{
  Error, Result, ok, raise, key_error, or_throw, continue, modify, pure, ◌>>◌,
}
use openleadr_python.Base.Dict.{lookup, contains, lookup-insert_self, lookup-erase}
use openleadr_python.Event.{Instant, Event, event_id}
use openleadr_python.Ven.Events.{
  Answer, Client, Handlers, modification_number, is_over, settle, decide, take_event, take_events,
  on_event, created_event, event_responses, opt_out_of_all, results,
}
use openleadr_python.Ven.Events.Received.{
  Unique, IsHeld, decide-Held, Held-IsHeld, take_event_cases, settle-received,
}
use openleadr_python.Ven.Events.Waits.{
  IsOther, Waits, responded-decide_lem, take_events-Waits, take_events-raise,
}

-- The same event, by its id and modification number.
abbrev pub SameEvent : Event → Event → Type 0
SameEvent f e = (event_id f ≡ event_id e) × (modification_number f ≡ modification_number e)

-- The client after the events of some messages, each up to the first that raises.
abbrev pub after_messages : Handlers → List (List Event) → Client → Client
after_messages g [] t = t
after_messages g (l ∷ ms) t = after_messages g ms (take_events g l t).1

after_messages-Waits :
    (g : Handlers) (e : Event) (ms : List (List Event)) (t : Client)
    → All (All (IsOther e)) ms
    → Waits g e t
    → Waits g e (after_messages g ms t)
after_messages-Waits g e [] t o w = w
after_messages-Waits g e (l ∷ ms) t o w =
    after_messages-Waits g e ms (take_events g l t).1 o.1 (take_events-Waits g e l t o.0 w)

-- Deciding on an event that is held looks up the former answer.
decide_held :
    (g h : Handlers) (e f : Event) (t : Client)
    → IsHeld g e t
    → SameEvent f e
    → decide h f t ≡ or_throw key_error (lookup (event_id e) t.responded_events) t
unfolding decide
decide_held g h e f t (r, k, m) (i, n) = ground arith

settle_open :
    (e : Event) (a : Answer) (t : Client)
    → is_over e ≡ false
    → lookup (event_id e) (settle e a t).responded_events ≡ some a
unfolding settle
settle_open e a t k = rw k (lookup-insert_self (event_id e) a t.responded_events)

settle_over :
    (e : Event) (a : Answer) (t : Client)
    → is_over e ≡ true
    → contains (event_id e) t.responded_events ≡ true
    → lookup (event_id e) (settle e a t).responded_events ≡ none
unfolding settle
settle_over e a t k m = ground (arith, lookup-erase (event_id e) (event_id e) t.responded_events)

module _ (h : Handlers) (e : Event) (s : Client) (a : Answer) where
  -- What is known of the client after a round that returned `a`.
  handled :
      Unique s.received_events
      → (take_event h e s).0 ≡ ok a
      → IsHeld h e (take_event h e s).1 × ((take_event h e s).1 ≡ settle e a (decide h e s).1)
  handled u done = elim (take_event_cases h e s) [
    | inl (x, _, q) ↦ absurd (ground arith)
    | inr (b, _, q) ↦ (
      rw (q, settle-received h e b (decide h e s).1)
          (Held-IsHeld h e s (decide h e s).1 u (decide-Held h e s)),
      cc,
    )
  ]

-- A round whose decision looks up an answer.
round_found :
    (g : Handlers) (f : Event) (t : Client) (a : Answer)
    → decide g f t ≡ (ok a, t)
    → take_event g f t ≡ (ok a, settle f a t)
unfolding take_event
round_found g f t a k = ap (λ x. continue x (λ b. modify (settle f b) >> pure b)) k

round_raises :
    (g : Handlers) (f : Event) (t : Client) (l : List Event)
    → decide g f t ≡ (raise key_error, t)
    → (take_events g (f ∷ l) t).0 ≡ raise key_error
unfolding take_events take_event
round_raises g f t l k = ground (arith, k)

module _ (h g : Handlers) (e f : Event) (s : Client) (a : Answer) where
  -- An event that has been answered and is neither completed nor cancelled gets the same answer
  -- when it comes again with the same id and modification number, without a handler being called,
  -- and the events held stay as they are.
  pub take_event_repeats :
      Unique s.received_events
      → (take_event h e s).0 ≡ ok a
      → is_over e ≡ false
      → SameEvent f e
      → let t = (take_event h e s).1 in
        ((take_event g f t).0 ≡ ok a) × ((take_event g f t).1.received_events ≡ t.received_events)
  take_event_repeats u done live same =
      let (held, state) = handled h e s a u done in
      let t = (take_event h e s).1 in
      let former =
        ap (λ c. lookup (event_id e) c.responded_events) state
        ∙ settle_open e a (decide h e s).1 live in
      let decided = decide_held h g e f t held same ∙ ap (λ o. or_throw key_error o t) former in
      rw (round_found g f t a decided) (refl, settle-received g f a t)

  -- If a client has answered an event before, and has just answered it again as one that is over,
  -- then the next message with the same event, by its id and modification number, makes it opt out
  -- of every event of that message, wherever the event stands in it: the former answer was dropped,
  -- and looking for it raises a KeyError. Other events may come between, in any messages, and before
  -- it in its own, as long as they have other ids.
  pub on_event_forgets :
      (now : Instant) (request_id : ℕ) (ms : List (List Event)) (l m : List Event)
      → Unique s.received_events
      → (take_event h e s).0 ≡ ok a
      → is_over e ≡ true
      → contains (event_id e) s.responded_events ≡ true
      → SameEvent f e
      → All (All (IsOther e)) ms
      → All (IsOther e) l
      → (on_event g now request_id (l ++ f ∷ m) (after_messages g ms (take_event h e s).1)).0
        ≡ created_event request_id (event_responses now request_id (opt_out_of_all (l ++ f ∷ m)))
  unfolding on_event
  on_event_forgets now request_id ms l m u done over answered same others before =
      let (held, state) = handled h e s a u done in
      let dropped =
        ap (λ c. lookup (event_id e) c.responded_events) state
        ∙ settle_over e a (decide h e s).1 over
            (ap (contains (event_id e)) (responded-decide_lem h e s) ∙ answered) in
      let t = after_messages g ms (take_event h e s).1 in
      let waits = after_messages-Waits g e ms (take_event h e s).1 others (held, dropped) in
      let (y, raises) = take_events-raise g e l m f t before waits (last m) in
      all_out (take_events g (l ++ f ∷ m) t) y raises
    where
      last :
          (m : List Event) (c : Client)
          → Waits g e c
          → (take_events g (f ∷ m) c).0 ≡ raise key_error
      last m c (held, none_noted) =
          round_raises g f c m
            (decide_held g g e f c held same ∙ ap (λ o. or_throw key_error o c) none_noted)

      all_out :
          (x : Result (List (Event × Answer)) × Client) (y : Error)
          → x.0 ≡ raise y
          → created_event request_id (event_responses now request_id (results (l ++ f ∷ m) x).0)
            ≡ created_event request_id
                (event_responses now request_id (opt_out_of_all (l ++ f ∷ m)))
      all_out (raise z, c) y k = refl
      all_out (ok p, c) y k = absurd (ground arith)
