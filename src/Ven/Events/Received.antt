-- ===== src/Ven/Events/Received.antt =====
-- The events that the client holds have different ids, and an event that comes again is answered
-- as before.
use openleadr_python.Base.{
  ℕ, ◌≡◌, ◌⊎◌, inl, inr, refl, Bool, true, false, Option, none, some, List, [], ◌∷◌, ◌++◌, find,
  remove_first, select, arith, Bool-cases, Option-cases, ◌==◌, ==_iff,
}
use openleadr_python.Base.Exec.{
  Result, ok, raise, key_error, Error, or_throw, continue, modify, pure, ◌>>◌, ◌>>=◌, bind-Keeps,
}
use openleadr_python.Base.Dict.{lookup}
use openleadr_python.Event.{Event, event_id}
use openleadr_python.Ven.Events.{
  Answer, Client, Handlers, has_id, modification_number, receive, replace_event, settle, decide,
  take_event, take_events,
}

-- No two events of the list have the same id.
abbrev pub Unique : List Event → Type 0
Unique [] = Unit
Unique (e ∷ l) = (find (has_id (event_id e)) l ≡ none) × Unique l

module _ (p : Event → Bool) where
  find-append_none :
      (l : List Event) (e : Event) → find p l ≡ none → p e ≡ true → find p (l ++ e ∷ []) ≡ some e
  find-append_none [] e h k = ground arith
  find-append_none (x ∷ l) e h k = ground (arith, find-append_none l e)

  find-append_miss :
      (l : List Event) (e : Event) → find p l ≡ none → p e ≡ false → find p (l ++ e ∷ []) ≡ none
  find-append_miss [] e h k = ground arith
  find-append_miss (x ∷ l) e h k = ground (arith, find-append_miss l e)

  find-remove_first-none :
      (q : Event → Bool) (l : List Event) → find p l ≡ none → find p (remove_first q l) ≡ none
  find-remove_first-none q [] h = refl
  find-remove_first-none q (x ∷ l) h = ground (arith, find-remove_first-none q l)

  pub find-select-none :
      (q : Event → Bool) (l : List Event) → find p l ≡ none → find p (select q l) ≡ none
  find-select-none q [] h = refl
  find-select-none q (x ∷ l) h = ground (arith, find-select-none q l)

Unique-append :
    (l : List Event) (e : Event)
    → find (has_id (event_id e)) l ≡ none
    → Unique l
    → Unique (l ++ e ∷ [])
Unique-append [] e h u = (refl, tt)
Unique-append (x ∷ l) e h u = elim (Bool-cases (event_id x == event_id e)) [
  | inl k ↦ absurd (ground arith)
  | inr k ↦ (
    find-append_miss (has_id (event_id x)) l e u.0 (ground arith),
    Unique-append l e (ground arith) u.1,
  )
]

Unique-remove_first : (q : Event → Bool) (l : List Event) → Unique l → Unique (remove_first q l)
Unique-remove_first q [] u = tt
Unique-remove_first q (x ∷ l) u = elim (Bool-cases (q x)) [
  | inl k ↦ rw k (u.1)
  | inr k ↦ rw k (find-remove_first-none (has_id (event_id x)) q l u.0, Unique-remove_first q l u.1)
]

pub Unique-select : (q : Event → Bool) (l : List Event) → Unique l → Unique (select q l)
Unique-select q [] u = tt
Unique-select q (x ∷ l) u = elim (Bool-cases (q x)) [
  | inl k ↦ rw k (find-select-none (has_id (event_id x)) q l u.0, Unique-select q l u.1)
  | inr k ↦ rw k (Unique-select q l u.1)
]

-- Removing the first event with an id leaves none.
find-remove_first_same :
    (k : ℕ) (l : List Event) → Unique l → find (has_id k) (remove_first (has_id k) l) ≡ none
find-remove_first_same k [] u = refl
find-remove_first_same k (x ∷ l) u = elim (Bool-cases (event_id x == k)) [
  | inl e ↦ rw e (rw ((==_iff (event_id x) k).0 e) at u.0)
  | inr e ↦ rw (e, e) (find-remove_first_same k l u.1)
]

module _ (h : Handlers) (e : Event) where
  pub settle-received :
      (a : Answer) (s : Client) → (settle e a s).received_events ≡ s.received_events
  unfolding settle
  settle-received a s = ground arith

  -- The events held after the answer has been decided.
  abbrev pub Held : Client → Client → Type 0
  Held s t =
      ((r : Event) × (find (has_id (event_id e)) s.received_events ≡ some r)
        × (modification_number r ≡ modification_number e)
        × (t ≡ s))
      ⊎ ((t ≡ replace_event e s)
          ⊎ ((find (has_id (event_id e)) s.received_events ≡ none) × (t ≡ receive e s)))

  or_throw-state : (o : Option Answer) (s : Client) → (or_throw key_error o s).1 ≡ s
  or_throw-state none s = refl
  or_throw-state (some a) s = refl

  pub decide-Held : (s : Client) → Held s (decide h e s).1
  unfolding decide
  decide-Held s = elim (Option-cases (find (has_id (event_id e)) s.received_events)) [
    | inl k ↦ inr (inr (k, rw (decide, k) refl))
    | inr (r, k) ↦ elim (Bool-cases (modification_number r == modification_number e)) [
      | inl m ↦ inl (
        r,
        k,
        (==_iff (modification_number r) (modification_number e)).0 m,
        rw (decide, k, m) (or_throw-state (lookup (event_id e) s.responded_events) s),
      )
      | inr m ↦ inr (inl (rw (decide, k, m) refl))
    ]
  ]

  -- An event is held with this id and modification number.
  abbrev pub IsHeld : Client → Type 0
  IsHeld s =
      (r : Event) × (find (has_id (event_id e)) s.received_events ≡ some r)
      × (modification_number r ≡ modification_number e)

  same_id : (event_id e == event_id e) ≡ true
  same_id = ground arith

  pub Held-IsHeld : (s t : Client) → Unique s.received_events → Held s t → IsHeld t
  Held-IsHeld s t u (inl (r, k, m, q)) = rw q (r, k, m)
  Held-IsHeld s t u (inr (inl q)) = rw q (
    e,
    find-append_none (has_id (event_id e)) (remove_first (has_id (event_id e)) s.received_events) e
        (find-remove_first_same (event_id e) s.received_events u) same_id,
    refl,
  )
  Held-IsHeld s t u (inr (inr (k, q))) =
      rw q (e, find-append_none (has_id (event_id e)) s.received_events e k same_id, refl)

  Held-Unique : (s t : Client) → Unique s.received_events → Held s t → Unique t.received_events
  Held-Unique s t u (inl (r, k, m, q)) = rw q u
  Held-Unique s t u (inr (inl q)) = rw q (
      Unique-append (remove_first (has_id (event_id e)) s.received_events) e
        (find-remove_first_same (event_id e) s.received_events u)
        (Unique-remove_first (has_id (event_id e)) s.received_events u))
  Held-Unique s t u (inr (inr (k, q))) = rw q (Unique-append s.received_events e k u)

  -- A round of the loop raises with the state that deciding left, or settles its answer in it.
  abbrev pub Round : Result Answer × Client → Result Answer × Client → Type 0
  Round (r, t) x =
      ((y : Error) × (r ≡ raise y) × (x ≡ (raise y, t)))
      ⊎ ((a : Answer) × (r ≡ ok a) × (x ≡ (ok a, settle e a t)))

  settled_Round :
      (x : Result Answer × Client) → Round x (continue x (λ a. modify (settle e a) >> pure a))
  settled_Round (raise y, t) = inl (y, refl, refl)
  settled_Round (ok a, t) = inr (a, refl, refl)

  pub take_event_cases : (s : Client) → Round (decide h e s) (take_event h e s)
  unfolding take_event
  take_event_cases s = settled_Round (decide h e s)

  pub take_event-Unique :
      (s : Client) → Unique s.received_events → Unique (take_event h e s).1.received_events
  take_event-Unique s u = elim (take_event_cases s) [
    | inl (x, _, q) ↦ rw q (Held-Unique s (decide h e s).1 u (decide-Held s))
    | inr (a, _, q) ↦
        rw (q, settle-received a (decide h e s).1)
          (Held-Unique s (decide h e s).1 u (decide-Held s))
  ]

module _ (h : Handlers) where
  -- The loop of `_on_event` keeps the ids different, also when it stops at an exception.
  pub take_events-Unique :
      (l : List Event) (s : Client)
      → Unique s.received_events
      → Unique (take_events h l s).1.received_events
  unfolding take_events
  take_events-Unique [] s u = u
  take_events-Unique (e ∷ l) s u =
      bind-Keeps (λ t. Unique t.received_events) (take_event h e)
        (λ a. take_events h l >>= λ rest. pure ((e, a) ∷ rest)) (λ t w. take_event-Unique h e t w)
        (λ a.
          bind-Keeps (λ t. Unique t.received_events) (take_events h l)
            (λ rest. pure ((e, a) ∷ rest)) (λ t w. take_events-Unique l t w) (λ rest t w. w))
        s u
