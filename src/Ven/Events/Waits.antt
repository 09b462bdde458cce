-- ===== src/Ven/Events/Waits.antt =====
-- An event that the client holds without an answer, while events with other ids come in.
use openleadr_python.Base.{
  ◌≡◌, inl, inr, refl, ap, sym, subst, ◌∙◌, false, none, List, [], ◌∷◌, ◌++◌, arith, All, find,
  remove_first, ◌==◌,
}
use openleadr_python.Base.Exec.{
  Error, ok, raise, key_error, continue, continue-raise, pure, ◌>>=◌, Result, bind-Keeps,
}
use openleadr_python.Base.Dict.{lookup, lookup-insert_ne, lookup-erase}
use openleadr_python.Event.{Event, event_id}
use openleadr_python.Ven.Events.{
  Answer, Client, Handlers, has_id, settle, decide, take_event, take_events,
}
use openleadr_python.Ven.Events.Received.{
  Held, IsHeld, decide-Held, take_event_cases, settle-received,
}

abbrev pub IsOther : Event → Event → Type 0
IsOther e x = (event_id x == event_id e) ≡ false

find-append_other :
    (e x : Event) (l : List Event)
    → IsOther e x
    → find (has_id (event_id e)) (l ++ x ∷ []) ≡ find (has_id (event_id e)) l
find-append_other e x [] h = ground arith
find-append_other e x (y ∷ l) h = ground (arith, find-append_other e x l h)

find-remove_first_other :
    (e x : Event) (l : List Event)
    → IsOther e x
    → find (has_id (event_id e)) (remove_first (has_id (event_id x)) l)
      ≡ find (has_id (event_id e)) l
find-remove_first_other e x [] h = refl
find-remove_first_other e x (y ∷ l) h = ground (arith, find-remove_first_other e x l h)

pub responded-decide_lem :
    (h : Handlers) (e : Event) (s : Client) → (decide h e s).1.responded_events ≡ s.responded_events
responded-decide_lem h e s = go (decide-Held h e s)
  where
    go : Held h e s (decide h e s).1 → (decide h e s).1.responded_events ≡ s.responded_events
    go (inl (r, k, m, q)) = ap (λ t. t.responded_events) q
    go (inr (inl q)) = ap (λ t. t.responded_events) q
    go (inr (inr (k, q))) = ap (λ t. t.responded_events) q

module _ (g : Handlers) (e : Event) where
  -- The event is held, and there is no answer to it.
  abbrev pub Waits : Client → Type 0
  Waits t = IsHeld g e t × (lookup (event_id e) t.responded_events ≡ none)

  found-decide :
      (x : Event) (t : Client)
      → IsOther e x
      → find (has_id (event_id e)) (decide g x t).1.received_events
        ≡ find (has_id (event_id e)) t.received_events
  found-decide x t o = go (decide-Held g x t)
    where
      go :
          Held g x t (decide g x t).1
          → find (has_id (event_id e)) (decide g x t).1.received_events
            ≡ find (has_id (event_id e)) t.received_events
      go (inl (r, k, m, q)) = ap (λ c. find (has_id (event_id e)) c.received_events) q
      go (inr (inl q)) =
          ap (λ c. find (has_id (event_id e)) c.received_events) q
          ∙ find-append_other e x (remove_first (has_id (event_id x)) t.received_events) o
          ∙ find-remove_first_other e x t.received_events o
      go (inr (inr (k, q))) =
          ap (λ c. find (has_id (event_id e)) c.received_events) q
          ∙ find-append_other e x t.received_events o

  decide-Waits : (x : Event) (t : Client) → IsOther e x → Waits t → Waits (decide g x t).1
  decide-Waits x t o ((r, k, m), n) =
      ((r, found-decide x t o ∙ k, m), ap (lookup (event_id e)) (responded-decide_lem g x t) ∙ n)

  settle-none :
      (x : Event) (a : Answer) (t : Client)
      → IsOther e x
      → lookup (event_id e) t.responded_events ≡ none
      → lookup (event_id e) (settle x a t).responded_events ≡ none
  unfolding settle
  settle-none x a t o n = ground (
    arith,
    lookup-erase (event_id e) (event_id x) t.responded_events,
    lookup-insert_ne (event_id e) (event_id x) a t.responded_events,
  )

  settle-Waits :
      (x : Event) (a : Answer) (t : Client) → IsOther e x → Waits t → Waits (settle x a t)
  settle-Waits x a t o ((r, k, m), n) =
      ((r, ap (find (has_id (event_id e))) (settle-received g x a t) ∙ k, m), settle-none x a t o n)

  take_event-Waits : (x : Event) (t : Client) → IsOther e x → Waits t → Waits (take_event g x t).1
  take_event-Waits x t o w = elim (take_event_cases g x t) [
    | inl (y, _, q) ↦ subst (λ z. Waits (z.1)) (sym q) (decide-Waits x t o w)
    | inr (a, _, q) ↦
        subst (λ z. Waits (z.1)) (sym q)
          (settle-Waits x a (decide g x t).1 o (decide-Waits x t o w))
  ]

  -- The rounds for events with other ids leave the event waiting, and a round for the event itself
  -- raises, unless one of them has raised before.
  pub take_events-Waits :
      (l : List Event) (t : Client) → All (IsOther e) l → Waits t → Waits (take_events g l t).1
  unfolding take_events
  take_events-Waits [] t o w = w
  take_events-Waits (x ∷ l) t o w =
      bind-Keeps Waits (take_event g x) (λ a. take_events g l >>= λ rest. pure ((x, a) ∷ rest))
        (λ c k. take_event-Waits x c o.0 k)
        (λ a.
          bind-Keeps Waits (take_events g l) (λ rest. pure ((x, a) ∷ rest))
            (λ c k. take_events-Waits l c o.1 k) (λ rest c k. k))
        t w

  pub take_events-raise :
      (l m : List Event) (f : Event) (t : Client)
      → All (IsOther e) l
      → Waits t
      → ((c : Client) → Waits c → (take_events g (f ∷ m) c).0 ≡ raise key_error)
      → (y : Error) × ((take_events g (l ++ f ∷ m) t).0 ≡ raise y)
  unfolding take_events
  take_events-raise [] m f t o w last = (key_error, last t w)
  take_events-raise (x ∷ l) m f t o w last =
      go (take_event g x t) (take_event-Waits x t o.0 w)
        (λ c k. take_events-raise l m f c o.1 k last)
    where
      rest : Answer → Client → Result (List (Event × Answer)) × Client
      rest a = take_events g (l ++ f ∷ m) >>= λ more. pure ((x, a) ∷ more)

      go :
          (z : Result Answer × Client)
          → Waits (z.1)
          → ((c : Client) → Waits c → (y : Error) × ((take_events g (l ++ f ∷ m) c).0 ≡ raise y))
          → (y : Error) × ((continue z rest).0 ≡ raise y)
      go (raise y, c) k later = (y, refl)
      go (ok a, c) k later =
          let (y, q) = later c k in
          (y, continue-raise (take_events g (l ++ f ∷ m) c) (λ more. pure ((x, a) ∷ more)) y q)
