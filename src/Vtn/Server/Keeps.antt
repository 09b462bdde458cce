-- ===== src/Vtn/Server/Keeps.antt =====
-- What holds of all events of a list holds of those that the server's operations keep in it.
use mathlib.Core.List.{erase}
use mathlib.Core.Logic.{if_pos, if_neg}
use openleadr_python.Base.{
  inl, inr, Bool, none, List, [], ◌∷◌, arith, All, All-append, remove_first, select, Bool-cases,
}
use openleadr_python.Base.Sort.{sort, sort-All}
use openleadr_python.Base.Erase.{erase_each}
use openleadr_python.Event.{Event, Event-discrete}
use openleadr_python.Event.Order.{
  items, sorted_events, order_updated, by_dtstart, by_priority, active_events, other_events,
}
use openleadr_python.Vtn.EventService.Delivery.{is_done}
use openleadr_python.Vtn.Server.{cancel, update_first}

module _ (P : Event → Type 0) where
  pub select_keeps : (p : Event → Bool) (l : List Event) → All P l → All P (select p l)
  select_keeps p [] h = tt
  select_keeps p (e ∷ l) h = ground (arith, select_keeps p l)

  pub erase_keeps : (x : Event) (l : List Event) → All P l → All P (erase Event-discrete l x)
  erase_keeps x [] h = tt
  erase_keeps x (e ∷ l) h = elim (Event-discrete e x) [
    | yes k ↦ rw (if_pos _ k) h.1
    | no k ↦ rw (if_neg _ k) (h.0, erase_keeps x l h.1)
  ]

  pub erase_each_keeps :
      (q l : List Event) → All P l → All P (erase_each Event-discrete is_done q l)
  erase_each_keeps [] l h = h
  erase_each_keeps (x ∷ q) l h = elim (Bool-cases (is_done x)) [
    | inl k ↦ rw k (erase_each_keeps q (erase Event-discrete l x) (erase_keeps x l h))
    | inr k ↦ rw k (erase_each_keeps q l h)
  ]

  pub remove_first_keeps : (p : Event → Bool) (l : List Event) → All P l → All P (remove_first p l)
  remove_first_keeps p [] h = tt
  remove_first_keeps p (e ∷ l) h = ground (arith, remove_first_keeps p l)

  pub update_first_keeps :
      ((e : Event) → P e → P (cancel e))
      → (p : Event → Bool) (l : List Event) → All P l
      → All P (update_first p cancel l)
  unfolding update_first
  update_first_keeps f p [] h = tt
  update_first_keeps f p (e ∷ l) h = elim (Bool-cases (p e)) [
    | inl k ↦ rw k (f e h.0, h.1)
    | inr k ↦ rw k (h.0, update_first_keeps f p l h.1)
  ]

  pub sorted_keeps : (l : List Event) → All P l → All P (sorted_events l)
  unfolding sorted_events
  sorted_keeps l h =
      All-append P (sort by_dtstart (sort by_priority (active_events l)))
        (sort by_dtstart (other_events l))
        (sort-All P by_dtstart _ (sort-All P by_priority _ (select_keeps _ l h)))
        (sort-All P by_dtstart _ (select_keeps _ l h))

  pub ordered_keeps : (l : List Event) → All P l → All P (items (order_updated none none l))
  unfolding order_updated
  ordered_keeps [] h = sorted_keeps [] h
  ordered_keeps (e ∷ []) h = h
  ordered_keeps (e ∷ f ∷ l) h = sorted_keeps (e ∷ f ∷ l) h
