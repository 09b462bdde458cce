-- ===== src/Vtn/Server/Mailbox/Notices.antt =====
-- The notices of a queue: what the clock, a cancellation and a selection make of them.
use openleadr_python.Base.{
  ℕ, ◌≡◌, refl, ap, Bool, none, some, List, [], ◌∷◌, ◌++◌, map, arith, select, find, remove_first,
  is_some,
}
use openleadr_python.Event.{Instant, Event, event_status}
use openleadr_python.Event.Order.{update_status}
use openleadr_python.Event.Status.{determine_event_status}
use openleadr_python.Vtn.EventService.{has_id}
use openleadr_python.Vtn.EventService.Delivery.{open_events}
use openleadr_python.Vtn.Server.{cancel, update_first}
use openleadr_python.Vtn.Server.Mailbox.{
  boxed, Notice, notice_of, shown, show, show_event, current, notice_has_id, revoke_first,
}

module _ {ℓ κ} {A : Type ℓ} {B : Type κ} (f : A → B) (p : A → Bool) (q : B → Bool)
    (same : (x : A) → p x ≡ q (f x)) where
  pub select-map : (l : List A) → map f (select p l) ≡ select q (map f l)
  select-map [] = refl
  select-map (x ∷ l) = ground (arith, same x, select-map l)

  pub remove_first-map : (l : List A) → map f (remove_first p l) ≡ remove_first q (map f l)
  remove_first-map [] = refl
  remove_first-map (x ∷ l) = ground (arith, same x, remove_first-map l)

  pub find-map :
      (l : List A) → find q (map f l) ≡ elim (find p l) [ none ↦ none | some x ↦ some (f x) ]
  find-map [] = refl
  find-map (x ∷ l) = ground (arith, same x, find-map l)

-- The clock changes the status that is shown, and nothing that was asked for.
pub notice_of-update_status :
    (now : Instant) (e : Event) → notice_of (update_status now e) ≡ notice_of e
unfolding update_status determine_event_status
notice_of-update_status now e = ground arith

pub shown-update_status :
    (now : Instant) (e : Event) → event_status (update_status now e) ≡ shown now (notice_of e)
unfolding update_status shown
shown-update_status now e = ground arith

pub notices-updated :
    (now : Instant) (l : List Event) → map notice_of (map (update_status now) l) ≡ map notice_of l
notices-updated now [] = refl
notices-updated now (e ∷ l) = rw (notice_of-update_status now e, notices-updated now l) refl

pub shown-updated :
    (now : Instant) (l : List Event)
    → map show_event (map (update_status now) l) ≡ map (show now) (map notice_of l)
shown-updated now [] = refl
shown-updated now (e ∷ l) =
    rw (notice_of-update_status now e, shown-update_status now e, shown-updated now l) refl

-- What stays of a queue is what is not over.
pub current-updated :
    (now : Instant) (l : List Event)
    → map notice_of (open_events (map (update_status now) l)) ≡ current now (map notice_of l)
current-updated now [] = refl
current-updated now (e ∷ l) =
    ground (arith, notice_of-update_status now e, shown-update_status now e, current-updated now l)

pub notices-cancelled :
    (k : ℕ) (l : List Event)
    → map notice_of (update_first (has_id k) cancel l) ≡ revoke_first k (map notice_of l)
unfolding update_first revoke_first
notices-cancelled k [] = refl
notices-cancelled k (e ∷ l) = ground (arith, notices-cancelled k l)

pub notices-append :
    (l : List Event) (x : Event) → map notice_of (l ++ x ∷ []) ≡ map notice_of l ++ notice_of x ∷ []
notices-append [] x = refl
notices-append (e ∷ l) x = ap (◌∷◌ (notice_of e)) (notices-append l x)

pub boxed_cong : {l m : List Notice} {a b : Bool} → l ≡ m → a ≡ b → boxed l a ≡ boxed m b
boxed_cong h k = cc

pub find_notice :
    (k : ℕ) (l : List Event)
    → is_some (find (notice_has_id k) (map notice_of l)) ≡ is_some (find (has_id k) l)
find_notice k l = ground (arith, find-map notice_of (has_id k) (notice_has_id k) (λ x. refl) l)

pub shown-current :
    (now : Instant) (l : List Event)
    → map show_event (open_events (map (update_status now) l))
      ≡ map (show now) (current now (map notice_of l))
shown-current now [] = refl
shown-current now (e ∷ l) =
    ground (arith, notice_of-update_status now e, shown-update_status now e, shown-current now l)
