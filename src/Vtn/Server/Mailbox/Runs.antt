-- ===== src/Vtn/Server/Mailbox/Runs.antt =====
-- Whole runs of the server, and the mailbox's account of them.
use openleadr_python.Base.{
  ℕ, ◌≡◌, refl, ap, subst, ◌∙◌, inl, inr, Option, List, [], ◌∷◌, ◌++◌, All, Bool-cases, ◌==◌,
  ==_iff, if◌then◌else◌,
}
use openleadr_python.Event.{Instant, Event}
use openleadr_python.Event.Order.{Given}
use openleadr_python.Vtn.EventService.{Callback, internal, EventResponse, queue, created_event}
use openleadr_python.Vtn.Server.{Server, PollResult, Reply, add_raw_event, cancel_event, poll}
use openleadr_python.Vtn.Server.Reach.{
  IsOwned, created-IsOwned, cancel-IsOwned, add-IsOwned, add-method, cancel-method, poll_keeps,
}
use openleadr_python.Vtn.Server.Mailbox.{
  Mailbox, Shown, mailbox, post_if, posted, revoke, collect, told, confirm_all, Tells,
}
use openleadr_python.Vtn.Server.Mailbox.Steps.{add_raw_event-posted, cancel_event-revoke}
use openleadr_python.Vtn.Server.Mailbox.Polls.{poll-collect, poll-Tells}
use openleadr_python.Vtn.Server.Mailbox.Answers.{created_event-confirm_all}

-- What the user and the VENs may do, each with the VEN that it is about.
pub data Op : Type 0 where
  adding : (ven_id : ℕ) → Event → Option Callback → Option ℕ → Op
  cancelling : (ven_id event_id : ℕ) → Op
  polling : Instant → (ven_id : ℕ) → Op
  answering : (ven_id : ℕ) → List EventResponse → Op

abbrev pub ven_of : Op → ℕ
ven_of (adding v e c d) = v
ven_of (cancelling v k) = v
ven_of (polling now v) = v
ven_of (answering v l) = v

-- What one does to the mailbox of its VEN.
unfoldable pub effect : Op → Mailbox → Mailbox
effect (adding v e c d) m = post_if (posted e c) m
effect (cancelling v k) m = revoke k m
effect (polling now v) m = collect now m
effect (answering v l) m = confirm_all l m

-- The mailbox of a VEN goes by its own operations only, and tells something at its own polls.
abbrev pub effect_on : ℕ → Op → Mailbox → Mailbox
effect_on v o m = if v == ven_of o then effect o m else m

unfoldable pub effects : ℕ → List Op → Mailbox → Mailbox
unfolding effect
effects v [] m = m
effects v (o ∷ l) m = effects v l (effect_on v o m)

abbrev pub told_by : Op → Mailbox → List (Option (List Shown))
told_by (polling now v) m = told now m ∷ []
told_by _ m = []

unfoldable pub tellings : ℕ → List Op → Mailbox → List (Option (List Shown))
unfolding effect
tellings v [] m = []
tellings v (o ∷ l) m = (if v == ven_of o then told_by o m else []) ++ tellings v l (effect_on v o m)

-- The same of the server itself.
module _ (h : ℕ → Given) (p : ℕ → PollResult) where
  unfoldable pub perform : Op → Server → Server
  perform (adding v e c d) s = (add_raw_event v e c d s).1
  perform (cancelling v k) s = cancel_event v k s
  perform (polling now v) s = (poll h p now v s).1
  perform (answering v l) s = record s { event_service = (created_event v l s.event_service).1 }

  unfoldable pub run : List Op → Server → Server
  unfolding perform
  run [] s = s
  run (o ∷ l) s = run l (perform o s)

  abbrev pub reply_to : Op → Server → List Reply
  reply_to (polling now v) s = (poll h p now v s).0 ∷ []
  reply_to _ s = []

  unfoldable pub replies : ℕ → List Op → Server → List Reply
  unfolding perform
  replies v [] s = []
  replies v (o ∷ l) s = (if v == ven_of o then reply_to o s else []) ++ replies v l (perform o s)

-- Two lists of the same length, related place by place.
pub data Pairwise {ℓ κ μ} {A : Type ℓ} {B : Type κ} (R : A → B → Type μ)
    : List A → List B → Type (ℓ ⊔ κ ⊔ μ) where
  nil : Pairwise R [] []
  cons :
      {a : A} {b : B} {l : List A} {m : List B}
      → R a b
      → Pairwise R l m
      → Pairwise R (a ∷ l) (b ∷ m)

append_pairs {ℓ κ μ} :
    {A : Type ℓ} {B : Type κ} {R : A → B → Type μ} {l m : List A} {x y : List B}
    → Pairwise R l x
    → Pairwise R m y
    → Pairwise R (l ++ m) (x ++ y)
append_pairs nil q = q
append_pairs (cons r p) q = cons r (append_pairs p q)

-- The server keeps its own queues.
abbrev pub IsInternal : Server → Type 0
IsInternal s =
    (s.event_service.polling_method ≡ internal) × (s.poll_service.polling_method ≡ internal)

abbrev Any : ℕ → ℕ → Type 0
Any v k = Unit

Any-All : (l : List Event) → All (λ e. Any 0 0) l
Any-All [] = tt
Any-All (e ∷ l) = (tt, Any-All l)

module _ (h : ℕ → Given) (p : ℕ → PollResult) where
  owned : (s : Server) → IsInternal s → IsOwned Any s.event_service
  owned s i = record { owned = λ v. Any-All (queue v s.event_service); queues = i.0 }

  perform-IsInternal : (o : Op) (s : Server) → IsInternal s → IsInternal (perform h p o s)
  unfolding perform
  perform-IsInternal (adding v e c d) s i =
      ((add-IsOwned Any v e c d s tt (owned s i)).queues, add-method Any v e c d s ∙ i.1)
  perform-IsInternal (cancelling v k) s i =
      ((cancel-IsOwned Any v k s (owned s i)).queues, cancel-method Any v k s ∙ i.1)
  perform-IsInternal (polling now v) s i =
      let k = poll_keeps h p Any now v s (owned s i) i.1 in (k.1.queues, k.2)
  perform-IsInternal (answering v l) s i =
      ((created-IsOwned Any v l s.event_service (owned s i)).queues, i.1)

  perform-effect :
      (v : ℕ) (o : Op) (s : Server)
      → IsInternal s
      → mailbox v (perform h p o s) ≡ effect_on v o (mailbox v s)
  unfolding perform effect
  perform-effect v (adding u e c d) s i = add_raw_event-posted u v e c d s
  perform-effect v (cancelling u k) s i = cancel_event-revoke u v k s
  perform-effect v (polling now u) s i = poll-collect h p now u s i.0 i.1 v
  perform-effect v (answering u l) s i = created_event-confirm_all u v l s i.0

  reply_to-Tells :
      (o : Op) (s : Server)
      → IsInternal s
      → Pairwise Tells (reply_to h p o s) (told_by o (mailbox (ven_of o) s))
  reply_to-Tells (adding u e c d) s i = nil
  reply_to-Tells (cancelling u k) s i = nil
  reply_to-Tells (polling now u) s i = cons (poll-Tells h p now u s i.0 i.1) nil
  reply_to-Tells (answering u l) s i = nil

  own_reply :
      (v : ℕ) (o : Op) (s : Server)
      → IsInternal s
      → Pairwise Tells
          (if v == ven_of o then reply_to h p o s else [])
          (if v == ven_of o then told_by o (mailbox v s) else [])
  own_reply v o s i = elim (Bool-cases (v == ven_of o)) [
    | inl q ↦ rw (q, (==_iff v (ven_of o)).0 q) (reply_to-Tells o s i)
    | inr q ↦ rw q nil
  ]

  -- Whatever additions, cancellations, polls and answers a server that keeps its own queues goes
  -- through, it leaves each VEN the mailbox that the VEN's own operations make of the one before,
  -- and each reply to a poll of the VEN tells what the mailbox brings then.
  pub run-effects :
      (v : ℕ) (l : List Op) (s : Server)
      → IsInternal s
      → (mailbox v (run h p l s) ≡ effects v l (mailbox v s))
        × Pairwise Tells (replies h p v l s) (tellings v l (mailbox v s))
  unfolding run effects replies tellings
  run-effects v [] s i = (refl, nil)
  run-effects v (o ∷ l) s i =
      let (after, rest) = run-effects v l (perform h p o s) (perform-IsInternal o s i) in
      let step = perform-effect v o s i in
      (
        after ∙ ap (effects v l) step,
        append_pairs (own_reply v o s i) (
            subst (λ m. Pairwise Tells (replies h p v l (perform h p o s)) (tellings v l m)) step
              rest),
      )
