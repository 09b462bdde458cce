-- ===== src/Vtn/Server/Mailbox/Steps.antt =====
-- Adding and cancelling events do to the mailboxes what they promise.
use openleadr_python.Base.{
  ℕ, ◌≡◌, ◌≢◌, refl, sym, ap, ◌∙◌, ◌⊎◌, inl, inr, Bool, true, false, Option, none, some, List, [],
  map, arith, find, is_some, Bool-cases, Option-cases, ◌==◌, ==_iff, if◌then◌else◌,
}
use openleadr_python.Base.Exec.{Result-cases}
use openleadr_python.Base.Dict.{lookup, lookup_or-insert_self, lookup-insert, lookup-insert_ne}
use openleadr_python.Event.{Event}
use openleadr_python.Event.Period.{Span}
use openleadr_python.Vtn.EventService.{EventService, Callback, queue, has_id}
use openleadr_python.Vtn.Server.{
  Server, on_events, cancel, update_first, cancel_event, add_raw_event, check_callback,
  period_of_signals, with_defaults, open_queue,
}
use openleadr_python.Vtn.Server.Cancel.{cancel_cases, cancel_event_unknown, cancel_event-eq}
use openleadr_python.Vtn.Server.Queue.{added, added-Adds}
use openleadr_python.Vtn.Server.Mailbox.Notices.{
  boxed_cong, find_notice, notices-append, notices-cancelled,
}
use openleadr_python.Vtn.Server.Mailbox.{
  Mailbox, boxed, mailbox, revoke, posted, post_if, notice_of, notice_has_id, revoke_first,
}

queue-open_queue : (v w : ℕ) (s : EventService) → queue w (open_queue v s) ≡ queue w s
queue-open_queue v w s = ground (arith, lookup-insert w v [] s.events, ==_iff w v)

-- A call that is refused posts nothing, and leaves every queue as it was.
add_raw_event_posts :
    (v : ℕ) (e : Event) (c : Option Callback) (d : Option ℕ) (s : Server)
    → ((posted e c ≡ none)
        × (((add_raw_event v e c d s).1 ≡ s)
            ⊎ ((add_raw_event v e c d s).1 ≡ on_events (open_queue v) s)))
      ⊎ ((p : Span) × (posted e c ≡ some (notice_of (with_defaults p e)))
          × ((add_raw_event v e c d s).1 ≡ added v e c d p s))
unfolding add_raw_event posted
add_raw_event_posts v e c d s = elim (Option-cases e.response_required) [
  | inl k ↦ inl (ground arith)
  | inr (required, k) ↦ elim (Result-cases (check_callback required c)) [
    | inr (error, m) ↦ inl (ground arith)
    | inl (_, m) ↦ elim (Result-cases (period_of_signals e.event_signals)) [
      | inr (error, n) ↦ inl (ground arith)
      | inl (p, n) ↦ inr (p, ground arith, ground arith)
    ]
  ]
]

-- A successful `add_raw_event` posts a notice to the VEN's mailbox, a refused one posts nothing,
-- and no other mailbox changes.
pub add_raw_event-posted :
    (v w : ℕ) (e : Event) (c : Option Callback) (d : Option ℕ) (s : Server)
    → mailbox w (add_raw_event v e c d s).1
      ≡ (if w == v then post_if (posted e c) (mailbox w s) else mailbox w s)
add_raw_event-posted v w e c d s = elim (add_raw_event_posts v e c d s) [
  | inl (k, inl m) ↦ rw (k, m) (either (w == v) (mailbox w s))
  | inl (k, inr m) ↦
      rw (k, m)
        (boxed_cong (ap (map notice_of) (queue-open_queue v w s.event_service)) refl
          ∙ either (w == v) (mailbox w s))
  | inr (p, k, m) ↦
      rw (k, m)
        (elim (Bool-cases (w == v)) [
          | inl q ↦
              rw (q, (==_iff w v).0 q)
                (boxed_cong
                  (ap (map notice_of) (added-Adds v e c d p s).queued
                    ∙ notices-append (queue v s.event_service) (with_defaults p e))
                  (ap (λ o. elim o [ none ↦ false | some b ↦ b ]) (added-Adds v e c d p s).flagged))
          | inr q ↦ rw q (
              boxed_cong
                (ap (λ o. map notice_of (elim o [ none ↦ [] | some l ↦ l ]))
                  ((added-Adds v e c d p s).other_queues w (λ h. ground arith)))
                (ap (λ o. elim o [ none ↦ false | some b ↦ b ])
                  ((added-Adds v e c d p s).other_flags w (λ h. ground arith))))
        ])
]
  where
    either : (b : Bool) (m : Mailbox) → m ≡ (if b then m else m)
    either true m = refl
    either false m = refl

revoke_unknown :
    (k : ℕ) (m : Mailbox) → is_some (find (notice_has_id k) m.notices) ≡ false → revoke k m ≡ m
unfolding revoke
revoke_unknown k m h = ground arith

revoke_known :
    (k : ℕ) (m : Mailbox)
    → is_some (find (notice_has_id k) m.notices) ≡ true
    → revoke k m ≡ boxed (revoke_first k m.notices) true
unfolding revoke
revoke_known k m h = ground arith

own_cancelled : (v k : ℕ) (s : Server) → mailbox v (cancel_event v k s) ≡ revoke k (mailbox v s)
own_cancelled v k s = elim (Option-cases (find (has_id k) (queue v s.event_service))) [
  | inl b ↦
      ap (mailbox v) (cancel_event_unknown v k s b)
      ∙ sym
          (revoke_unknown k (mailbox v s) (find_notice k (queue v s.event_service) ∙ ap is_some b))
  | inr (e, b) ↦ elim (Option-cases (lookup v s.event_service.events)) [
    | inl a ↦ absurd (ground arith)
    | inr (l, a) ↦
        ap (mailbox v) (cancel_event-eq v k s l e a (sym (ap (find (has_id k)) (queue_of l a)) ∙ b))
        ∙ boxed_cong
            (ap (map notice_of) (
                lookup_or-insert_self v (update_first (has_id k) cancel l) []
                  s.event_service.events)
              ∙ notices-cancelled k l
              ∙ ap (λ q. revoke_first k (map notice_of q)) (sym (queue_of l a)))
            (lookup_or-insert_self v true false s.poll_service.events_updated)
        ∙ sym
            (revoke_known k (mailbox v s) (find_notice k (queue v s.event_service) ∙ ap is_some b))
  ]
]
  where
    queue_of :
        (l : List Event) → lookup v s.event_service.events ≡ some l → queue v s.event_service ≡ l
    queue_of l a = ap (λ o. elim o [ none ↦ [] | some q ↦ q ]) a

other_cancelled : (v w k : ℕ) (s : Server) → w ≢ v → mailbox w (cancel_event v k s) ≡ mailbox w s
other_cancelled v w k s ne = elim (cancel_cases v k s) [
  | inl same ↦ ap (mailbox w) same
  | inr (l, _, done) ↦ rw done (
      boxed_cong
        (ap (λ o. map notice_of (elim o [ none ↦ [] | some q ↦ q ]))
          (lookup-insert_ne w v (update_first (has_id k) cancel l) s.event_service.events ne))
        (ap (λ o. elim o [ none ↦ false | some b ↦ b ])
          (lookup-insert_ne w v true s.poll_service.events_updated ne)))
]

-- To cancel an event revokes the notice of it, if there is one, and changes no other mailbox.
pub cancel_event-revoke :
    (v w k : ℕ) (s : Server)
    → mailbox w (cancel_event v k s) ≡ (if w == v then revoke k (mailbox w s) else mailbox w s)
cancel_event-revoke v w k s = elim (Bool-cases (w == v)) [
  | inl q ↦ rw (q, (==_iff w v).0 q) (own_cancelled v k s)
  | inr q ↦ rw q (other_cancelled v w k s (λ h. ground arith))
]
