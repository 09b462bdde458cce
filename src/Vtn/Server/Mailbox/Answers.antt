-- ===== src/Vtn/Server/Mailbox/Answers.antt =====
-- The answers of a VEN do to its mailbox what they promise.
use openleadr_python.Base.{
  ℕ, ◌≡◌, ◌≢◌, refl, sym, ap, ◌∙◌, inl, inr, Bool, true, false, none, some, List, [], ◌∷◌, map,
  arith, find, remove_first, Bool-cases, Option-cases, ◌==◌, ==_iff, if◌then◌else◌,
}
use openleadr_python.Base.Exec.{Exec, Result, continue, ok, raise, pure, for_each}
use openleadr_python.Base.Dict.{lookup, lookup_or}
use openleadr_python.Event.{Event, event_status, is_cancelled}
use openleadr_python.Vtn.EventService.{
  EventService, internal, EventResponse, queue, matches, has_id, answer, created_event,
  empty_response,
}
use openleadr_python.Vtn.EventService.Answers.{answer-Accepts, answer_outcome, answer_atomic}
use openleadr_python.Vtn.Server.{Server}
use openleadr_python.Vtn.Server.Methods.{created_event_internal}
use openleadr_python.Vtn.Server.Mailbox.{
  Mailbox, Notice, acknowledge, boxed, box, mailbox, confirm, confirm_all, notice_of, speaks_of,
  notice_has_id,
}
use openleadr_python.Vtn.Server.Mailbox.Notices.{boxed_cong, find-map, remove_first-map}

confirm_known :
    (r : EventResponse) (m : Mailbox) (n : Notice)
    → find (speaks_of r) m.notices ≡ some n
    → confirm r m ≡ acknowledge r n m
unfolding confirm
confirm_known r m n h = ap (λ o. elim o [ none ↦ m | some x ↦ acknowledge r x m ]) h

confirm_unknown :
    (r : EventResponse) (m : Mailbox) → find (speaks_of r) m.notices ≡ none → confirm r m ≡ m
unfolding confirm
confirm_unknown r m h = ap (λ o. elim o [ none ↦ m | some x ↦ acknowledge r x m ]) h

module _ (v : ℕ) (r : EventResponse) (s : EventService) (b : Bool) where
  found_notice :
      find (speaks_of r) (map notice_of (queue v s))
      ≡ elim (find (matches r) (queue v s)) [ none ↦ none | some e ↦ some (notice_of e) ]
  found_notice = find-map notice_of (matches r) (speaks_of r) (λ x. refl) (queue v s)

  known_notice :
      (e : Event)
      → find (matches r) (queue v s) ≡ some e
      → find (speaks_of r) (map notice_of (queue v s)) ≡ some (notice_of e)
  known_notice e k = found_notice ∙ ap (λ o. elim o [ none ↦ none | some x ↦ some (notice_of x) ]) k

  -- The answer is accepted if it speaks of a notice; then the notice is confirmed.
  answered_known :
      (e : Event)
      → find (matches r) (queue v s) ≡ some e
      → ((answer v r s).0 ≡ ok tt)
        × (box v b (answer v r s).1 ≡ confirm r (box v b s))
        × ((w : ℕ) → w ≢ v → lookup w (answer v r s).1.events ≡ lookup w s.events)
  answered_known e k = elim (Option-cases (lookup v s.events)) [
    | inl a ↦ absurd (ground arith)
    | inr (l, a) ↦
        let (done, accepts) = answer-Accepts v r s l e a (ground arith) in
        (
          done,
          boxed_cong (ap (map notice_of) accepts.queue_after) refl
              ∙ taken (is_cancelled (event_status e))
              ∙ sym (confirm_known r (box v b s) (notice_of e) (known_notice e k)),
          accepts.other_queues,
        )
  ]
    where
      without : List Event
      without = remove_first (has_id r.event_id) (queue v s)

      taken :
          (c : Bool)
          → boxed (map notice_of (if c then without else queue v s)) b ≡ (
              if c
              then boxed (remove_first (notice_has_id r.event_id) (map notice_of (queue v s))) b
              else box v b s)
      taken true =
          boxed_cong
            (remove_first-map notice_of (has_id r.event_id) (notice_has_id r.event_id) (λ x. refl)
              (queue v s))
            refl
      taken false = refl

  answered_unknown :
      find (matches r) (queue v s) ≡ none
      → ((answer v r s).0 ≢ ok tt) × (find (speaks_of r) (map notice_of (queue v s)) ≡ none)
  answered_unknown k = (
    λ h. ground (arith, answer_outcome v r s),
    found_notice ∙ ap (λ o. elim o [ none ↦ none | some x ↦ some (notice_of x) ]) k,
  )

module _ {ℓ κ} {S : Type ℓ} {A : Type κ} (x : Result (Unit {0}) × S) (f : Exec S A) where
  continued : x.0 ≡ ok tt → continue x (λ _. f) ≡ f x.1
  continued h = ap (λ r. continue (r, x.1) (λ _. f)) h

stopped {ℓ} :
    {S : Type ℓ} (x : Result (Unit {0}) × S) (f : Exec S (Unit {0}))
    → x.0 ≢ ok tt
    → (continue x (λ _. f)).1 ≡ x.1
stopped (ok tt, t) f h = absurd (h refl)
stopped (raise e, t) f h = refl

then_pure {ℓ κ} :
    {S : Type ℓ} {A : Type κ} (a : A) (x : Result (Unit {0}) × S)
    → (continue x (λ _. pure a)).1 ≡ x.1
then_pure a (ok tt, t) = refl
then_pure a (raise e, t) = refl

confirm_all_known :
    (r : EventResponse) (l : List EventResponse) (m : Mailbox) (n : Notice)
    → find (speaks_of r) m.notices ≡ some n
    → confirm_all (r ∷ l) m ≡ confirm_all l (confirm r m)
unfolding confirm_all
confirm_all_known r l m n h = ground arith

confirm_all_unknown :
    (r : EventResponse) (l : List EventResponse) (m : Mailbox)
    → find (speaks_of r) m.notices ≡ none
    → confirm_all (r ∷ l) m ≡ m
unfolding confirm_all
confirm_all_unknown r l m h = ground arith

-- Every answer of the list up to the first that is not accepted is confirmed.
answered_all :
    (v : ℕ) (l : List EventResponse) (s : EventService) (b : Bool)
    → (box v b (for_each (answer v) l s).1 ≡ confirm_all l (box v b s))
      × ((w : ℕ) → w ≢ v → lookup w (for_each (answer v) l s).1.events ≡ lookup w s.events)
unfolding confirm_all
answered_all v [] s b = (refl, λ w ne. refl)
answered_all v (r ∷ l) s b = elim (Option-cases (find (matches r) (queue v s))) [
  | inl k ↦
      let (refused, unknown) = answered_unknown v r s b k in
      let same =
        stopped (answer v r s) (for_each (answer v) l) refused ∙ answer_atomic v r s refused in
      (
        ap (box v b) same ∙ sym (confirm_all_unknown r l (box v b s) unknown),
        λ w ne. ap (λ t. lookup w t.events) same,
      )
  | inr (e, k) ↦
      let (done, confirmed, others) = answered_known v r s b e k in
      let next = continued (answer v r s) (for_each (answer v) l) done in
      let (boxes, rest) = answered_all v l (answer v r s).1 b in
      (
        ap (λ t. box v b t.1) next
            ∙ boxes
            ∙ ap (confirm_all l) confirmed
            ∙ sym (confirm_all_known r l (box v b s) (notice_of e) (known_notice v r s b e k)),
        λ w ne. ap (λ t. lookup w t.1.events) next ∙ rest w ne ∙ others w ne,
      )
]

-- The answers of a VEN confirm what its mailbox holds, and change no other mailbox.
pub created_event-confirm_all :
    (v w : ℕ) (l : List EventResponse) (s : Server)
    → s.event_service.polling_method ≡ internal
    → mailbox w (record s { event_service = (created_event v l s.event_service).1 })
      ≡ (if w == v then confirm_all l (mailbox w s) else mailbox w s)
created_event-confirm_all v w l s i = elim (Bool-cases (w == v)) [
  | inl q ↦ rw (q, (==_iff w v).0 q) (ap (box v b) state ∙ all.0)
  | inr q ↦ rw q (
      boxed_cong
        (ap (λ t. map notice_of (lookup_or w [] t.events)) state
          ∙ ap (λ o. map notice_of (elim o [ none ↦ [] | some x ↦ x ]))
              (all.1 w (λ k. ground arith)))
        refl)
]
  where
    b : Bool
    b = lookup_or v false s.poll_service.events_updated

    all :
        (box v b (for_each (answer v) l s.event_service).1
          ≡ confirm_all l (box v b s.event_service))
        × ((u : ℕ)
            → u ≢ v
            → lookup u (for_each (answer v) l s.event_service).1.events
              ≡ lookup u s.event_service.events)
    all = answered_all v l s.event_service b

    state : (created_event v l s.event_service).1 ≡ (for_each (answer v) l s.event_service).1
    state =
        ap (λ x. x.1) (created_event_internal v l s.event_service i)
        ∙ then_pure empty_response (for_each (answer v) l s.event_service)
