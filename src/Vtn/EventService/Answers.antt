-- ===== src/Vtn/EventService/Answers.antt =====
-- What `created_event` makes of the answers of a VEN.
use openleadr_python.Base.{
  ℕ, ◌≡◌, ◌≢◌, ◌⊎◌, refl, ap, ◌∙◌, inl, inr, none, some, List, [], ◌∷◌, arith, elem, find,
  remove_first, Bool-cases, Option-cases, ◌==◌, if◌then◌else◌,
}
use openleadr_python.Base.Exec.{ok, raise, type_error, key_error, invalid_id}
use openleadr_python.Base.Dict.{
  lookup, lookup_or, lookup-insert_ne, lookup_or-insert_self, lookup-erase,
}
use openleadr_python.Event.{Event, event_status, is_cancelled}
use openleadr_python.Vtn.EventService.{
  EventService, queue, EventResponse, matches, has_id, find_answered, confirm_cancelled,
  use_callback, answer,
}

module _ (v : ℕ) (r : EventResponse) (s : EventService) where
  -- How one answer ends: it needs a queue for the VEN and an event there with the same id and
  -- modification number. An id that was never delivered as completed is an invalid id.
  pub answer_outcome : (answer v r s).0 ≡ elim (lookup v s.events) [
    | none ↦ raise key_error
    | some l ↦ elim (find (matches r) l) [
      | some e ↦ ok tt
      | none ↦
          if elem r.event_id (lookup_or v [] s.completed_event_ids)
          then raise type_error
          else raise invalid_id
    ]
  ]
  unfolding answer find_answered
  answer_outcome = ground arith

  -- An answer that raises changes nothing.
  pub answer_atomic : (answer v r s).0 ≢ ok tt → (answer v r s).1 ≡ s
  unfolding answer find_answered
  answer_atomic h = ground arith

  callbacks-use_callback :
      (k : ℕ)
      → lookup k (use_callback v r s).event_callbacks
        ≡ (if k == r.event_id then none else lookup k s.event_callbacks)
  unfolding use_callback
  callbacks-use_callback k = ground (arith, lookup-erase k r.event_id s.event_callbacks)

  pub events-use_callback : (use_callback v r s).events ≡ s.events
  unfolding use_callback
  events-use_callback = ground arith

  -- With no callback for the event, nothing is called and no future is given a result.
  use_callback-none : lookup r.event_id s.event_callbacks ≡ none → use_callback v r s ≡ s
  unfolding use_callback
  use_callback-none h = ground arith

  callbacks-confirm : (e : Event) → (confirm_cancelled v r e s).event_callbacks ≡ s.event_callbacks
  unfolding confirm_cancelled
  callbacks-confirm e = ground arith

  calls-confirm : (e : Event) → (confirm_cancelled v r e s).calls ≡ s.calls
  unfolding confirm_cancelled
  calls-confirm e = ground arith

  futures-confirm : (e : Event) → (confirm_cancelled v r e s).futures ≡ s.futures
  unfolding confirm_cancelled
  futures-confirm e = ground arith

  queue-confirm :
      (e : Event)
      → queue v (confirm_cancelled v r e s) ≡ (
          if is_cancelled (event_status e)
          then remove_first (has_id r.event_id) (queue v s)
          else queue v s)
  unfolding confirm_cancelled
  queue-confirm e = elim (Bool-cases (is_cancelled (event_status e))) [
    | inl k ↦
        rw k (lookup_or-insert_self v (remove_first (has_id r.event_id) (queue v s)) [] s.events)
    | inr k ↦ rw k refl
  ]

  others-confirm :
      (e : Event) (w : ℕ) → w ≢ v → lookup w (confirm_cancelled v r e s).events ≡ lookup w s.events
  unfolding confirm_cancelled
  others-confirm e w ne =
      ground
        (arith, lookup-insert_ne w v (remove_first (has_id r.event_id) (queue v s)) s.events ne)

-- What an accepted answer to the event `e` does.
pub record Accepts (v : ℕ) (r : EventResponse) (e : Event) (s t : EventService) : Type 0 where
  pub queue_after : queue v t ≡ (
      if is_cancelled (event_status e)
      then remove_first (has_id r.event_id) (queue v s)
      else queue v s)
  pub other_queues : (w : ℕ) → w ≢ v → lookup w t.events ≡ lookup w s.events
  pub callback_spent :
      (k : ℕ)
      → lookup k t.event_callbacks ≡ (if k == r.event_id then none else lookup k s.event_callbacks)

pub answer-eq :
    (v : ℕ) (r : EventResponse) (s : EventService) (l : List Event) (e : Event)
    → lookup v s.events ≡ some l
    → find (matches r) l ≡ some e
    → answer v r s ≡ (ok tt, use_callback v r (confirm_cancelled v r e s))
unfolding answer find_answered
answer-eq v r s l e hl he = ground arith

-- An answer leaves the state alone, or confirms the event that it finds and uses the callback.
pub answer_cases :
    (v : ℕ) (r : EventResponse) (s : EventService)
    → (((answer v r s).0 ≢ ok tt) × ((answer v r s).1 ≡ s))
      ⊎ ((e : Event) × (answer v r s ≡ (ok tt, use_callback v r (confirm_cancelled v r e s))))
answer_cases v r s = elim (Option-cases (lookup v s.events)) [
  | inl k ↦ inl (not_ok (λ h. ground (arith, answer_outcome v r s)))
  | inr (l, k) ↦ elim (Option-cases (find (matches r) l)) [
    | inl m ↦ inl (not_ok (λ h. ground (arith, answer_outcome v r s)))
    | inr (e, m) ↦ inr (e, answer-eq v r s l e k m)
  ]
]
  where
    not_ok : ((answer v r s).0 ≢ ok tt) → ((answer v r s).0 ≢ ok tt) × ((answer v r s).1 ≡ s)
    not_ok h = (h, answer_atomic v r s h)

-- An answer to an event of the queue, with its modification number, is accepted. If the event is
-- cancelled, the first event with its id leaves the queue; otherwise the queue stays. The
-- callback for the event is gone, every other callback stays, and so do the other VENs' queues.
pub answer-Accepts :
    (v : ℕ) (r : EventResponse) (s : EventService) (l : List Event) (e : Event)
    → lookup v s.events ≡ some l
    → find (matches r) l ≡ some e
    → ((answer v r s).0 ≡ ok tt) × Accepts v r e s (answer v r s).1
answer-Accepts v r s l e hl he = rw (answer-eq v r s l e hl he) (
  refl,
  record {
    queue_after =
        ap (lookup_or v []) (events-use_callback v r (confirm_cancelled v r e s))
        ∙ queue-confirm v r s e;
    other_queues = λ w ne.
        ap (lookup w) (events-use_callback v r (confirm_cancelled v r e s))
        ∙ others-confirm v r s e w ne;
    callback_spent = λ k.
        callbacks-use_callback v r (confirm_cancelled v r e s) k
        ∙ ap (λ d. if k == r.event_id then none else lookup k d) (callbacks-confirm v r s e);
  },
)

abbrev pub SameEffects : EventService → EventService → Type 0
SameEffects s t = (s.calls ≡ t.calls) × (s.futures ≡ t.futures)

no_callback_no_effect :
    (w : ℕ) (q : EventResponse) (t : EventService)
    → lookup q.event_id t.event_callbacks ≡ none
    → SameEffects (answer w q t).1 t
no_callback_no_effect w q t h = elim (answer_cases w q t) [
  | inl (_, unchanged) ↦ rw unchanged (refl, refl)
  | inr (e, done) ↦
      rw
        (
          done,
          use_callback-none w q (confirm_cancelled w q e t)
              (ap (lookup q.event_id) (callbacks-confirm w q t e) ∙ h),
        )
        (calls-confirm w q t e, futures-confirm w q t e)
]

-- The answers of a list, each of a VEN, taken one after the other.
abbrev pub answer_all : List (ℕ × EventResponse) → EventService → EventService
answer_all [] s = s
answer_all ((w, q) ∷ l) s = answer_all l (answer w q s).1

-- No answer registers a callback.
answer-keeps_none :
    (k w : ℕ) (q : EventResponse) (t : EventService)
    → lookup k t.event_callbacks ≡ none
    → lookup k (answer w q t).1.event_callbacks ≡ none
answer-keeps_none k w q t h = elim (answer_cases w q t) [
  | inl (_, unchanged) ↦ rw unchanged h
  | inr (e, done) ↦
      ap (λ x. lookup k x.1.event_callbacks) done
      ∙ callbacks-use_callback w q (confirm_cancelled w q e t) k
      ∙ ap (λ d. if k == q.event_id then none else lookup k d) (callbacks-confirm w q t e)
      ∙ ap (λ o. if k == q.event_id then none else o) h
      ∙ ground arith
]

answer_all-keeps_none :
    (k : ℕ) (l : List (ℕ × EventResponse)) (t : EventService)
    → lookup k t.event_callbacks ≡ none
    → lookup k (answer_all l t).event_callbacks ≡ none
answer_all-keeps_none k [] t h = h
answer_all-keeps_none k ((w, q) ∷ l) t h =
    answer_all-keeps_none k l (answer w q t).1 (answer-keeps_none k w q t h)

-- After an accepted answer about an event, and whatever answers of whatever VENs and about whatever
-- events have been taken since, a further answer about that event calls no callback and gives no
-- future its result, whether it is accepted or not, as long as nothing but answers comes between.
pub callback_used_once :
    (v w : ℕ) (r q : EventResponse) (s : EventService) (l : List (ℕ × EventResponse))
    → (answer v r s).0 ≡ ok tt
    → q.event_id ≡ r.event_id
    → let t = answer_all l (answer v r s).1 in SameEffects (answer w q t).1 t
callback_used_once v w r q s l accepted same = elim (answer_cases v r s) [
  | inl (refused, _) ↦ absurd (refused accepted)
  | inr (e, done) ↦
      no_callback_no_effect w q (answer_all l (answer v r s).1)
        (answer_all-keeps_none q.event_id l (answer v r s).1 (spent e done))
]
  where
    spent :
        (e : Event)
        → answer v r s ≡ (ok tt, use_callback v r (confirm_cancelled v r e s))
        → lookup q.event_id (answer v r s).1.event_callbacks ≡ none
    spent e done =
        rw (done, same)
          (callbacks-use_callback v r (confirm_cancelled v r e s) r.event_id ∙ ground arith)
