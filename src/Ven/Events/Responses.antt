-- ===== src/Ven/Events/Responses.antt =====
-- The answers that the client sends to a message with events.
use openleadr_python.Base.{
  ℕ, ◌≡◌, ◌⊎◌, inl, inr, refl, ap, sym, ◌∙◌, true, Option, none, some, List, [], ◌∷◌, map, select,
  All, arith, Bool-cases,
}
use openleadr_python.Base.Exec.{Result, ok, raise, continue, pure, ◌>>=◌}
use openleadr_python.Event.{Instant, Event, event_id}
use openleadr_python.Ven.Events.{
  Answer, opt_in, opt_out, other, Client, Handlers, modification_number, requires_response,
  needs_response, correct, correct_all, opt_out_of_all, results, take_event, take_events,
  EventResponse, event_responses, CreatedEvent, created_event, on_event,
}

abbrev pub sent_responses : Option CreatedEvent → List EventResponse
sent_responses none = []
sent_responses (some m) = m.event_responses

-- The id and the modification number.
abbrev pub key : EventResponse → ℕ × ℕ
key r = (r.event_id, r.modification_number)

abbrev pub event_key : Event → ℕ × ℕ
event_key e = (event_id e, modification_number e)

-- 'optIn' or 'optOut'
abbrev pub IsOpt : Answer → Type 0
IsOpt a = (a ≡ opt_in) ⊎ (a ≡ opt_out)

sent_responses-created_event :
    (k : ℕ) (l : List EventResponse) → sent_responses (created_event k l) ≡ l
sent_responses-created_event k [] = refl
sent_responses-created_event k (r ∷ l) = refl

abbrev events_of : List (Event × Answer) → List Event
events_of = map (λ (e, a). e)

ok-inj : {x y : List (Event × Answer)} → ok x ≡ ok y → x ≡ y
ok-inj k = cc

take_events-events :
    (h : Handlers) (l : List Event) (s : Client) (pairs : List (Event × Answer))
    → (take_events h l s).0 ≡ ok pairs
    → events_of pairs ≡ l
unfolding take_events
take_events-events h [] s pairs k = ap events_of (sym (ok-inj k))
take_events-events h (e ∷ l) s pairs k = first (take_event h e s) (λ t. take_events-events h l t) k
  where
    then_rest :
        (a : Answer) (x : Result (List (Event × Answer)) × Client)
        → ((p : List (Event × Answer)) → x.0 ≡ ok p → events_of p ≡ l)
        → (continue x (λ rest. pure ((e, a) ∷ rest))).0 ≡ ok pairs
        → events_of pairs ≡ e ∷ l
    then_rest a (ok p, t) f k = ap events_of (sym (ok-inj k)) ∙ ap (◌∷◌ e) (f p refl)
    then_rest a (raise y, t) f k = absurd (ground arith)

    first :
        (x : Result Answer × Client)
        → ((t : Client) (p : List (Event × Answer))
            → (take_events h l t).0 ≡ ok p
            → events_of p ≡ l)
        → (continue x (λ a. take_events h l >>= λ rest. pure ((e, a) ∷ rest))).0 ≡ ok pairs
        → events_of pairs ≡ e ∷ l
    first (ok a, t) f k = then_rest a (take_events h l t) (f t) k
    first (raise y, t) f k = absurd (ground arith)

-- An answer that is asked for is one that may be sent.
abbrev IsSendable : Event × Answer → Type 0
IsSendable (e, a) = requires_response e ≡ true → IsOpt a

correct-IsSendable : (e : Event) (a : Answer) → IsSendable (e, correct e a)
unfolding correct
correct-IsSendable e opt_in k = inl refl
correct-IsSendable e opt_out k = inr refl
correct-IsSendable e (other n) k = rw k (inr refl)

correct_all-IsSendable : (l : List (Event × Answer)) → All IsSendable (correct_all l)
correct_all-IsSendable [] = tt
correct_all-IsSendable ((e, a) ∷ l) = (correct-IsSendable e a, correct_all-IsSendable l)

opt_out_of_all-IsSendable : (l : List Event) → All IsSendable (opt_out_of_all l)
opt_out_of_all-IsSendable [] = tt
opt_out_of_all-IsSendable (e ∷ l) = ((λ k. inr refl), opt_out_of_all-IsSendable l)

events_of-correct_all : (l : List (Event × Answer)) → events_of (correct_all l) ≡ events_of l
events_of-correct_all [] = refl
events_of-correct_all ((e, a) ∷ l) = ap (◌∷◌ e) (events_of-correct_all l)

events_of-opt_out_of_all : (l : List Event) → events_of (opt_out_of_all l) ≡ l
events_of-opt_out_of_all [] = refl
events_of-opt_out_of_all (e ∷ l) = ap (◌∷◌ e) (events_of-opt_out_of_all l)

-- The results are for the events of the message, and sendable where they are asked for.
results_cover :
    (l : List Event) (x : Result (List (Event × Answer)) × Client)
    → ((pairs : List (Event × Answer)) → x.0 ≡ ok pairs → events_of pairs ≡ l)
    → (events_of (results l x).0 ≡ l) × All IsSendable (results l x).0
results_cover l (ok pairs, s) h =
    (events_of-correct_all pairs ∙ h pairs refl, correct_all-IsSendable pairs)
results_cover l (raise e, s) h = (events_of-opt_out_of_all l, opt_out_of_all-IsSendable l)

module _ (now : Instant) (request_id : ℕ) where
  event_responses-keys :
      (l : List (Event × Answer))
      → map key (event_responses now request_id l)
        ≡ map event_key (select (needs_response now) (events_of l))
  unfolding event_responses
  event_responses-keys [] = refl
  event_responses-keys ((e, a) ∷ l) = elim (Bool-cases (needs_response now e)) [
    | inl k ↦ rw k (ap (◌∷◌ (event_key e)) (event_responses-keys l))
    | inr k ↦ rw k (event_responses-keys l)
  ]

  abbrev pub IsProper : EventResponse → Type 0
  IsProper r = IsOpt r.opt_type × (r.request_id ≡ request_id)

  event_responses-IsProper :
      (l : List (Event × Answer))
      → All IsSendable l
      → All IsProper (event_responses now request_id l)
  unfolding event_responses
  event_responses-IsProper [] h = tt
  event_responses-IsProper ((e, a) ∷ l) h = elim (Bool-cases (needs_response now e)) [
    | inl k ↦ rw k ((h.0 (ground arith), refl), event_responses-IsProper l h.1)
    | inr k ↦ rw k (event_responses-IsProper l h.1)
  ]

-- Whatever the handlers return or raise, the client answers exactly those events of the message
-- that ask for it and have not ended, in the order of the message, each with its id, its
-- modification number and the request's id, and every answer is an opt-in or an opt-out.
pub on_event_answers :
    (h : Handlers) (now : Instant) (request_id : ℕ) (l : List Event) (s : Client)
    → let sent = sent_responses (on_event h now request_id l s).0 in
      (map key sent ≡ map event_key (select (needs_response now) l))
      × All (IsProper now request_id) sent
unfolding on_event
on_event_answers h now request_id l s =
    let pairs = (results l (take_events h l s)).0 in
    let (covers, sendable) = results_cover l (take_events h l s) (take_events-events h l s) in
    rw (sent_responses-created_event request_id (event_responses now request_id pairs)) (
      event_responses-keys now request_id pairs
          ∙ ap (λ m. map event_key (select (needs_response now) m)) covers,
      event_responses-IsProper now request_id pairs sendable,
    )
