-- ===== src/Journey/Sent.antt =====
-- The event as the server sends it, and the client's answer as the server takes it in.
use openleadr_python.Base.{
  ℕ, ◌≡◌, refl, ap, true, false, Option, none, some, List, [], ◌∷◌, find, arith,
}
use openleadr_python.Base.Exec.{ok}
use openleadr_python.Event.{Instant, Event, event_id, event_status, is_completed, is_cancelled}
use openleadr_python.Event.Status.{determine_event_status}
use openleadr_python.Event.Order.{update_status}
use openleadr_python.Event.Period.{Span, plain_period}
use openleadr_python.Vtn.EventService.{Opt, EventResponse}
use openleadr_python.Vtn.Server.{with_defaults}
use openleadr_python.Ven.Events as Ven

-- The opt types on the wire
abbrev pub answer_of : Opt → Ven.Answer
answer_of Opt.opt_in = Ven.opt_in
answer_of Opt.opt_out = Ven.opt_out

abbrev pub opt_of : Ven.Answer → Option Opt
opt_of Ven.opt_in = some Opt.opt_in
opt_of Ven.opt_out = some Opt.opt_out
opt_of (Ven.other n) = none

-- An answer as the server takes it in; the schema refuses one that is no opt type.
abbrev pub taken_in : Ven.EventResponse → Option EventResponse
taken_in r = elim (opt_of r.opt_type) [
  | none ↦ none
  | some o ↦
      some (record {
        event_id = r.event_id;
        modification_number = r.modification_number;
        opt_type = o;
      })
]

abbrev pub all_taken_in : List Ven.EventResponse → List EventResponse
all_taken_in [] = []
all_taken_in (r ∷ l) = elim (taken_in r) [ none ↦ all_taken_in l | some q ↦ q ∷ all_taken_in l ]

abbrev pub message_responses : Option Ven.CreatedEvent → List Ven.EventResponse
message_responses none = []
message_responses (some m) = m.event_responses

module _ (now : Instant) (e : Event) (p : Span) where
  -- The event as it is sent
  abbrev pub sent_event : Event
  sent_event = update_status now (with_defaults p e)

  pub period-sent_event : sent_event.active_period ≡ plain_period p
  unfolding update_status
  period-sent_event = ground arith

  pub id-sent_event : event_id sent_event ≡ event_id e
  unfolding update_status
  id-sent_event = ground arith

  pub required-sent_event : sent_event.response_required ≡ e.response_required
  unfolding update_status
  required-sent_event = ground arith

  pub is_cancelled-sent_event :
      is_cancelled (event_status e) ≡ false → is_cancelled (event_status sent_event) ≡ false
  unfolding update_status determine_event_status
  is_cancelled-sent_event h = ground (arith, h)

  pub is_completed-sent_event :
      is_completed (determine_event_status now (plain_period p)) ≡ false
      → is_cancelled (event_status e) ≡ false
      → is_completed (event_status sent_event) ≡ false
  unfolding update_status
  is_completed-sent_event h k = ground (arith, h, k)

pub all_taken_in-response_to :
    (k : ℕ) (x : Event) (a : Opt)
    → all_taken_in (Ven.response_to k x (answer_of a) ∷ [])
      ≡ (record {
        event_id = event_id x;
        modification_number = Ven.modification_number x;
        opt_type = a;
      })
        ∷ []
all_taken_in-response_to k x Opt.opt_in = refl
all_taken_in-response_to k x Opt.opt_out = refl

correct-answer_of : (x : Event) (a : Opt) → Ven.correct x (answer_of a) ≡ answer_of a
unfolding Ven.correct
correct-answer_of x Opt.opt_in = refl
correct-answer_of x Opt.opt_out = refl

module _ (h : Ven.Handlers) (now : Instant) (k : ℕ) (c : Ven.Client) (x : Event) (a : Opt) where
  decided :
      find (Ven.has_id (event_id x)) c.received_events ≡ none
      → h.on_event (Ven.receive x c) x ≡ ok (answer_of a)
      → Ven.decide h x c ≡ (ok (answer_of a), Ven.receive x c)
  unfolding Ven.decide
  decided f o = rw (Ven.decide, f) (ap (λ r. (r, Ven.receive x c)) o)

  -- A client that does not know the event asks its handler, and sends what it says.
  pub on_event_new :
      find (Ven.has_id (event_id x)) c.received_events ≡ none
      → h.on_event (Ven.receive x c) x ≡ ok (answer_of a)
      → Ven.needs_response now x ≡ true
      → (Ven.on_event h now k (x ∷ []) c).0
        ≡ some (record { request_id = k; event_responses = Ven.response_to k x (answer_of a) ∷ [] })
  unfolding Ven.on_event Ven.take_events Ven.take_event Ven.event_responses Ven.correct
  on_event_new f o n = rw (decided f o, n, correct-answer_of x a) refl
