-- ===== src/Ven/Events.antt =====
-- openleadr/client.py: the events that the client holds, its answers to them (`_on_event`), and
-- the two periodic tasks over them (`_event_status_log`, `_event_cleanup`).
pub mod Received
pub mod Waits
pub mod Again
pub mod Responses
pub mod Cleanup
use openleadr_python.Base.{
  ℕ, zero, suc, String, string_discrete, Bool, true, false, not, ◌&&◌, ◌||◌, Option, none, some,
  List, [], ◌∷◌, ◌++◌, map, any, find, remove_first, get_elem?, length, ◌==◌, if◌then◌else◌,
}
use openleadr_python.Base.Exec.{
  Exec, Error, Result, ok, raise, key_error, pure, gets, or_throw, lift, modify, ◌>>=◌, ◌>>◌,
}
use openleadr_python.Base.Dict.{Dict, lookup, contains, insert, erase}
use openleadr_python.Event.{
  Instant, Event, EventSignal, event_id, event_status, is_completed, is_cancelled, same_status,
  set_event_status,
}
use openleadr_python.Event.Objects.{same_text, signal_names, is_member}
use openleadr_python.Event.Status.{determine_event_status}

-- What a handler returns: an opt type, or something that is none.
pub data Answer : Type 0 where
  opt_in opt_out : Answer
  other : ℕ → Answer

pub record Client : Type 0 where
  pub received_events : List Event
  pub responded_events : Dict Answer

abbrev pub init : Client
init = record { received_events = []; responded_events = [] }

-- The handlers of the user may look at the client, and may raise.
pub record Handlers : Type 0 where
  pub on_event : Client → Event → Result Answer
  pub on_update_event : Client → Event → Result Answer

abbrev pub has_id : ℕ → Event → Bool
has_id k e = event_id e == k

abbrev pub modification_number : Event → ℕ
modification_number e = e.event_descriptor.modification_number

abbrev pub receive : Event → Client → Client
receive e s = record s { received_events = s.received_events ++ e ∷ [] }

-- `utils.pop_by`, then `append`
abbrev pub replace_event : Event → Client → Client
replace_event e s = record s {
  received_events = remove_first (has_id (event_id e)) s.received_events ++ e ∷ [];
}

abbrev pub note_answer : ℕ → Answer → Client → Client
note_answer k a s = record s { responded_events = insert k a s.responded_events }

abbrev pub is_over : Event → Bool
is_over e = is_completed (event_status e) || is_cancelled (event_status e)

-- The answer is noted; the note of an event that is over is dropped, if there is one.
unfoldable pub settle : Event → Answer → Client → Client
settle e a s =
    if is_over e && contains (event_id e) s.responded_events
    then (record s { responded_events = erase (event_id e) s.responded_events })
    else note_answer (event_id e) a s

module _ (h : Handlers) where
  -- The answer to one event: a known one is answered as before.
  unfoldable pub decide : Event → Exec Client Answer
  decide e s = elim (find (has_id (event_id e)) s.received_events) [
    | some r ↦
        if modification_number r == modification_number e
        then or_throw key_error (lookup (event_id e) s.responded_events) s
        else lift (h.on_update_event (replace_event e s) e) (replace_event e s)
    | none ↦ lift (h.on_event (receive e s) e) (receive e s)
  ]

  -- One round of the loop of `_on_event`.
  unfoldable pub take_event : Event → Exec Client Answer
  unfolding decide settle
  take_event e = do a ← decide e; modify (settle e a); pure a

  -- The loop, with each event beside its result.
  unfoldable pub take_events : List Event → Exec Client (List (Event × Answer))
  unfolding take_event
  take_events [] = pure []
  take_events (e ∷ l) = do a ← take_event e; rest ← take_events l; pure ((e, a) ∷ rest)

abbrev pub is_always : Option String → Bool
is_always none = false
is_always (some t) = same_text t "always"

-- `response_required == 'always'`
abbrev pub requires_response : Event → Bool
requires_response e = is_always e.response_required

unfoldable pub correct : Event → Answer → Answer
correct e (other n) = if requires_response e then opt_out else other n
correct e a = a

abbrev pub correct_all : List (Event × Answer) → List (Event × Answer)
correct_all = map (λ (e, a). (e, correct e a))

abbrev pub opt_out_of_all : List Event → List (Event × Answer)
opt_out_of_all = map (λ e. (e, opt_out))

-- The results that are sent: an exception anywhere opts out of every event of the message.
abbrev pub results :
    List Event → Result (List (Event × Answer)) × Client → List (Event × Answer) × Client
results l (ok pairs, s) = (correct_all pairs, s)
results l (raise e, s) = (opt_out_of_all l, s)

abbrev pub is_supported : EventSignal → Bool
is_supported g = is_member g.signal_name signal_names

abbrev pub signal_not_supported : ℕ
signal_not_supported = 460

-- The loop over the signals, which stops at the first one that is not supported.
unfoldable pub response_code_of : List EventSignal → ℕ
response_code_of [] = 200
response_code_of (g ∷ l) = if is_supported g then response_code_of l else signal_not_supported

pub record EventResponse : Type 0 where
  pub response_code : ℕ
  pub opt_type : Answer
  pub request_id : ℕ
  pub modification_number : ℕ
  pub event_id : ℕ

-- An answer is sent if it is asked for and the event has not ended.
abbrev pub needs_response : Instant → Event → Bool
needs_response now e =
    requires_response e && not (is_completed (determine_event_status now e.active_period))

abbrev pub response_to : ℕ → Event → Answer → EventResponse
response_to request_id e a = record {
  response_code = response_code_of e.event_signals;
  opt_type = a;
  request_id = request_id;
  modification_number = modification_number e;
  event_id = event_id e;
}

unfoldable pub event_responses : Instant → ℕ → List (Event × Answer) → List EventResponse
unfolding response_code_of
event_responses now request_id [] = []
event_responses now request_id ((e, a) ∷ l) =
    let rest = event_responses now request_id l in
    if needs_response now e then response_to request_id e a ∷ rest else rest

-- The message that is sent, if any: `oadrCreatedEvent`.
pub record CreatedEvent : Type 0 where
  pub request_id : ℕ
  pub event_responses : List EventResponse

abbrev pub created_event : ℕ → List EventResponse → Option CreatedEvent
created_event request_id [] = none
created_event request_id (r ∷ l) =
    some (record { request_id = request_id; event_responses = r ∷ l })

-- The message's events, and its request id.
unfoldable pub on_event :
    Handlers → Instant → ℕ → List Event → Client → Option CreatedEvent × Client
unfolding take_events correct event_responses
on_event h now request_id l s =
    let (pairs, t) = results l (take_events h l s) in
    (created_event request_id (event_responses now request_id pairs), t)

unfoldable pub log_status : Instant → Event → Event
log_status now e =
    if is_cancelled (event_status e)
    then e
    else let status = determine_event_status now e.active_period in
      if same_status status (event_status e) then e else set_event_status status e

unfoldable pub event_status_log : Instant → Client → Client
unfolding log_status
event_status_log now s = record s { received_events = map (log_status now) s.received_events }

abbrev pub is_irrelevant : Instant → Event → Bool
is_irrelevant now e =
    is_cancelled (event_status e) || is_completed (determine_event_status now e.active_period)

-- `l.pop(i)`
abbrev pub pop_at : ℕ → List Event → List Event
pop_at i [] = []
pop_at zero (x ∷ l) = l
pop_at (suc i) (x ∷ l) = x ∷ pop_at i l

-- One round of the loop of `_event_cleanup`.
abbrev pub clean_at : Instant → ℕ → List Event → List Event
clean_at now i l = elim (get_elem? l i) [
  | none ↦ l
  | some e ↦ if is_irrelevant now e then pop_at i l else l
]

-- The rounds for the indices below `n`, the last one first.
unfoldable pub clean_below : Instant → ℕ → List Event → List Event
clean_below now zero l = l
clean_below now (suc i) l = clean_below now i (clean_at now i l)

unfoldable pub event_cleanup : Instant → Client → Client
unfolding clean_below
event_cleanup now s = record s {
  received_events = clean_below now (length s.received_events) s.received_events;
}
