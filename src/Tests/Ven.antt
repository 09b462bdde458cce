-- ===== src/Tests/Ven.antt =====
-- The theorems on the client at concrete inputs.
use openleadr_python.Base.{◌≡◌, refl, List, [], ◌∷◌, map, select, All}
use openleadr_python.Base.Int.{pos}
use openleadr_python.Base.Exec.{ok}
use openleadr_python.Event.{Event as EventData, far, active, completed, cancelled}
use openleadr_python.Ven.Events
use openleadr_python.Ven.Events.{
  Answer, opt_in, opt_out, other, Client, Handlers, take_event, decide, on_event, created_event,
  event_responses, opt_out_of_all, needs_response, is_irrelevant, event_cleanup, event_status_log,
}
use openleadr_python.Ven.Events.Again.{take_event_repeats, after_messages, on_event_forgets}
use openleadr_python.Ven.Events.Responses.{
  sent_responses, key, event_key, IsProper, on_event_answers,
}
use openleadr_python.Ven.Events.Cleanup.{Reach}
use openleadr_python.Tests.{event}

-- Handlers that opt in to new events and return something else for changed ones.
abbrev pub handlers : Handlers
handlers = record { on_event = λ _ _. ok opt_in; on_update_event = λ _ _. ok (other 4) }

abbrev pub client : Client
client = record {
  received_events = event 5 0 active ∷ event 6 0 cancelled ∷ [];
  responded_events = (5, opt_in) ∷ (6, opt_out) ∷ [];
}

abbrev updates : List EventData
updates = event 5 1 active ∷ event 7 0 far ∷ []

on_event_answers_example :
    let sent = sent_responses (on_event handlers (pos 97000000) 30 updates client).0 in
    (map key sent ≡ map event_key (select (needs_response (pos 97000000)) updates))
    × All (IsProper (pos 97000000) 30) sent
on_event_answers_example = on_event_answers handlers (pos 97000000) 30 updates client

first_answer : (take_event handlers (event 7 0 far) client).0 ≡ ok opt_in
first_answer = unfold take_event decide in refl

take_event_repeats_example :
    let t = (take_event handlers (event 7 0 far) client).1 in
    ((take_event handlers (event 7 0 active) t).0 ≡ ok opt_in)
    × ((take_event handlers (event 7 0 active) t).1.received_events ≡ t.received_events)
take_event_repeats_example =
    take_event_repeats handlers handlers (event 7 0 far) (event 7 0 active) client opt_in
      (refl, (refl, tt)) first_answer refl (refl, refl)

last_answer : (take_event handlers (event 5 0 completed) client).0 ≡ ok opt_in
last_answer = unfold take_event decide in refl

on_event_forgets_example :
    (on_event handlers (pos 97000000) 30 (event 7 0 far ∷ event 5 0 completed ∷ []) (
      after_messages handlers
        ((event 8 0 far ∷ []) ∷ [])
        (take_event handlers (event 5 0 completed) client).1)).0
    ≡ created_event 30 (
        event_responses
          (pos 97000000)
          30
          (opt_out_of_all (event 7 0 far ∷ event 5 0 completed ∷ [])))
on_event_forgets_example =
    on_event_forgets handlers handlers (event 5 0 completed) (event 5 0 completed) client opt_in
      (pos 97000000) 30 ((event 8 0 far ∷ []) ∷ []) (event 7 0 far ∷ []) [] (refl, (refl, tt))
      last_answer refl refl (refl, refl) ((refl, tt), tt) (refl, tt)

abbrev later_client : Client
later_client =
    event_cleanup (pos 98000000) (on_event handlers (pos 97000000) 30 updates Events.init).1

later_client-Reach : Reach later_client
later_client-Reach =
    Reach.cleaned (pos 98000000) (on_event handlers (pos 97000000) 30 updates Events.init).1
      (Reach.received handlers (pos 97000000) 30 updates Events.init Reach.start)
