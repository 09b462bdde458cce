-- ===== src/Ven/Polling.antt =====
-- openleadr/client.py: `_poll`, which brings the next message of the VTN to what handles it, and
-- `run`, which starts the client.
pub mod Running
pub mod Keeps
use openleadr_python.Base.{
  ℕ, ◌≡◌, refl, ap, ◌∙◌, Option, none, some, List, [], ◌∷◌, ◌++◌, ◌==◌, if◌then◌else◌,
}
use openleadr_python.Base.Int.{pos, ltb_ℤ}
use openleadr_python.Base.Exec.{
  Exec, Result, ok, raise, type_error, key_error, attribute_error, continue, pure, modify, ◌>>=◌,
  ◌>>◌,
}
use openleadr_python.Event.{Duration}
use openleadr_python.Ven.Reports as Reports
use openleadr_python.Ven.Reports.Cancel as Cancel
use openleadr_python.Ven.Registration.{
  unpack, ask, send, on_reports, take_requests, take_any_events, start_up,
  create_party_registration, create_party_reregistration, response_request_id,
}
use openleadr_python.Ven.Registration.State.{
  MessageType, response, request_reregistration, distribute_event, update_report, create_report,
  register_report, cancel_party_registration, cancel_report, Payload, Message, Request, oadr_poll,
  registered_report, empty_response, query_registration, Periodic, polling, event_status_log,
  event_cleanup, OpenAdrClient, World,
}
use openleadr_python.Ven.Registration.Unregister.{on_cancel_party_registration}

-- A day, in microseconds
abbrev pub longest_period : Duration
longest_period = pos 86400000000

abbrev pub cap : Duration → Duration
cap d = if ltb_ℤ longest_period d then longest_period else d

abbrev pub tasks : Duration → List Periodic
tasks d = polling d ∷ event_status_log ∷ event_cleanup ∷ []

-- The polling frequency is None if the VTN gave an id only when it was asked for its
-- registration, and None cannot be compared.
abbrev pub schedule_as : Option Duration → Exec OpenAdrClient (Unit {0})
schedule_as none s = (raise type_error, s)
schedule_as (some d) s =
    (ok tt, record s { poll_frequency = some (cap d); scheduled = s.scheduled ++ tasks (cap d) })

unfoldable pub schedule_tasks : Exec OpenAdrClient (Unit {0})
schedule_tasks s = schedule_as s.poll_frequency s

abbrev pub take_query : Payload → OpenAdrClient → OpenAdrClient
take_query p s = elim p.registration_id [ none ↦ s | some o ↦ record s { registration_id = o } ]

module _ (w : World) where
  -- The ids of a cancellation are read from the message first; None in place of the list of
  -- requests cannot be searched.
  unfoldable pub take_cancellation :
      Option Cancel.Payload → Option Reports.Client → Exec OpenAdrClient (Unit {0})
  take_cancellation none _ s = (raise key_error, s)
  take_cancellation (some x) none s = (raise type_error, s)
  take_cancellation (some x) (some r) s =
      on_reports w (Cancel.cancel_report w.callbacks w.now x) r s

  unfoldable pub decline_reports : Option ℕ → Exec OpenAdrClient (Unit {0})
  unfolding unpack
  decline_reports none s = (raise key_error, s)
  decline_reports (some i) s = (ask w (registered_report i) >>= λ _. pure tt) s

  -- `_on_report`, for the type oadrUpdateReport, does not exist.
  unfoldable pub dispatch : MessageType → Payload → Exec OpenAdrClient (Unit {0})
  unfolding take_cancellation decline_reports
  dispatch request_reregistration p = send w empty_response >> create_party_reregistration w
  dispatch distribute_event p = take_any_events w p p.events
  dispatch update_report p = λ s. (raise attribute_error, s)
  dispatch create_report p = take_requests w p p.report_requests
  dispatch register_report p = decline_reports p.request_id
  dispatch cancel_party_registration p = on_cancel_party_registration w p
  dispatch cancel_report p = λ s. take_cancellation p.cancellation s.reports s
  dispatch _ p = pure tt

  abbrev pub dispatch_any : Option MessageType → Payload → Exec OpenAdrClient (Unit {0})
  dispatch_any none p = pure tt
  dispatch_any (some t) p = dispatch t p

  -- `_poll`
  unfoldable pub poll : Exec OpenAdrClient (Unit {0})
  unfolding unpack dispatch
  poll s = (ask w (oadr_poll s.ven_id) >>= λ m. dispatch_any m.message_type m.payload) s

  abbrev pub query_request_id : Payload → Option ℕ
  query_request_id p = response_request_id w p

  abbrev pub begin : Message → Exec OpenAdrClient (Unit {0})
  begin m =
      modify (take_query m.payload)
      >> (create_party_registration w (query_request_id m.payload) none
          >> start_up w (poll >> schedule_tasks))

  unfoldable pub run : Exec OpenAdrClient (Unit {0})
  unfolding poll schedule_tasks
  run = ask w query_registration >>= begin
