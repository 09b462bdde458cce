-- ===== src/Ven/Registration.antt =====
-- openleadr/client.py: what the client asks of the VTN and how it registers.
pub mod State
pub mod Unregister
use openleadr_python.Base.{
  ℕ, Bool, true, false, Option, none, some, List, [], ◌∷◌, ◌++◌, map, ◌==◌, if◌then◌else◌,
}
use openleadr_python.Base.Int.{pos}
use openleadr_python.Base.Exec.{
  Exec, Result, Error, ok, raise, type_error, key_error, index_error, continue, pure, modify, ◌>>=◌,
  ◌>>◌,
}
use openleadr_python.Event.{Instant, Duration, Event}
use openleadr_python.Ven.Transport.{Performed, nothing, no_message, received}
use openleadr_python.Ven.Events as Events
use openleadr_python.Ven.Reports as Reports
use openleadr_python.Ven.Reports.Create as Create
use openleadr_python.Ven.Reports.Cancel as Cancel
use openleadr_python.Ven.Registration.State.{
  MessageType, ResponseInfo, Payload, empty_payload, Message, Request, Periodic, OpenAdrClient,
  World, response, request_reregistration, distribute_event, update_report, create_report,
  register_report, cancel_party_registration, cancel_report, created_party_registration,
  registered_report, canceled_party_registration, other_type, query_registration, create_party,
  offer_reports, ask_events, oadr_poll, created_event, created_report, registered_report,
  empty_response, leave, canceled_party_registration, polling, event_status_log, event_cleanup,
}

-- `await self._perform_request(service, message)`
abbrev pub post : World → Request → Exec OpenAdrClient (Performed Message)
post w m s = (ok (w.vtn (s.outbox ++ m ∷ [])), record s { outbox = s.outbox ++ m ∷ [] })

-- `response_type, response_payload = ...`: None cannot be unpacked.
unfoldable pub unpack : Performed Message → Exec OpenAdrClient Message
unpack nothing s = (raise type_error, s)
unpack no_message s = (ok (record { message_type = none; payload = empty_payload }), s)
unpack (received m) s = (ok m, s)

abbrev pub ask : World → Request → Exec OpenAdrClient Message
ask w m = post w m >>= unpack

abbrev pub send : World → Request → Exec OpenAdrClient (Unit {0})
send w m = post w m >>= λ _. pure tt

abbrev pub flat : Option (Option ℕ) → Option ℕ
flat none = none
flat (some o) = o

abbrev pub or_else : Option ℕ → Option ℕ → Option ℕ
or_else none o = o
or_else (some k) o = some k

-- Ten seconds, unless the VTN asks for another period
abbrev pub poll_period : Payload → Duration
poll_period p = elim p.requested_oadr_poll_freq [ none ↦ pos 10000000 | some d ↦ d ]

abbrev pub set_period : Option ℕ → Payload → OpenAdrClient → OpenAdrClient
set_period none p s = s
set_period (some k) p s = record s { poll_frequency = some (poll_period p) }

abbrev pub take_registration : Payload → OpenAdrClient → OpenAdrClient
take_registration p s =
    set_period (flat p.registration_id) p
      (record s { registration_id = flat p.registration_id; ven_id = or_else p.ven_id s.ven_id })

-- Without an answer, or with another code than 200, the client stays as it is.
unfoldable pub settle_registration : Message → Exec OpenAdrClient (Unit {0})
settle_registration m s = elim m.message_type [
  | none ↦ (ok tt, s)
  | some _ ↦ elim m.payload.response [
    | none ↦ (raise key_error, s)
    | some r ↦ if r.response_code == 200 then (ok tt, take_registration m.payload s) else (ok tt, s)
  ]
]

module _ (w : World) where
  -- The VEN's id that is sent is the client's own.
  unfoldable pub create_party_registration : Option ℕ → Option ℕ → Exec OpenAdrClient (Unit {0})
  unfolding unpack settle_registration
  create_party_registration request_id registration_id s =
      (ask w (create_party request_id s.ven_id registration_id) >>= settle_registration) s

  abbrev pub on_reports :
      Exec Reports.Client (Unit {0}) → Reports.Client → Exec OpenAdrClient (Unit {0})
  on_reports m r s = ((m r).0, record s { reports = some ((m r).1) })

  -- The loop over the requests without a list of reports: iterating over None is a TypeError.
  abbrev pub none_accepted : ℕ → List Create.ReportRequest → Result ℕ
  none_accepted code [] = ok code
  none_accepted code (r ∷ rs) = elim (Create.ReportRequest.specifier_payloads r) [
    | [] ↦ raise index_error
    | p ∷ _ ↦
        if Create.is_invalid w.names_invalid r p then none_accepted 452 rs else raise type_error
  ]

  abbrev pub answer_none :
      List Create.ReportRequest → Result ℕ → Result ℕ → Exec OpenAdrClient (Unit {0})
  answer_none rs (raise e) i s = (raise e, s)
  answer_none rs (ok code) (raise e) s = (raise e, s)
  answer_none rs (ok code) (ok i) s =
      send w (created_report code (some i) (map Create.ReportRequest.report_request_id rs)) s

  abbrev pub response_request_id : Payload → Option ℕ
  response_request_id p = elim p.response [ none ↦ none | some r ↦ r.request_id ]

  abbrev pub to_create : Payload → List Create.ReportRequest → Create.Payload
  to_create p rs = record {
    report_requests = rs;
    request_id = p.request_id;
    response_request_id = response_request_id p;
  }

  abbrev pub take_requests_as :
      Payload → List Create.ReportRequest → Option Reports.Client → Exec OpenAdrClient (Unit {0})
  take_requests_as p rs none s =
      answer_none rs (none_accepted 200 rs) (Create.answered_id (to_create p rs)) s
  take_requests_as p rs (some r) s =
      on_reports (Create.create_report w.callbacks w.now w.names_invalid (to_create p rs)) r s

  -- `if 'report_requests' in response_payload`
  unfoldable pub take_requests :
      Payload → Option (List Create.ReportRequest) → Exec OpenAdrClient (Unit {0})
  take_requests p none s = (ok tt, s)
  take_requests p (some rs) s = take_requests_as p rs s.reports s

  -- A cancelled registration has left None in place of the reports, which is no list.
  unfoldable pub register_reports : Exec OpenAdrClient (Unit {0})
  unfolding unpack take_requests
  register_reports s = elim s.reports [
    | none ↦ (raise type_error, s)
    | some r ↦
        (ask w (offer_reports s.ven_id (map Reports.Report.report_specifier_id r.reports)) >>= λ m.
        take_requests m.payload m.payload.report_requests)
          s
  ]

  abbrev pub send_created : Option ℕ → Option Events.CreatedEvent → Exec OpenAdrClient (Unit {0})
  send_created _ none s = (ok tt, s)
  send_created none (some m) s = (raise key_error, s)
  send_created (some k) (some m) s = send w (created_event m) s

  abbrev pub answered_request : Option ℕ → ℕ
  answered_request none = 0
  answered_request (some k) = k

  -- `_on_event`, whose answers carry the id of the message.
  unfoldable pub take_events_of : Payload → List Event → Exec OpenAdrClient (Unit {0})
  take_events_of p l s =
      let r = Events.on_event w.handlers w.now (answered_request p.request_id) l s.events in
      send_created p.request_id r.0 (record s { events = r.1 })

  -- `if 'events' in response_payload and len(response_payload['events']) > 0`
  abbrev pub take_any_events : Payload → Option (List Event) → Exec OpenAdrClient (Unit {0})
  take_any_events p none s = (ok tt, s)
  take_any_events p (some []) s = (ok tt, s)
  take_any_events p (some (e ∷ l)) s = take_events_of p (e ∷ l) s

  unfoldable pub sync_events : Exec OpenAdrClient (Unit {0})
  unfolding unpack take_events_of
  sync_events s =
      (ask w (ask_events s.ven_id) >>= λ m. take_any_events m.payload m.payload.events) s

  abbrev pub stop : Exec OpenAdrClient (Unit {0})
  stop s = (ok tt, record s { stopped = true; report_queue_task = false })

  -- The task is made if there are any reports.
  abbrev pub start_queue : OpenAdrClient → OpenAdrClient
  start_queue s = elim s.reports [
    | none ↦ s
    | some r ↦ elim r.reports [ [] ↦ s | _ ∷ _ ↦ record s { report_queue_task = true } ]
  ]

  -- What follows a registration, when it has succeeded, and `stop` otherwise.
  abbrev pub prepare : Exec OpenAdrClient (Unit {0}) → Exec OpenAdrClient (Unit {0})
  prepare next = modify start_queue >> (sync_events >> next)

  abbrev pub start_up_as : Exec OpenAdrClient (Unit {0}) → Option ℕ → Exec OpenAdrClient (Unit {0})
  start_up_as next none s = stop s
  start_up_as next (some _) s = (register_reports >> prepare next) s

  abbrev pub start_up : Exec OpenAdrClient (Unit {0}) → Exec OpenAdrClient (Unit {0})
  start_up next s = start_up_as next s.registration_id s

  unfoldable pub create_party_reregistration : Exec OpenAdrClient (Unit {0})
  unfolding create_party_registration register_reports sync_events
  create_party_reregistration s =
      (create_party_registration none s.registration_id >> start_up (pure tt)) s
