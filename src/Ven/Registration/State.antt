-- ===== src/Ven/Registration/State.antt =====
-- What the client of openleadr/client.py sends and takes in, and its state.
use openleadr_python.Base.{ℕ, Bool, Option, none, List}
use openleadr_python.Event.{Instant, Duration, Event}
use openleadr_python.Ven.Transport.{Performed}
use openleadr_python.Ven.Events as Events
use openleadr_python.Ven.Reports as Reports
use openleadr_python.Ven.Reports.Create as Create
use openleadr_python.Ven.Reports.Cancel as Cancel

-- The types of the messages that the client takes in.
pub data MessageType : Type 0 where
  response request_reregistration distribute_event update_report create_report : MessageType
  register_report cancel_party_registration cancel_report : MessageType
  created_party_registration registered_report canceled_party_registration : MessageType
  other_type : MessageType

-- The member `response` of a message
pub record ResponseInfo : Type 0 where
  pub response_code : ℕ
  pub request_id : Option ℕ

-- The dict of a message, with what the client reads of it; a key may be missing.
pub record Payload : Type 0 where
  pub response : Option ResponseInfo
  pub registration_id : Option (Option ℕ)
  pub ven_id : Option ℕ
  pub requested_oadr_poll_freq : Option Duration
  pub report_requests : Option (List Create.ReportRequest)
  pub request_id : Option ℕ
  pub events : Option (List Event)
  pub cancellation : Option Cancel.Payload

abbrev pub empty_payload : Payload
empty_payload = record {
  response = none;
  registration_id = none;
  ven_id = none;
  requested_oadr_poll_freq = none;
  report_requests = none;
  request_id = none;
  events = none;
  cancellation = none;
}

pub record Message : Type 0 where
  pub message_type : Option MessageType
  pub payload : Payload

-- What the client sends, but for the messages about requests for reports.
pub data Request : Type 0 where
  query_registration : Request
  create_party : Option ℕ → Option ℕ → Option ℕ → Request
  offer_reports : Option ℕ → List ℕ → Request
  ask_events oadr_poll : Option ℕ → Request
  created_event : Events.CreatedEvent → Request
  created_report : ℕ → Option ℕ → List ℕ → Request
  registered_report : ℕ → Request
  empty_response : Request
  leave : ℕ → Option ℕ → Request
  canceled_party_registration : ℕ → ℕ → ℕ → Request

-- The periodic tasks of `run`.
pub data Periodic : Type 0 where
  polling : Duration → Periodic
  event_status_log event_cleanup : Periodic

-- The client. Its state of reports is None once a registration has been cancelled.
pub record OpenAdrClient : Type 0 where
  pub ven_id : Option ℕ
  pub registration_id : Option ℕ
  pub poll_frequency : Option Duration
  pub events : Events.Client
  pub reports : Option Reports.Client
  pub report_queue_task : Bool
  pub scheduled : List Periodic
  pub stopped : Bool
  pub outbox : List Request

-- The VTN answers by all that it was sent; the handlers and callbacks are the user's.
pub record World : Type 0 where
  pub vtn : List Request → Performed Message
  pub now : Instant
  pub handlers : Events.Handlers
  pub callbacks : Reports.Callbacks
  pub names_invalid : ℕ → Bool
