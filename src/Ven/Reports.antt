-- ===== src/Ven/Reports.antt =====
-- openleadr/client.py: the reports that the client offers and the requests for them that it holds.
pub mod Update
pub mod Complete
pub mod Rest
pub mod Create
pub mod Cancel
pub mod Queue
pub mod Add
use openleadr_python.Base.{ℕ, String, Bool, Option, none, some, List, [], ◌∷◌, ◌++◌, find, ◌==◌}
use openleadr_python.Base.Int.{ℤ}
use openleadr_python.Base.Exec.{Result}
use openleadr_python.Base.Dict.{Dict, lookup_or, insert}
use openleadr_python.Event.{Instant, Duration}
use openleadr_python.Ven.Cron.{CronConfig}

pub data DataCollectionMode : Type 0 where
  full incremental : DataCollectionMode

-- A measurement, as far as requests for reports look at it.
pub record MeasurementKind : Type 0 where
  pub description : String
  pub unit : String

pub record ReportDescription : Type 0 where
  pub r_id : ℕ
  pub measurement : Option MeasurementKind
  pub min_period : Duration
  pub max_period : Duration

pub record Report : Type 0 where
  pub report_specifier_id : ℕ
  pub report_name : String
  pub duration : Option Duration
  pub data_collection_mode : DataCollectionMode
  pub report_descriptions : List ReportDescription

pub record ReportInterval : Type 0 where
  pub dtstart : Instant
  pub r_id : ℕ
  pub value : ℤ
  pub duration : Option Duration

-- A report that is being filled.
pub record Outgoing : Type 0 where
  pub report_request_id : ℕ
  pub report_specifier_id : ℕ
  pub report_name : String
  pub intervals : List ReportInterval
  pub dtstart : Option Instant
  pub duration : Option Duration

-- The local variables of a call of `create_report` that outlive it: the list of datapoints, which
-- all the entries of the call share, and the id of the request, which its callbacks read.
pub record Frame : Type 0 where
  pub requested_r_ids : List ℕ
  pub report_request_id : Option ℕ

-- An entry of `self.report_requests`; its list of datapoints is that of the frame.
pub record StoredRequest : Type 0 where
  pub report_request_id : ℕ
  pub report_specifier_id : ℕ
  pub report_back_duration : Option Duration
  pub frame : ℕ
  pub granularity : Option Duration
  pub job : Option ℕ

-- An entry with the datapoints that its list has now.
pub record RequestEntry : Type 0 where
  pub report_request_id : ℕ
  pub report_specifier_id : ℕ
  pub report_back_duration : Option Duration
  pub r_ids : List ℕ
  pub granularity : Option Duration

-- A job of the scheduler: a periodic one updates the report of the request that it was made for, a
-- single one that of the request that the variable of its frame names when it runs.
pub data Trigger : Type 0 where
  cron : CronConfig → Trigger
  date : Instant → Trigger

pub data Task : Type 0 where
  update : ℕ → Task
  report_callback : ℕ → Task

pub record Job : Type 0 where
  pub id : ℕ
  pub trigger : Trigger
  pub task : Task

-- What the client sends about requests: the code, the id that it answers, and the pending reports.
pub data Message : Type 0 where
  created_report : ℕ → ℕ → List ℕ → Message
  canceled_report : ℕ → ℕ → Option (List ℕ) → Message

-- What the user's callback for a datapoint returns: one number, or values with their times.
pub data Sample : Type 0 where
  number : ℤ → Sample
  values : List (Instant × ℤ) → Sample

-- The callbacks, by the specifier's id and the datapoint's. One takes no arguments in a report that
-- is incremental, and a period with a sampling interval in a full one.
pub record Callbacks : Type 0 where
  pub sample : ℕ → ℕ → Option (Result Sample)
  pub history : ℕ → ℕ → Option (Instant → Instant → Duration → Result (List (Instant × ℤ)))

-- The jobs of the scheduler that create_report adds have ids of their own.
pub record Client : Type 0 where
  pub reports : List Report
  pub report_requests : List StoredRequest
  pub incomplete_reports : Dict Outgoing
  pub pending_reports : List Outgoing
  pub frames : Dict Frame
  pub next_frame : ℕ
  pub jobs : List Job
  pub next_job : ℕ
  pub sent : List Message

abbrev pub empty_frame : Frame
empty_frame = record { requested_r_ids = []; report_request_id = none }

abbrev pub frame_at : ℕ → Client → Frame
frame_at f s = lookup_or f empty_frame s.frames

abbrev pub set_frame : ℕ → Frame → Client → Client
set_frame f x s = record s { frames = insert f x s.frames }

abbrev pub request_id_is : ℕ → StoredRequest → Bool
request_id_is k q = StoredRequest.report_request_id q == k

abbrev pub specifier_id_is : ℕ → Report → Bool
specifier_id_is k r = Report.report_specifier_id r == k

abbrev pub current : Client → StoredRequest → RequestEntry
current s q = record {
  report_request_id = q.report_request_id;
  report_specifier_id = q.report_specifier_id;
  report_back_duration = q.report_back_duration;
  r_ids = (frame_at q.frame s).requested_r_ids;
  granularity = q.granularity;
}

abbrev pub stored_request : ℕ → Client → Option StoredRequest
stored_request k s = find (request_id_is k) s.report_requests

abbrev pub find_request : ℕ → Client → Option RequestEntry
find_request k s = elim (stored_request k s) [ none ↦ none | some q ↦ some (current s q) ]
