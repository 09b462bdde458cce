-- ===== src/Ven/Reports/Create.antt =====
-- openleadr/client.py: `create_report`, which takes on the reports that the VTN requests.
pub mod Proper
pub mod Rounds
pub mod Accepts
use openleadr_python.Base.{
  ℕ, String, suc, Bool, true, false, not, ◌&&◌, ◌||◌, Option, none, some, List, [], ◌∷◌, ◌++◌, map,
  find, ◌==◌, if◌then◌else◌,
}
use openleadr_python.Base.Int.{pos, ltb_ℤ, leb_ℤ}
use openleadr_python.Base.Exec.{
  Exec, Result, ok, raise, index_error, key_error, attribute_error, for_each, continue,
}
use openleadr_python.Event.{Instant, Duration}
use openleadr_python.Event.Objects.{same_text}
use openleadr_python.Ven.Cron.{cron_config}
use openleadr_python.Ven.Reports.{
  MeasurementKind, ReportDescription, Report, Frame, StoredRequest, Trigger, cron, date, Task,
  update, report_callback, Job, created_report, Callbacks, Client, frame_at, set_frame,
  specifier_id_is,
}
use openleadr_python.Ven.Reports.Update.{update_report}

pub record SpecifierPayload : Type 0 where
  pub r_id : ℕ
  pub measurement : Option MeasurementKind

-- An `oadrReportRequest`; its report interval is its start.
pub record ReportRequest : Type 0 where
  pub report_request_id : ℕ
  pub report_specifier_id : ℕ
  pub report_back_duration : Option Duration
  pub granularity : Option Duration
  pub specifier_payloads : List SpecifierPayload
  pub report_interval : Option Instant

-- The message has an id of its own, or a response with one.
pub record Payload : Type 0 where
  pub report_requests : List ReportRequest
  pub request_id : Option ℕ
  pub response_request_id : Option ℕ

-- The local variables while the datapoints of one request are collected.
pub record Collected : Type 0 where
  pub granularity : Option Duration
  pub single : Bool
  pub requested_r_ids : List ℕ

abbrev pub same_measurement : MeasurementKind → MeasurementKind → Bool
same_measurement m n = same_text m.description n.description && same_text m.unit n.unit

-- The requested measurement is the offered one; a datapoint without one has no attributes for it.
unfoldable pub measurement_matches : ReportDescription → SpecifierPayload → Result Bool
measurement_matches rd p = elim p.measurement [
  | none ↦ ok true
  | some m ↦ elim rd.measurement [
    | none ↦ raise attribute_error
    | some n ↦ ok (same_measurement m n)
  ]
]

abbrev pub append_r_id : ℕ → Collected → Collected
append_r_id k c = record c { requested_r_ids = c.requested_r_ids ++ k ∷ [] }

abbrev pub is_zero : Duration → Bool
is_zero g = leb_ℤ g (pos 0) && leb_ℤ (pos 0) g

abbrev pub in_range : ReportDescription → Duration → Bool
in_range rd g = leb_ℤ rd.min_period g && leb_ℤ g rd.max_period

-- Without a granularity the slowest sampling rate of this datapoint becomes that of the request.
unfoldable pub collect_at : ReportDescription → ℕ → Collected → Collected
collect_at rd k c = elim c.granularity [
  | none ↦ append_r_id k (record c { granularity = some rd.max_period })
  | some g ↦
      if is_zero g
      then append_r_id k (record c { single = true })
      else if in_range rd g
      then append_r_id k c
      else c
]

abbrev pub r_id_is : ℕ → ReportDescription → Bool
r_id_is k rd = ReportDescription.r_id rd == k

abbrev pub if_matching : Result Bool → Collected → Exec Collected (Unit {0})
if_matching (raise e) d c = (raise e, c)
if_matching (ok true) d c = (ok tt, d)
if_matching (ok false) d c = (ok tt, c)

-- One round of the loop over the specifier's payloads; what does not fit is logged.
unfoldable pub collect_payload :
    List ReportDescription → SpecifierPayload → Exec Collected (Unit {0})
unfolding measurement_matches collect_at
collect_payload descriptions p c = elim (find (r_id_is p.r_id) descriptions) [
  | none ↦ (ok tt, c)
  | some rd ↦ if_matching (measurement_matches rd p) (collect_at rd p.r_id c) c
]

-- The local variables of the loop over the requests, beside the client.
pub record Loop : Type 0 where
  pub client : Client
  pub response_code : ℕ
  pub single : Bool

abbrev pub set_client : Client → Loop → Loop
set_client s l = record l { client = s }

abbrev pub store : StoredRequest → Client → Client
store q s = record s { report_requests = s.report_requests ++ q ∷ [] }

abbrev pub add_job : Trigger → Task → Client → Client
add_job t c s = record s {
  jobs = s.jobs ++ (record { id = s.next_job; trigger = t; task = c }) ∷ [];
  next_job = suc s.next_job;
}

abbrev pub to_stored : ℕ → ReportRequest → Option Duration → Option ℕ → StoredRequest
to_stored f r g job = record {
  report_request_id = r.report_request_id;
  report_specifier_id = r.report_specifier_id;
  report_back_duration = r.report_back_duration;
  frame = f;
  granularity = g;
  job = job;
}

-- `granularity or report_back_duration`
abbrev pub reporting_interval : Option Duration → Duration → Duration
reporting_interval none back = back
reporting_interval (some g) back = if is_zero g then back else g

abbrev pub run_cron : ℕ → ReportRequest → Option Duration → Duration → Client → Client
run_cron f r g back s =
    store (to_stored f r g (some s.next_job)) (
      add_job (cron (cron_config (reporting_interval g back) false)) (update r.report_request_id) s)

-- `names_invalid` tells the identifiers that have 'INVALID' in them.
abbrev pub is_invalid : (ℕ → Bool) → ReportRequest → SpecifierPayload → Bool
is_invalid names_invalid r p = names_invalid r.report_specifier_id || names_invalid p.r_id

abbrev pub set_request_id : ℕ → ℕ → Client → Client
set_request_id f k s = set_frame f (record (frame_at f s) { report_request_id = some k }) s

abbrev pub set_r_ids : ℕ → List ℕ → Client → Client
set_r_ids f l s = set_frame f (record (frame_at f s) { requested_r_ids = l }) s

abbrev pub end_round : Result (Unit {0}) × Client → Loop → Result (Unit {0}) × Loop
end_round (r, s) l = (r, set_client s l)

abbrev pub start_collecting : ℕ → ReportRequest → Loop → Collected
start_collecting f r l = record {
  granularity = r.granularity;
  single = l.single;
  requested_r_ids = (frame_at f l.client).requested_r_ids;
}

module _ (c : Callbacks) (now : Instant) (f : ℕ) where
  abbrev pub run_single : ReportRequest → Option Duration → Exec Client (Unit {0})
  run_single r g s = elim r.report_interval [
    | some t ↦ (ok tt, add_job (date t) (report_callback f) (store (to_stored f r g none) s))
    | none ↦ update_report c now r.report_request_id (store (to_stored f r g none) s)
  ]

  -- Only a request that is not single looks at the time to report back, which None does not have.
  unfoldable pub schedule : ReportRequest → Option Duration → Bool → Exec Client (Unit {0})
  schedule r g true s = run_single r g s
  schedule r g false s = elim r.report_back_duration [
    | none ↦ (raise attribute_error, s)
    | some back ↦ if ltb_ℤ (pos 0) back then (ok tt, run_cron f r g back s) else run_single r g s
  ]

  -- What follows the collecting of the datapoints.
  abbrev pub after_payloads : ReportRequest → Result (Unit {0}) × Collected → Exec Loop (Unit {0})
  after_payloads r (raise e, d) l = (raise e, set_client (set_r_ids f d.requested_r_ids l.client) l)
  after_payloads r (ok _, d) l =
      end_round (schedule r d.granularity d.single (set_r_ids f d.requested_r_ids l.client))
        (record l { single = d.single })

  -- The name of the report is known, or an entry without a job is made for it.
  unfoldable pub accept_request : ReportRequest → Exec Loop (Unit {0})
  unfolding schedule collect_payload
  accept_request r l = elim (find (specifier_id_is r.report_specifier_id) l.client.reports) [
    | none ↦ (
      ok tt,
      set_client
          (store (to_stored f r r.granularity none) (set_request_id f r.report_request_id l.client))
          l,
    )
    | some report ↦
        after_payloads r
          (for_each (collect_payload report.report_descriptions) r.specifier_payloads
            (start_collecting f r l))
          (set_client (set_request_id f r.report_request_id l.client) l)
  ]

  -- One round of the loop over the requests.
  unfoldable pub create_one : (ℕ → Bool) → ReportRequest → Exec Loop (Unit {0})
  unfolding accept_request
  create_one names_invalid r l = elim r.specifier_payloads [
    | [] ↦ (raise index_error, l)
    | p ∷ _ ↦
        if is_invalid names_invalid r p
        then (ok tt, record l { response_code = 452 })
        else accept_request r l
  ]

abbrev pub answered_id : Payload → Result ℕ
answered_id p = elim p.request_id [
  | some k ↦ ok k
  | none ↦ elim p.response_request_id [ some k ↦ ok k | none ↦ raise key_error ]
]

abbrev pub send_message : ℕ → List ℕ → Result ℕ → Exec Client (Unit {0})
send_message code pending (raise e) s = (raise e, s)
send_message code pending (ok k) s =
    (ok tt, record s { sent = s.sent ++ created_report code k pending ∷ [] })

-- The oadrCreatedReport message names every request of the message.
abbrev pub answer_requests : Payload → Result (Unit {0}) × Loop → Result (Unit {0}) × Client
answer_requests p (raise e, l) = (raise e, l.client)
answer_requests p (ok _, l) =
    send_message l.response_code (map ReportRequest.report_request_id p.report_requests)
      (answered_id p) l.client

-- A call has a frame of its own.
abbrev pub open_frame : Client → Loop
open_frame s = record {
  client =
      set_frame s.next_frame (record { requested_r_ids = []; report_request_id = none })
        (record s { next_frame = suc s.next_frame });
  response_code = 200;
  single = false;
}

unfoldable pub create_report : Callbacks → Instant → (ℕ → Bool) → Payload → Exec Client (Unit {0})
unfolding create_one
create_report c now names_invalid p s =
    answer_requests p
      (for_each (create_one c now s.next_frame names_invalid) p.report_requests (open_frame s))
