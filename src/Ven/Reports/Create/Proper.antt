-- ===== src/Ven/Reports/Create/Proper.antt =====
-- Requests for what the client offers, and what they become.
use openleadr_python.Base.{
  ℕ, suc, ◌≡◌, Bool, true, false, none, some, List, [], ◌∷◌, ◌++◌, map, find, All,
}
use openleadr_python.Base.Int.{pos, ltb_ℤ}
use openleadr_python.Base.Exec.{Result, ok}
use openleadr_python.Event.{Duration}
use openleadr_python.Ven.Cron.{cron_config}
use openleadr_python.Ven.Reports.{
  ReportDescription, Report, StoredRequest, cron, update, Job, created_report, Client, frame_at,
  specifier_id_is,
}
use openleadr_python.Ven.Reports.Create.{
  SpecifierPayload, ReportRequest, measurement_matches, is_zero, in_range, r_id_is, to_stored,
  is_invalid,
}

-- The datapoint is offered, with the requested measurement, at this rate.
pub record Fits (descriptions : List ReportDescription) (g : Duration) (p : SpecifierPayload)
    : Type 0 where
  pub description : ReportDescription
  pub offered : find (r_id_is p.r_id) descriptions ≡ some description
  pub measured : measurement_matches description p ≡ ok true
  pub sampled : in_range description g ≡ true

-- A request for datapoints of an offered report, to be sampled and reported periodically.
pub record IsProper (names_invalid : ℕ → Bool) (reports : List Report) (r : ReportRequest)
    : Type 0 where
  pub report : Report
  pub first : SpecifierPayload
  pub others : List SpecifierPayload
  pub rate : Duration
  pub back : Duration
  pub payloads : r.specifier_payloads ≡ first ∷ others
  pub valid : is_invalid names_invalid r first ≡ false
  pub offered : find (specifier_id_is r.report_specifier_id) reports ≡ some report
  pub granularity : r.granularity ≡ some rate
  pub periodic : is_zero rate ≡ false
  pub reported : r.report_back_duration ≡ some back
  pub positive : ltb_ℤ (pos 0) back ≡ true
  pub datapoints : All (Fits report.report_descriptions rate) r.specifier_payloads

-- What the requests become: an entry and a periodic job for each, in their order, the entries all
-- with the datapoints of the same frame, and the datapoints of all of them.
abbrev pub new_entries : ℕ → ℕ → List ReportRequest → List StoredRequest
new_entries f j [] = []
new_entries f j (r ∷ rs) =
    to_stored f r (ReportRequest.granularity r) (some j) ∷ new_entries f (suc j) rs

abbrev pub rate_of : ReportRequest → Duration
rate_of r = elim r.granularity [ none ↦ pos 0 | some g ↦ g ]

abbrev pub new_jobs : ℕ → List ReportRequest → List Job
new_jobs j [] = []
new_jobs j (r ∷ rs) =
    (record {
      id = j;
      trigger = cron (cron_config (rate_of r) false);
      task = update (ReportRequest.report_request_id r);
    })
    ∷ new_jobs (suc j) rs

abbrev pub r_ids_of : ReportRequest → List ℕ
r_ids_of r = map SpecifierPayload.r_id r.specifier_payloads

abbrev pub all_r_ids : List ReportRequest → List ℕ
all_r_ids [] = []
all_r_ids (r ∷ rs) = r_ids_of r ++ all_r_ids rs

pub record Accepts (rs : List ReportRequest) (k : ℕ) (s : Client) (t : Result (Unit {0}) × Client)
    : Type 0 where
  pub returns : t.0 ≡ ok tt
  pub entries : t.1.report_requests ≡ s.report_requests ++ new_entries s.next_frame s.next_job rs
  pub periodic : t.1.jobs ≡ s.jobs ++ new_jobs s.next_job rs
  pub shared : (frame_at s.next_frame t.1).requested_r_ids ≡ all_r_ids rs
  pub answered :
      t.1.sent ≡ s.sent ++ created_report 200 k (map ReportRequest.report_request_id rs) ∷ []
