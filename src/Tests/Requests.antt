-- ===== src/Tests/Requests.antt =====
-- The theorems on requests for reports at concrete inputs.
use openleadr_python.Base.{ℕ, arith, refl, true, false, none, some, [], ◌∷◌}
use openleadr_python.Base.Int.{pos}
use openleadr_python.Ven.Cron.{cron_config, IsSchedule, cron_config-IsSchedule}
use openleadr_python.Ven.Reports.Create.{ReportRequest, Payload, create_report, measurement_matches}
use openleadr_python.Ven.Reports.Create.Proper.{IsProper, Accepts}
use openleadr_python.Ven.Reports.Create.Accepts.{create_report-Accepts}
use openleadr_python.Ven.Reports.Cancel.{Payload as Cancellation}
use openleadr_python.Tests.Samples.{report, datapoint, single, new_client}

abbrev request : ℕ → ReportRequest
request k = record {
  report_request_id = k;
  report_specifier_id = 40;
  report_back_duration = some (pos 30000000);
  granularity = some (pos 10000000);
  specifier_payloads = (record { r_id = 1; measurement = none }) ∷ [];
  report_interval = none;
}

request-IsProper : (k : ℕ) → IsProper (λ _. false) new_client.reports (request k)
unfolding measurement_matches
request-IsProper k = record {
  report = report;
  first = record { r_id = 1; measurement = none };
  others = [];
  rate = pos 10000000;
  back = pos 30000000;
  payloads = refl;
  valid = refl;
  offered = refl;
  granularity = refl;
  periodic = refl;
  reported = refl;
  positive = refl;
  datapoints =
      (record { description = datapoint; offered = refl; measured = refl; sampled = refl }, tt);
}

abbrev two_requests : Payload
two_requests = record {
  report_requests = request 100 ∷ request 101 ∷ [];
  request_id = none;
  response_request_id = some 9;
}

create_report-Accepts_example :
    Accepts two_requests.report_requests 9 new_client
      (create_report single (pos 5) (λ _. false) two_requests new_client)
create_report-Accepts_example =
    create_report-Accepts single (pos 5) (λ _. false) two_requests 9 new_client
      (request-IsProper 100, (request-IsProper 101, tt)) refl

abbrev cancellation : Cancellation
cancellation = record { report_request_id = 100; request_id = 9; report_to_follow = true }

cron_config-IsSchedule_example : IsSchedule (cron_config (pos 90000000) true)
cron_config-IsSchedule_example = cron_config-IsSchedule 90000000 true (omega arith)
