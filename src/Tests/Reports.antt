-- ===== src/Tests/Reports.antt =====
-- The theorems on reports at concrete inputs.
use openleadr_python.Base.{ℕ, ◌≡◌, refl, none, some, List, [], ◌∷◌}
use openleadr_python.Base.Int.{pos}
use openleadr_python.Base.Exec.{raise, type_error}
use openleadr_python.Vtn.ReportService.{
  ReportDescription, Report, Requested, tuple, text, callable, delta, ReportService, form_requests,
  ReportInterval,
}
use openleadr_python.Vtn.ReportService.Registration.{Handler, compact}
use openleadr_python.Vtn.ReportService.Requests.{form_requests_mixed}

abbrev datapoint : ℕ → ReportDescription
datapoint k = record {
  r_id = k;
  resource_id = none;
  reading_type = 0;
  measurement = some 3;
  min_period = some (pos 1000000);
  max_period = some (pos 60000000);
}

abbrev usage : Report
usage = record {
  report_name = "METADATA_TELEMETRY_USAGE";
  report_specifier_id = 40;
  report_descriptions = datapoint 1 ∷ datapoint 2 ∷ [];
}

-- A handler that wants every datapoint, each ten seconds.
abbrev wants_all : Handler
wants_all = compact (λ _. tuple (callable 8 ∷ delta (pos 10000000) ∷ []))

abbrev service : ReportService
service = record {
  report_callbacks = [];
  registered_reports = [];
  requested_reports = [];
  created_reports = [];
  next_id = 100;
  delivered = [];
}

abbrev half : List Requested
half = tuple (text 1 ∷ callable 8 ∷ delta (pos 10000000) ∷ []) ∷ Requested.nothing ∷ []

form_requests_mixed_example :
    (form_requests (usage ∷ []) (some half ∷ []) service).0 ≡ raise type_error
form_requests_mixed_example = form_requests_mixed usage [] half [] service refl refl

abbrev values : List ReportInterval
values =
    (record { dtstart = pos 0; r_id = 1; value = pos 5 })
    ∷ (record { dtstart = pos 1; r_id = 2; value = pos 6 })
    ∷ (record { dtstart = pos 2; r_id = 1; value = pos 7 })
    ∷ []
