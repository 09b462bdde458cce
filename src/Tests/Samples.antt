-- ===== src/Tests/Samples.antt =====
-- The theorems on the client's reports at concrete inputs.
use openleadr_python.Base.{ℕ, ◌≡◌, refl, none, some, List, arith, ◌≢◌, [], ◌∷◌}
use openleadr_python.Base.Int.{ℤ, pos}
use openleadr_python.Base.Exec.{ok, raise, key_error}
use openleadr_python.Event.{Instant}
use openleadr_python.Ven.Reports.{
  Report, ReportDescription, ReportInterval, RequestEntry, StoredRequest, Callbacks, number, values,
  Client, incremental,
}
use openleadr_python.Ven.Transport.{Performed, nothing, no_message}
use openleadr_python.Ven.Reports.{Outgoing}
use openleadr_python.Ven.Reports.Queue.{Vtn, rounds, rounds_drain}
use openleadr_python.Ven.Reports.Update.{
  new_outgoing, update_report, collect, sample_one, expected_len, outgoing_report, to_interval,
}
use openleadr_python.Ven.Reports.Complete.{
  IsFilled, SendsComplete, update_report-SendsComplete, update_report_first,
}

abbrev pub datapoint : ReportDescription
datapoint = record {
  r_id = 1;
  measurement = none;
  min_period = pos 10000000;
  max_period = pos 60000000;
}

abbrev pub report : Report
report = record {
  report_specifier_id = 40;
  report_name = "METADATA_TELEMETRY_USAGE";
  duration = some (pos 3600000000);
  data_collection_mode = incremental;
  report_descriptions = datapoint ∷ [];
}

-- One datapoint, to be sampled each ten seconds and reported each thirty.
abbrev entry : RequestEntry
entry = record {
  report_request_id = 100;
  report_specifier_id = 40;
  report_back_duration = some (pos 30000000);
  r_ids = 1 ∷ [];
  granularity = some (pos 10000000);
}

abbrev pub stored : StoredRequest
stored = record {
  report_request_id = 100;
  report_specifier_id = 40;
  report_back_duration = some (pos 30000000);
  frame = 0;
  granularity = some (pos 10000000);
  job = none;
}

abbrev pub new_client : Client
new_client = record {
  reports = report ∷ [];
  report_requests = [];
  incomplete_reports = [];
  pending_reports = [];
  frames = [];
  next_frame = 0;
  jobs = [];
  next_job = 0;
  sent = [];
}

abbrev pub client : Client
client = record new_client {
  report_requests = stored ∷ [];
  frames = (0, record { requested_r_ids = 1 ∷ []; report_request_id = some 100 }) ∷ [];
  next_frame = 1;
}

client-IsFilled : IsFilled 100 client entry report (pos 30000000) (pos 10000000)
client-IsFilled = record {
  request = refl;
  offered = refl;
  mode = refl;
  back_duration = refl;
  sampling = refl;
  samples = refl;
}

-- A callback with one value at a time, and one with three.
abbrev pub single : Callbacks
single = record { sample = λ _ _. some (ok (number (pos 7))); history = λ _ _. none }

abbrev triple : Callbacks
triple = record {
  sample = λ _ _. some (ok (values ((pos 1, pos 7) ∷ (pos 2, pos 8) ∷ (pos 3, pos 9) ∷ [])));
  history = λ _ _. none;
}

abbrev sampled : Instant → ℤ → ReportInterval
sampled t x = to_interval 1 (some (pos 10000000)) (t, x)

single_sample :
    collect single
      (pos 5)
      incremental
      (outgoing_report 100 report client)
      entry
      (outgoing_report 100 report client).intervals
    ≡ (ok tt, sampled (pos 5) (pos 7) ∷ [])
single_sample = unfold collect sample_one in refl

triple_sample :
    collect triple
      (pos 5)
      incremental
      (outgoing_report 100 report client)
      entry
      (outgoing_report 100 report client).intervals
    ≡ (ok tt, sampled (pos 1) (pos 7) ∷ sampled (pos 2) (pos 8) ∷ sampled (pos 3) (pos 9) ∷ [])
triple_sample = unfold collect sample_one in refl

update_report-SendsComplete_example :
    SendsComplete
      (expected_len entry (pos 30000000) (pos 10000000))
      client
      (update_report single (pos 5) 100 client).1
update_report-SendsComplete_example =
    update_report-SendsComplete single (pos 5) 100 client entry report (pos 30000000) (pos 10000000)
      client-IsFilled

update_report_first_example : update_report triple (pos 5) 100 client ≡ (raise key_error, client)
update_report_first_example =
    update_report_first triple (pos 5) 100 client entry report (pos 30000000) (pos 10000000)
      client-IsFilled
      (sampled (pos 1) (pos 7) ∷ sampled (pos 2) (pos 8) ∷ sampled (pos 3) (pos 9) ∷ []) refl
      triple_sample refl

abbrev silent : Vtn
silent _ = no_message

abbrev queued : List Outgoing
queued = new_outgoing 100 report ∷ new_outgoing 101 report ∷ []

not_nothing : ◌≢◌ {A = Performed ℕ} no_message nothing
not_nothing h = absurd (ground (arith, h))

rounds_drain_example :
    rounds silent 2 (record { pending_reports = queued; updates = [] })
    ≡ (ok tt, record { pending_reports = []; updates = queued })
rounds_drain_example = rounds_drain silent queued [] (λ _. not_nothing)
