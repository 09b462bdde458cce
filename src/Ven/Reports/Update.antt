-- ===== src/Ven/Reports/Update.antt =====
-- openleadr/client.py: `update_report`, which samples the datapoints of a requested report and
-- queues the report once it is complete.
use Prim.Native.Nat.{◌+◌, ◌*◌, ◌/◌}
use Prim.Native.String.{len, slice, ◌++◌ as ◌<>◌}
use text.Mathlib.Text.{find?}
use openleadr_python.Base.{
  ℕ, String, ◌&&◌, Option, none, some, List, [], ◌∷◌, ◌++◌, map, find, length, ◌==◌, if◌then◌else◌,
}
use openleadr_python.Base.Int.{ℤ, pos, ◌-ℤ◌, ltb_ℤ, pos_part}
use openleadr_python.Base.Exec.{
  Exec, Result, Error, ok, raise, type_error, key_error, attribute_error, for_each,
}
use openleadr_python.Base.Dict.{lookup_or, contains, insert, erase}
use openleadr_python.Event.{Instant, Duration}
use openleadr_python.Event.Objects.{same_text}
use openleadr_python.Event.Period.{min_of, greater}
use openleadr_python.Ven.Reports.{
  DataCollectionMode, full, incremental, Report, ReportInterval, Outgoing, RequestEntry, Sample,
  number, values, Callbacks, Client, specifier_id_is, find_request,
}

-- The name without 'METADATA_', which a name has once at most.
abbrev pub outgoing_name : String → String
outgoing_name s = elim (find? s "METADATA_") [
  | none ↦ s
  | some i ↦ slice s 0 i <> slice s (i + 9) (len s)
]

abbrev pub new_outgoing : ℕ → Report → Outgoing
new_outgoing k report = record {
  report_request_id = k;
  report_specifier_id = report.report_specifier_id;
  report_name = outgoing_name report.report_name;
  intervals = [];
  dtstart = none;
  duration = none;
}

abbrev pub or_key_error {ℓ} : {A : Type ℓ} → Option (Result A) → Result A
or_key_error none = raise key_error
or_key_error (some r) = r

abbrev pub timed : Instant → Sample → List (Instant × ℤ)
timed now (number x) = (now, x) ∷ []
timed now (values l) = l

abbrev pub to_interval : ℕ → Option Duration → Instant × ℤ → ReportInterval
to_interval k d (t, x) = record { dtstart = t; r_id = k; value = x; duration = d }

-- The check of the report's name and of the time to report back comes before each value; without
-- such a time it is an AttributeError.
abbrev pub add_values :
    Outgoing → RequestEntry → ℕ → List (Instant × ℤ) → Exec (List ReportInterval) (Unit {0})
add_values o q k [] acc = (ok tt, acc)
add_values o q k (v ∷ l) acc = elim q.report_back_duration [
  | none ↦
      if same_text o.report_name "TELEMETRY_USAGE"
      then (raise attribute_error, acc)
      else (ok tt, acc ++ map (to_interval k q.granularity) (v ∷ l))
  | some d ↦ (ok tt, acc ++ map (to_interval k q.granularity) (v ∷ l))
]

abbrev pub unless_key_error : Error → List ReportInterval → Result (Unit {0}) × List ReportInterval
unless_key_error key_error acc = (ok tt, acc)
unless_key_error e acc = (raise e, acc)

-- One round of the loop of an incremental report: a KeyError is logged.
unfoldable pub sample_one :
    Callbacks → Instant → Outgoing → RequestEntry → ℕ → Exec (List ReportInterval) (Unit {0})
sample_one c now o q k acc = elim (or_key_error (c.sample q.report_specifier_id k)) [
  | raise e ↦ unless_key_error e acc
  | ok v ↦ add_values o q k (timed now v) acc
]

-- One round of the loop of a full report.
unfoldable pub history_one :
    Callbacks
    → Instant
    → Instant
    → Duration
    → RequestEntry
    → ℕ
    → Exec (List ReportInterval) (Unit {0})
history_one c from to g q k acc = elim (c.history q.report_specifier_id k) [
  | none ↦ (raise key_error, acc)
  | some f ↦ elim (f from to g) [
    | raise e ↦ (raise e, acc)
    | ok l ↦ (ok tt, acc ++ map (to_interval k none) l)
  ]
]

-- The period of a full report ends now; `max` of None is a TypeError.
abbrev pub back_or : Option Duration → Duration → Duration
back_or none g = g
back_or (some d) g = d

unfoldable pub collect :
    Callbacks
    → Instant
    → DataCollectionMode
    → Outgoing
    → RequestEntry
    → Exec (List ReportInterval) (Unit {0})
unfolding sample_one history_one
collect c now incremental o q acc = for_each (sample_one c now o q) q.r_ids acc
collect c now full o q acc = elim q.granularity [
  | none ↦ (raise type_error, acc)
  | some g ↦
      for_each (history_one c (now -ℤ greater (back_or q.report_back_duration g) g) now g q) q.r_ids
        acc
]

-- The report with its intervals, from the earliest of them on.
abbrev pub with_intervals : Report → List ReportInterval → Outgoing → Outgoing
with_intervals report [] o = record o { intervals = [] }
with_intervals report (i ∷ l) o = record o {
  intervals = i ∷ l;
  dtstart = some (min_of i.dtstart (map ReportInterval.dtstart l));
  duration = report.duration;
}

-- A report that is being compiled already is the stored one, so it changes in the store.
abbrev pub touch : ℕ → Outgoing → Client → Client
touch k o s =
    if contains k s.incomplete_reports
    then (record s { incomplete_reports = insert k o s.incomplete_reports })
    else s

-- What an exception leaves: the list of intervals is that of the stored report unless it was empty.
abbrev pub keep_partial : ℕ → Outgoing → List ReportInterval → Client → Client
keep_partial k o acc s = elim o.intervals [
  | [] ↦ s
  | i ∷ l ↦ touch k (record o { intervals = acc }) s
]

abbrev pub send : Outgoing → Client → Client
send o s = record s { pending_reports = s.pending_reports ++ o ∷ [] }

-- `len(r_ids) * int(report_interval / sampling_interval)`
abbrev pub expected_len : RequestEntry → Duration → Duration → ℕ
expected_len q back g = length q.r_ids * (pos_part back / pos_part g)

-- A complete report is taken from the incomplete ones, where a KeyError is due if it is not there.
unfoldable pub accumulate : ℕ → Outgoing → ℕ → Exec Client (Unit {0})
accumulate k o expected s =
    if length o.intervals == expected
    then if contains k s.incomplete_reports
      then (ok tt, send o (record s { incomplete_reports = erase k s.incomplete_reports }))
      else (raise key_error, s)
    else (ok tt, record s { incomplete_reports = insert k o s.incomplete_reports })

unfoldable pub finish : ℕ → RequestEntry → DataCollectionMode → Outgoing → Exec Client (Unit {0})
unfolding accumulate
finish k q full o s = (ok tt, send o s)
finish k q incremental o s = elim q.report_back_duration [
  | none ↦ (ok tt, send o s)
  | some back ↦ elim q.granularity [
    | none ↦ (raise attribute_error, s)
    | some g ↦
        if ltb_ℤ (pos 0) g && ltb_ℤ g back
        then accumulate k o (expected_len q back g) s
        else (ok tt, send o s)
  ]
]

abbrev pub after_collect :
    ℕ
    → RequestEntry
    → Report
    → Outgoing
    → Result (Unit {0}) × List ReportInterval
    → Exec Client (Unit {0})
after_collect k q report o (raise e, acc) s = (raise e, keep_partial k o acc s)
after_collect k q report o (ok _, acc) s =
    finish k q report.data_collection_mode (with_intervals report acc o)
      (touch k (with_intervals report acc o) s)

abbrev pub outgoing_report : ℕ → Report → Client → Outgoing
outgoing_report k report s = lookup_or k (new_outgoing k report) s.incomplete_reports

-- The request and the report have to be known: None has neither members nor attributes.
module _ (c : Callbacks) (now : Instant) (k : ℕ) where
  unfoldable pub with_report : RequestEntry → Option Report → Exec Client (Unit {0})
  unfolding collect finish
  with_report q none s = (raise attribute_error, s)
  with_report q (some report) s =
      let o = outgoing_report k report s in
      after_collect k q report o (collect c now report.data_collection_mode o q o.intervals) s

  abbrev pub with_request : Option RequestEntry → Exec Client (Unit {0})
  with_request none s = (raise type_error, s)
  with_request (some q) s = with_report q (find (specifier_id_is q.report_specifier_id) s.reports) s

  unfoldable pub update_report : Exec Client (Unit {0})
  unfolding with_report
  update_report s = with_request (find_request k s) s
