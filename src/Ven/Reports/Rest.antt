-- ===== src/Ven/Reports/Rest.antt =====
-- What `update_report` leaves alone: all but the reports being filled and those to be sent.
use openleadr_python.Base.{ℕ, ◌≡◌, refl, ◌∙◌, Option, none, some, List, [], find, arith}
use openleadr_python.Base.Exec.{Result, ok, raise}
use openleadr_python.Event.{Instant}
use openleadr_python.Ven.Reports.{
  DataCollectionMode, full, incremental, Report, ReportInterval, Outgoing, RequestEntry, Callbacks,
  Client, specifier_id_is, find_request,
}
use openleadr_python.Ven.Reports.Update.{
  collect, with_intervals, touch, keep_partial, accumulate, finish, after_collect, outgoing_report,
  with_report, with_request, update_report,
}

abbrev pub rest : Client → Client
rest s = record s { incomplete_reports = []; pending_reports = [] }

rest-touch : (k : ℕ) (o : Outgoing) (s : Client) → rest (touch k o s) ≡ rest s
rest-touch k o s = ground arith

rest-keep_partial :
    (k : ℕ) (o : Outgoing) (acc : List ReportInterval) (s : Client)
    → rest (keep_partial k o acc s) ≡ rest s
rest-keep_partial k o acc s = ground arith

rest-finish :
    (k : ℕ) (q : RequestEntry) (m : DataCollectionMode) (o : Outgoing) (s : Client)
    → rest (finish k q m o s).1 ≡ rest s
unfolding finish accumulate
rest-finish k q full o s = refl
rest-finish k q incremental o s = ground arith

rest-after_collect :
    (k : ℕ) (q : RequestEntry) (report : Report) (o : Outgoing)
    (x : Result (Unit {0}) × List ReportInterval) (s : Client)
    → rest (after_collect k q report o x s).1 ≡ rest s
rest-after_collect k q report o (raise e, acc) s = rest-keep_partial k o acc s
rest-after_collect k q report o (ok u, acc) s =
    rest-finish k q report.data_collection_mode (with_intervals report acc o)
      (touch k (with_intervals report acc o) s)
    ∙ rest-touch k (with_intervals report acc o) s

module _ (c : Callbacks) (now : Instant) (k : ℕ) where
  rest-with_report :
      (q : RequestEntry) (o : Option Report) (s : Client)
      → rest (with_report c now k q o s).1 ≡ rest s
  unfolding with_report
  rest-with_report q none s = refl
  rest-with_report q (some report) s =
      rest-after_collect k q report (outgoing_report k report s)
        (collect c now report.data_collection_mode (outgoing_report k report s) q
          (outgoing_report k report s).intervals)
        s

  rest-with_request :
      (o : Option RequestEntry) (s : Client) → rest (with_request c now k o s).1 ≡ rest s
  rest-with_request none s = refl
  rest-with_request (some q) s =
      rest-with_report q (find (specifier_id_is q.report_specifier_id) s.reports) s

  pub rest-update_report : (s : Client) → rest (update_report c now k s).1 ≡ rest s
  unfolding update_report
  rest-update_report s = rest-with_request (find_request k s) s
