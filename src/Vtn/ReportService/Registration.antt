-- ===== src/Vtn/ReportService/Registration.antt =====
-- openleadr/service/report_service.py: `register_report`, from the user's handler to the requests.
use Prim.Native.String.{len, slice}
use openleadr_python.Base.{ℕ, String, Option, none, some, List, [], ◌∷◌, ◌++◌, map, if◌then◌else◌}
use openleadr_python.Base.Exec.{
  Exec, Result, ok, raise, type_error, pure, lift, modify, ◌>>=◌, ◌>>◌,
}
use openleadr_python.Base.Dict.{lookup_or, insert}
use openleadr_python.Event.{Duration}
use openleadr_python.Event.Objects.{same_text}
use openleadr_python.Vtn.ReportService.{
  ReportDescription, Report, text, Requested, not_tuple, tuple, Returned, not_list, list,
  validate_report_request_tuples, ReportRequest, ReportService, form_requests,
}

-- What the handler is asked about one datapoint; without a measurement it is 'Status'.
pub record ReportArguments : Type 0 where
  pub ven_id : ℕ
  pub resource_id : Option ℕ
  pub measurement : Option ℕ
  pub min_sampling_interval : Option Duration
  pub max_sampling_interval : Option Duration

-- The handler `on_register_report`: it is asked about each datapoint if its parameters have the
-- wanted names, and about each report otherwise.
pub data Handler : Type 0 where
  compact : (ReportArguments → Requested) → Handler
  full : (Report → Returned) → Handler

abbrev pub arguments_for : ℕ → ReportDescription → Option ℕ → ReportArguments
arguments_for ven_id d m = record {
  ven_id = ven_id;
  resource_id = d.resource_id;
  measurement = m;
  min_sampling_interval = d.min_period;
  max_sampling_interval = d.max_period;
}

-- The tuples of the handler's results, with the `r_id` in front.
abbrev pub prepend : ℕ → Requested → List Requested → List Requested
prepend r_id (tuple l) rest = tuple (text r_id ∷ l) ∷ rest
prepend r_id _ rest = rest

-- The compact mode for a report on status, and for one on usage, where a datapoint without a
-- measurement is a TypeError.
unfoldable pub ask_status :
    (ReportArguments → Requested) → ℕ → List ReportDescription → List Requested
ask_status f ven_id [] = []
ask_status f ven_id (d ∷ l) =
    prepend d.r_id (f (arguments_for ven_id d none)) (ask_status f ven_id l)

unfoldable pub ask_usage :
    (ReportArguments → Requested) → ℕ → List ReportDescription → Result (List Requested)
ask_usage f ven_id [] = ok []
ask_usage f ven_id (d ∷ l) =
    let rest = ask_usage f ven_id l in
    elim d.measurement [
      | none ↦ raise type_error
      | some m ↦ elim rest [
        | raise e ↦ raise e
        | ok r ↦ ok (prepend d.r_id (f (arguments_for ven_id d (some m))) r)
      ]
    ]

abbrev pub only_tuples : Requested → Requested
only_tuples not_tuple = Requested.nothing
only_tuples r = r

abbrev pub checked : Returned → Option (List Requested)
checked Returned.nothing = none
checked not_list = none
checked (list l) = some (map only_tuples l)

abbrev pub ok_some : Result (List Requested) → Result (Option (List Requested))
ok_some (raise e) = raise e
ok_some (ok l) = ok (some l)

-- What is requested of one report, after the checks on the handler's result. Reports on history
-- and those of unknown kinds are not requested.
unfoldable pub offer : Handler → ℕ → Report → Result (Option (List Requested))
unfolding ask_status ask_usage
offer h ven_id report =
    if same_text report.report_name "METADATA_TELEMETRY_STATUS"
    then elim h [
      | compact f ↦ ok (some (ask_status f ven_id report.report_descriptions))
      | full f ↦ ok (checked (f report))
    ]
    else if same_text report.report_name "METADATA_TELEMETRY_USAGE"
    then elim h [
      | compact f ↦ ok_some (ask_usage f ven_id report.report_descriptions)
      | full f ↦ ok (checked (f report))
    ]
    else ok none

-- `report_name[9:]`, of a name in ASCII
abbrev pub without_prefix : String → String
without_prefix s = slice s 9 (len s)

abbrev pub register : ℕ → Report → ReportService → ReportService
register ven_id report s = record s {
  registered_reports =
      insert ven_id
        (lookup_or ven_id [] s.registered_reports
          ++ (record report { report_name = without_prefix report.report_name }) ∷ [])
        s.registered_reports;
}

unfoldable pub offer_all :
    Handler → ℕ → List Report → Exec ReportService (List (Option (List Requested)))
unfolding offer
offer_all h ven_id [] = pure []
offer_all h ven_id (report ∷ l) = do
  modify (register ven_id report)
  r ← lift (offer h ven_id report)
  rest ← offer_all h ven_id l
  pure (r ∷ rest)

abbrev pub store_requests : ℕ → List ReportRequest → ReportService → ReportService
store_requests ven_id l s = record s { requested_reports = insert ven_id l s.requested_reports }

unfoldable pub register_report :
    Handler → ℕ → Option (List Report) → Exec ReportService (List ReportRequest)
unfolding offer_all form_requests validate_report_request_tuples
register_report h ven_id none = pure []
register_report h ven_id (some reports) = do
  offered ← offer_all h ven_id reports
  requests ← form_requests reports (validate_report_request_tuples offered)
  modify (store_requests ven_id requests)
  pure requests
