-- ===== src/Vtn/ReportService/Updates.antt =====
-- openleadr/service/report_service.py: `update_report` and `on_created_report`, with `group_by` of
-- openleadr/utils.py.
use openleadr_python.Base.{
  ℕ, Bool, true, false, Option, none, some, List, [], ◌∷◌, ◌++◌, map, if◌then◌else◌,
}
use openleadr_python.Base.Int.{ℤ}
use openleadr_python.Base.Exec.{Exec, ok, raise, key_error}
use openleadr_python.Base.Dict.{Dict, lookup, lookup_or, insert}
use openleadr_python.Event.{Instant}
use openleadr_python.Vtn.ReportService.{ReportInterval, ReportService, lookup_callback}

-- `utils.group_by(…, 'report_payload.r_id')`
unfoldable pub group_into :
    Dict (List ReportInterval) → List ReportInterval → Dict (List ReportInterval)
group_into d [] = d
group_into d (i ∷ l) = group_into (insert i.r_id (lookup_or i.r_id [] d ++ i ∷ []) d) l

abbrev pub value_of : ReportInterval → Instant × ℤ
value_of i = (i.dtstart, i.value)

abbrev pub deliver : ℕ → List ReportInterval → ReportService → ReportService
deliver c l s = record s { delivered = s.delivered ++ (c, map value_of l) ∷ [] }

-- The loop over the groups of one report.
unfoldable pub deliver_groups : ℕ → Dict (List ReportInterval) → ReportService → ReportService
deliver_groups k [] s = s
deliver_groups k ((r_id, l) ∷ d) s =
    deliver_groups k d
      (elim (lookup_callback (k, r_id) s.report_callbacks) [ none ↦ s | some c ↦ deliver c l s ])

-- A report of values: the request that it answers, and its intervals.
pub record UpdateReport : Type 0 where
  pub report_request_id : ℕ
  pub intervals : List ReportInterval

abbrev pub has_callbacks : List ((ℕ × ℕ) × ℕ) → Bool
has_callbacks [] = false
has_callbacks (x ∷ l) = true

-- With no callbacks at all, a report goes to the user's `on_update_report` handler, which sees
-- nothing of the service.
unfoldable pub update_report : List UpdateReport → ReportService → ReportService
unfolding group_into deliver_groups
update_report [] s = s
update_report (r ∷ l) s = update_report l (
    if has_callbacks s.report_callbacks
    then deliver_groups r.report_request_id (group_into [] r.intervals) s
    else s)

-- `on_created_report`: the ids of the pending reports are noted. What it logs of the requested
-- reports needs an entry for the VEN.
unfoldable pub on_created_report : ℕ → Option (List ℕ) → Exec ReportService (Unit {0})
on_created_report ven_id pending s =
    let known = lookup_or ven_id [] s.created_reports in
    let noted = (record s {
      created_reports =
          insert ven_id (known ++ elim pending [ none ↦ [] | some l ↦ l ]) s.created_reports;
    }) in
    elim (lookup ven_id s.requested_reports) [
      | none ↦ (raise key_error, noted)
      | some _ ↦ (ok tt, noted)
    ]
