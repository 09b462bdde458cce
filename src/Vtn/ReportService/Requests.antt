-- ===== src/Vtn/ReportService/Requests.antt =====
-- What the server requests of the reports that a VEN offers.
use openleadr_python.Base.{ℕ, ◌≡◌, ap, ◌∙◌, inl, inr, true, false, Option, some, List, ◌∷◌, any}
use openleadr_python.Base.Exec.{
  Exec, Result, ok, raise, type_error, continue-raise, pure, modify, ◌>>=◌, ◌>>◌,
}
use openleadr_python.Base.Dict.{lookup}
use openleadr_python.Vtn.ReportService.{
  Report, Requested, ReportService, ReportRequest, no_intervals, request_all, form_requests,
  is_nothing, is_skipped, validate_report_request_tuples,
}
use openleadr_python.Vtn.ReportService.Registration.{store_requests, offer_all, Handler}
use openleadr_python.Vtn.ReportService.Rounds.{Many, request_all-Many}
use openleadr_python.Vtn.ReportService.Forms.{Forms, form_requests-eq, then_form, with_new_id}

-- If a handler wants some of the datapoints of a report but not all, and its result has a None for
-- the others, forming the request is a TypeError, whatever the other tuples are.
pub form_requests_mixed :
    (report : Report) (reports : List Report) (r : List Requested)
    (l : List (Option (List Requested))) (s : ReportService)
    → is_skipped (some r) ≡ false
    → any is_nothing r ≡ true
    → (form_requests (report ∷ reports) (some r ∷ l) s).0 ≡ raise type_error
form_requests_mixed report reports r l s wanted mixed =
    ap (λ x. x.0) (form_requests-eq report reports r l s wanted)
    ∙ continue-raise (request_all s.next_id report r no_intervals (with_new_id s))
        (then_form s.next_id report reports l) type_error
        (fails (request_all-Many s.next_id report r no_intervals (with_new_id s)))
  where
    fails :
        Many s.next_id report r
          (with_new_id s)
          (request_all s.next_id report r no_intervals (with_new_id s))
        → (request_all s.next_id report r no_intervals (with_new_id s)).0 ≡ raise type_error
    fails (inl e) = e
    fails (inr (ps, i, t, q, has, keeps, unmixed)) = absurd (cc (mixed, unmixed))

abbrev then_store :
    ℕ → List Report → List (Option (List Requested)) → Exec ReportService (List ReportRequest)
then_store v reports offered =
    form_requests reports (validate_report_request_tuples offered) >>= λ requests.
    modify (store_requests v requests) >> pure requests

-- What a successful registration of reports leaves behind, by what the handler has answered.
abbrev pub Registers :
    Handler → ℕ → List Report → ReportService → Result (List ReportRequest) × ReportService → Type 0
Registers h v reports s (raise e, t) = Unit
Registers h v reports s (ok qs, t) =
    (lookup v t.requested_reports ≡ some qs)
    × (offered : List (Option (List Requested))) × ((offer_all h v reports s).0 ≡ ok offered)
    × Forms t reports (validate_report_request_tuples offered) qs

abbrev then_keep : ℕ → List ReportRequest → Exec ReportService (List ReportRequest)
then_keep v requests = modify (store_requests v requests) >> pure requests
