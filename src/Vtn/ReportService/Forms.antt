-- ===== src/Vtn/ReportService/Forms.antt =====
-- The requests that are formed, each with its callbacks.
use openleadr_python.Base.{
  ℕ, suc, ◌≤◌, ◌<◌, ◌≡◌, refl, ap, ◌∙◌, ◌⊎◌, inl, inr, true, false, Option, none, some, List, [],
  ◌∷◌, arith, Bool-cases, All, All-map_of,
}
use openleadr_python.Base.Exec.{
  Exec, Result, ok, raise, type_error, continue, continue-raise, pure, ◌>>=◌, Error,
}
use openleadr_python.Vtn.ReportService.{
  Report, Requested, ReportService, ReportRequest, SpecifierPayload, Intervals, no_intervals,
  lookup_callback, request_all, report_request, form_requests, is_skipped,
}
use openleadr_python.Vtn.ReportService.Callbacks.{Keeps, HasGiven}
use openleadr_python.Vtn.ReportService.Rounds.{request_all-Many}

-- The request is for the report, and each of its datapoints has the callback that a tuple gives
-- for it, under the request's id.
abbrev pub IsRequested : ReportService → Report → List Requested → ReportRequest → Type 0
IsRequested t report r q =
    (q.report_specifier_id ≡ report.report_specifier_id)
    × All (HasGiven t q.report_request_id r) q.specifier_payloads

-- The requests are those for the reports of which something is wanted, in their order.
pub data Forms (t : ReportService)
    : List Report → List (Option (List Requested)) → List ReportRequest → Type 0 where
  no_report : (l : List (Option (List Requested))) → Forms t [] l []
  no_answer : (report : Report) (reports : List Report) → Forms t (report ∷ reports) [] []
  not_wanted :
      (report : Report) (reports : List Report) (l : List (Option (List Requested)))
      (qs : List ReportRequest)
      → Forms t reports l qs
      → Forms t (report ∷ reports) (none ∷ l) qs
  skipped :
      (report : Report) (reports : List Report) (r : List Requested)
      (l : List (Option (List Requested))) (qs : List ReportRequest)
      → is_skipped (some r) ≡ true
      → Forms t reports l qs
      → Forms t (report ∷ reports) (some r ∷ l) qs
  requested :
      (report : Report) (reports : List Report) (r : List Requested)
      (l : List (Option (List Requested))) (q : ReportRequest) (qs : List ReportRequest)
      → is_skipped (some r) ≡ false
      → IsRequested t report r q
      → Forms t reports l qs
      → Forms t (report ∷ reports) (some r ∷ l) (q ∷ qs)

-- New requests have new ids, and leave the callbacks of the former ones alone.
abbrev Later : ReportService → ReportService → Type 0
Later s t =
    (s.next_id ≤ t.next_id)
    × ((j : ℕ × ℕ)
        → j.0 < s.next_id
        → lookup_callback j t.report_callbacks ≡ lookup_callback j s.report_callbacks)

abbrev pub with_new_id : ReportService → ReportService
with_new_id s = record s { next_id = suc s.next_id }

abbrev pub then_form :
    ℕ
    → Report
    → List Report
    → List (Option (List Requested))
    → List SpecifierPayload × Intervals
    → Exec ReportService (List ReportRequest)
then_form k report reports l found =
    form_requests reports l >>= λ rest. pure (report_request k report found ∷ rest)

pub form_requests-eq :
    (report : Report) (reports : List Report) (r : List Requested)
    (l : List (Option (List Requested))) (s : ReportService)
    → is_skipped (some r) ≡ false
    → form_requests (report ∷ reports) (some r ∷ l) s
      ≡ continue
          (request_all s.next_id report r no_intervals (with_new_id s))
          (then_form s.next_id report reports l)
unfolding form_requests
form_requests-eq report reports r l s h = rw h refl

Later-step :
    (r : List Requested) (s t u : ReportService)
    → Keeps s.next_id r (with_new_id s) t
    → Later t u
    → Later s u
Later-step r s t u keeps (more, same) = (
  (let ids = keeps.ids in omega arith),
  λ j below. same j (let ids = keeps.ids in omega arith) ∙ keeps.others j (ground (arith, below)),
)

HasGiven-Later :
    (k : ℕ) (r : List Requested) (t u : ReportService)
    → k < t.next_id
    → Later t u
    → (p : SpecifierPayload) → HasGiven t k r p
    → HasGiven u k r p
HasGiven-Later k r t u below (more, same) p (c, e, g) = (c, same (k, p.r_id) below ∙ e, g)

abbrev pub Formed :
    List Report
    → List (Option (List Requested))
    → ReportService
    → Result (List ReportRequest) × ReportService
    → Type 0
Formed reports l s x =
    ((e : Error) × (x.0 ≡ raise e))
    ⊎ ((qs : List ReportRequest) × (t : ReportService) × (x ≡ (ok qs, t))
        × Forms t reports l qs
        × Later s t)

skipped-Formed :
    (report : Report) (reports : List Report) (r : List Requested)
    (l : List (Option (List Requested))) (s : ReportService)
    (x : Result (List ReportRequest) × ReportService)
    → is_skipped (some r) ≡ true
    → Formed reports l s x
    → Formed (report ∷ reports) (some r ∷ l) s x
skipped-Formed report reports r l s x k (inl h) = inl h
skipped-Formed report reports r l s x k (inr (qs, t, w, forms, later)) =
    inr (qs, t, w, skipped report reports r l qs k forms, later)

not_wanted-Formed :
    (report : Report) (reports : List Report) (l : List (Option (List Requested)))
    (s : ReportService) (x : Result (List ReportRequest) × ReportService)
    → Formed reports l s x
    → Formed (report ∷ reports) (none ∷ l) s x
not_wanted-Formed report reports l s x (inl h) = inl h
not_wanted-Formed report reports l s x (inr (qs, t, w, forms, later)) =
    inr (qs, t, w, not_wanted report reports l qs forms, later)

pub form_requests-Formed :
    (reports : List Report) (l : List (Option (List Requested))) (s : ReportService)
    → Formed reports l s (form_requests reports l s)
unfolding form_requests
form_requests-Formed [] l s = inr ([], s, refl, no_report l, (omega arith, λ j h. refl))
form_requests-Formed (report ∷ reports) [] s =
    inr ([], s, refl, no_answer report reports, (omega arith, λ j h. refl))
form_requests-Formed (report ∷ reports) (none ∷ l) s =
    not_wanted-Formed report reports l s _ (form_requests-Formed reports l s)
form_requests-Formed (report ∷ reports) (some r ∷ l) s = elim (Bool-cases (is_skipped (some r))) [
  | inl k ↦ rw k (skipped-Formed report reports r l s _ k (form_requests-Formed reports l s))
  | inr k ↦ elim (request_all-Many s.next_id report r no_intervals (with_new_id s)) [
    | inl e ↦ inl (
      type_error,
      ap (λ x. x.0) (form_requests-eq report reports r l s k)
          ∙ continue-raise (request_all s.next_id report r no_intervals (with_new_id s))
              (then_form s.next_id report reports l) type_error e,
    )
    | inr (ps, i, t, q, has, keeps, _) ↦ elim (form_requests-Formed reports l t) [
      | inl (e, f) ↦ inl (
        e,
        ap (λ x. x.0) (form_requests-eq report reports r l s k)
            ∙ ap (λ x. (continue x (then_form s.next_id report reports l)).0) q
            ∙ continue-raise (form_requests reports l t)
                (λ rest. pure (report_request s.next_id report (ps, i) ∷ rest)) e f,
      )
      | inr (qs, u, w, forms, later) ↦ inr (
        report_request s.next_id report (ps, i) ∷ qs,
        u,
        form_requests-eq report reports r l s k
            ∙ ap (λ x. continue x (then_form s.next_id report reports l)) q
            ∙ ap (λ x. continue x (λ rest. pure (report_request s.next_id report (ps, i) ∷ rest)))
                w,
        requested report reports r l (report_request s.next_id report (ps, i)) qs k
            (
              refl,
              All-map_of (HasGiven t s.next_id r) (HasGiven u s.next_id r) ps
                  (HasGiven-Later s.next_id r t u (let ids = keeps.ids in omega arith) later) has,
            )
            forms,
        Later-step r s t u keeps later,
      )
    ]
  ]
]
