-- ===== src/Ven/Reports/Create/Accepts.antt =====
-- What a message with requests for reports that the client offers leaves behind.
use openleadr_python.Base.{ℕ, ◌≡◌, refl, ap, sym, subst, ◌∙◌, Bool, List, [], ◌∷◌, ◌++◌, map, All}
use openleadr_python.Base.Exec.{ok}
use openleadr_python.Base.Dict.{lookup_or-insert_self}
use openleadr_python.Event.{Instant}
use openleadr_python.Ven.Reports.{Frame, created_report, Callbacks, Client, empty_frame}
use openleadr_python.Ven.Reports.Create.{
  ReportRequest, Payload, Loop, answered_id, answer_requests, open_frame, create_report,
}
use openleadr_python.Ven.Reports.Create.Proper.{IsProper, all_r_ids, Accepts}
use openleadr_python.Ven.Reports.Create.Rounds.{
  take_all, for_each-create_one, entries-take_all, jobs-take_all, r_ids-take_all, others-take_all,
}

module _ (c : Callbacks) (now : Instant) (names_invalid : ℕ → Bool) where
  abbrev after_all : List ReportRequest → Client → Loop
  after_all rs s = take_all c now s.next_frame names_invalid rs (open_frame s)

  abbrev answered_state : Payload → ℕ → Client → Client
  answered_state p k s = record (after_all p.report_requests s).client {
    sent =
        s.sent ++ created_report 200 k (map ReportRequest.report_request_id p.report_requests) ∷ [];
  }

  create_report-eq :
      (p : Payload) (k : ℕ) (s : Client)
      → All (IsProper names_invalid s.reports) p.report_requests
      → answered_id p ≡ ok k
      → create_report c now names_invalid p s ≡ (ok tt, answered_state p k s)
  unfolding create_report
  create_report-eq p k s h e =
      ap (answer_requests p) (
        for_each-create_one c now s.next_frame names_invalid p.report_requests (open_frame s)
          s.reports refl refl h)
      ∙ rw
          (
            e,
            (others-take_all c now s.next_frame names_invalid p.report_requests (open_frame s)).0,
            (others-take_all c now s.next_frame names_invalid p.report_requests (open_frame s)).1,
          )
          refl

  answered_state-Accepts :
      (p : Payload) (k : ℕ) (s : Client)
      → Accepts p.report_requests k s (ok tt, answered_state p k s)
  answered_state-Accepts p k s = record {
    returns = refl;
    entries = entries-take_all c now s.next_frame names_invalid p.report_requests (open_frame s);
    periodic = jobs-take_all c now s.next_frame names_invalid p.report_requests (open_frame s);
    shared =
        r_ids-take_all c now s.next_frame names_invalid p.report_requests (open_frame s)
        ∙ ap (λ z. Frame.requested_r_ids z ++ all_r_ids p.report_requests)
            (lookup_or-insert_self s.next_frame empty_frame empty_frame s.frames);
    answered = refl;
  }

  -- When the VTN requests only datapoints that the client offers, with the measurements and at the
  -- rates that it offers, to be sampled and reported periodically, create_report succeeds: each
  -- request gets an entry and a periodic job, in their order, and the answer is 200 with the ids of
  -- all of them. The entries of one message all have the datapoints of all its requests, since
  -- they share one list.
  pub create_report-Accepts :
      (p : Payload) (k : ℕ) (s : Client)
      → All (IsProper names_invalid s.reports) p.report_requests
      → answered_id p ≡ ok k
      → Accepts p.report_requests k s (create_report c now names_invalid p s)
  create_report-Accepts p k s h e =
      subst (Accepts p.report_requests k s) (sym (create_report-eq p k s h e))
        (answered_state-Accepts p k s)
