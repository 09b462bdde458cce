-- ===== src/Ven/Reports/Complete.antt =====
-- When a report that is filled over time is sent.
use openleadr_python.Base.{
  ℕ, ◌≡◌, ◌≢◌, refl, ap, sym, subst, ◌∙◌, ◌⊎◌, inl, inr, true, ◌&&◌, none, some, List, [], ◌∷◌,
  ◌++◌, find, length, arith, Bool-cases, ◌==◌, ==_iff,
}
use openleadr_python.Base.Int.{pos, ltb_ℤ}
use openleadr_python.Base.Exec.{Result, ok, raise, key_error}
use openleadr_python.Base.Dict.{lookup, contains, lookup-insert_self}
use openleadr_python.Event.{Instant, Duration}
use openleadr_python.Ven.Reports.{
  Report, ReportInterval, Outgoing, RequestEntry, Callbacks, Client, incremental, specifier_id_is,
  find_request,
}
use openleadr_python.Ven.Reports.Update.{
  collect, with_intervals, touch, keep_partial, expected_len, accumulate, finish, after_collect,
  outgoing_report, with_report, with_request, update_report,
}

-- The client knows the request and its report, which is filled over time: it is incremental, and
-- the time to report back is longer than the time between samples.
pub record IsFilled (k : ℕ) (s : Client) (q : RequestEntry) (report : Report) (back g : Duration)
    : Type 0 where
  pub request : find_request k s ≡ some q
  pub offered : find (specifier_id_is q.report_specifier_id) s.reports ≡ some report
  pub mode : report.data_collection_mode ≡ incremental
  pub back_duration : q.report_back_duration ≡ some back
  pub sampling : q.granularity ≡ some g
  pub samples : (ltb_ℤ (pos 0) g && ltb_ℤ g back) ≡ true

-- Nothing is queued, or one report with all its values.
abbrev pub SendsComplete : ℕ → Client → Client → Type 0
SendsComplete n s t =
    (t.pending_reports ≡ s.pending_reports)
    ⊎ ((o : Outgoing) × (t.pending_reports ≡ s.pending_reports ++ o ∷ [])
        × (length o.intervals ≡ n))

accumulate-SendsComplete :
    (k : ℕ) (o : Outgoing) (n : ℕ) (s : Client) → SendsComplete n s (accumulate k o n s).1
unfolding accumulate
accumulate-SendsComplete k o n s = elim (Bool-cases (length o.intervals == n)) [
  | inr e ↦ inl (rw (accumulate, e) refl)
  | inl e ↦ elim (Bool-cases (contains k s.incomplete_reports)) [
    | inl f ↦ inr (o, rw (accumulate, e, f) refl, (==_iff (length o.intervals) n).0 e)
    | inr f ↦ inl (rw (accumulate, e, f) refl)
  ]
]

pending-touch :
    (k : ℕ) (o : Outgoing) (s : Client) → (touch k o s).pending_reports ≡ s.pending_reports
pending-touch k o s = ground arith

pending-keep_partial :
    (k : ℕ) (o : Outgoing) (acc : List ReportInterval) (s : Client)
    → (keep_partial k o acc s).pending_reports ≡ s.pending_reports
pending-keep_partial k o acc s = ground arith

module _ (c : Callbacks) (now : Instant) (k : ℕ) (s : Client) (q : RequestEntry) (report : Report)
    (back g : Duration) (filled : IsFilled k s q report back g) where
  abbrev collected : Result (Unit {0}) × List ReportInterval
  collected =
      collect c now incremental (outgoing_report k report s) q
        (outgoing_report k report s).intervals

  abbrev filled_with : List ReportInterval → Outgoing
  filled_with acc = with_intervals report acc (outgoing_report k report s)

  update_report-eq :
      update_report c now k s ≡ after_collect k q report (outgoing_report k report s) collected s
  unfolding update_report with_report
  update_report-eq =
      ap (λ z. with_request c now k z s) filled.request
      ∙ ap (λ z. with_report c now k q z s) filled.offered
      ∙ ap
          (λ m.
            after_collect k q report (outgoing_report k report s)
              (collect c now m (outgoing_report k report s) q
                (outgoing_report k report s).intervals)
              s)
          filled.mode

  finish-eq :
      (o : Outgoing) (t : Client)
      → finish k q report.data_collection_mode o t ≡ accumulate k o (expected_len q back g) t
  unfolding finish
  finish-eq o t = ground (arith, filled.mode, filled.back_duration, filled.sampling, filled.samples)

  -- The state after values have been collected without an exception.
  after_collect-eq :
      (acc : List ReportInterval)
      → collected ≡ (ok tt, acc)
      → update_report c now k s
        ≡ accumulate k (filled_with acc) (expected_len q back g) (touch k (filled_with acc) s)
  after_collect-eq acc e =
      update_report-eq
      ∙ ap (λ x. after_collect k q report (outgoing_report k report s) x s) e
      ∙ finish-eq (filled_with acc) (touch k (filled_with acc) s)

  abbrev expected : ℕ
  expected = expected_len q back g

  -- Whatever the callbacks return or raise, a report that is filled over time is queued for sending
  -- only when it has all its values: as many as its datapoints times the samples in the time to
  -- report back.
  pub update_report-SendsComplete :
      SendsComplete (expected_len q back g) s (update_report c now k s).1
  update_report-SendsComplete =
      subst (λ x. SendsComplete expected s x.1) (sym update_report-eq) (go collected)
    where
      go :
          (x : Result (Unit {0}) × List ReportInterval)
          → SendsComplete expected s (after_collect k q report (outgoing_report k report s) x s).1
      go (raise e, acc) = inl (pending-keep_partial k (outgoing_report k report s) acc s)
      go (ok u, acc) =
          subst (λ x. SendsComplete expected s x.1)
            (sym (finish-eq (filled_with acc) (touch k (filled_with acc) s)))
            (from_touched (accumulate k (filled_with acc) expected (touch k (filled_with acc) s)).1
              (accumulate-SendsComplete k (filled_with acc) expected (touch k (filled_with acc) s)))
        where
          from_touched :
              (t : Client)
              → SendsComplete expected (touch k (filled_with acc) s) t
              → SendsComplete expected s t
          from_touched t (inl e) = inl (e ∙ pending-touch k (filled_with acc) s)
          from_touched t (inr (o, e, n)) =
              inr (o, e ∙ ap (λ l. l ++ o ∷ []) (pending-touch k (filled_with acc) s), n)

  -- A report that has all its values after its first sampling is not sent: it is not among the
  -- incomplete reports yet, and taking it from them is a KeyError.
  pub update_report_first :
      (acc : List ReportInterval)
      → lookup k s.incomplete_reports ≡ none
      → collected ≡ (ok tt, acc)
      → length (filled_with acc).intervals ≡ expected_len q back g
      → update_report c now k s ≡ (raise key_error, s)
  unfolding accumulate
  update_report_first acc new e n = after_collect-eq acc e ∙ ground (arith, new, n)

  -- A report that does not have all its values yet is kept with those that it has.
  pub update_report_holds :
      (acc : List ReportInterval)
      → collected ≡ (ok tt, acc)
      → length (filled_with acc).intervals ≢ expected_len q back g
      → ((update_report c now k s).0 ≡ ok tt)
        × (lookup k (update_report c now k s).1.incomplete_reports ≡ some (filled_with acc))
  update_report_holds acc e n = rw (after_collect-eq acc e) (held (touch k (filled_with acc) s))
    where
      held :
          (t : Client)
          → ((accumulate k (filled_with acc) expected t).0 ≡ ok tt)
            × (lookup k (accumulate k (filled_with acc) expected t).1.incomplete_reports
                ≡ some (filled_with acc))
      held t = elim (Bool-cases (length (filled_with acc).intervals == expected)) [
        | inl q ↦ absurd (n ((==_iff (length (filled_with acc).intervals) expected).0 q))
        | inr q ↦
            unfold accumulate in
            rw q (refl, lookup-insert_self k (filled_with acc) t.incomplete_reports)
      ]
