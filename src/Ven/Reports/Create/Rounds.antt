-- ===== src/Ven/Reports/Create/Rounds.antt =====
-- The rounds of `create_report` over requests for what the client offers.
use mathlib.Core.List.{append_assoc, append-nil}
use openleadr_python.Base.{
  ℕ, suc, ◌≡◌, refl, ap, sym, subst, ◌∙◌, Bool, true, false, if◌then◌else◌, none, some, List, [],
  ◌∷◌, ◌++◌, map, All, arith,
}
use openleadr_python.Base.Int.{pos, ltb_ℤ}
use openleadr_python.Base.Exec.{Error, ok, raise, for_each, continue}
use openleadr_python.Base.Dict.{lookup_or-insert_self}
use openleadr_python.Event.{Instant, Duration}
use openleadr_python.Ven.Cron.{cron_config}
use openleadr_python.Ven.Reports.{
  ReportDescription, Report, Frame, cron, update, Callbacks, Client, frame_at, empty_frame,
}
use openleadr_python.Ven.Reports.Create.{
  SpecifierPayload, ReportRequest, Collected, measurement_matches, is_zero, in_range, append_r_id,
  store, add_job, end_round, run_single, collect_at, collect_payload, Loop, set_client, to_stored,
  run_cron, schedule, set_request_id, set_r_ids, start_collecting, after_payloads, accept_request,
  is_invalid, create_one, if_matching,
}
use openleadr_python.Ven.Reports.Create.Proper.{
  Fits, IsProper, new_entries, rate_of, new_jobs, r_ids_of, all_r_ids,
}

abbrev collected_from : Collected → List SpecifierPayload → Collected
collected_from d [] = d
collected_from d (p ∷ l) = collected_from (append_r_id (SpecifierPayload.r_id p) d) l

r_ids-collected_from :
    (d : Collected) (l : List SpecifierPayload)
    → collected_from d l
      ≡ record d { requested_r_ids = d.requested_r_ids ++ map SpecifierPayload.r_id l }
r_ids-collected_from d [] = rw (append-nil d.requested_r_ids) refl
r_ids-collected_from d (p ∷ l) =
    r_ids-collected_from (append_r_id p.r_id d) l
    ∙ ap (λ x. record d { requested_r_ids = x })
        (append_assoc d.requested_r_ids (p.r_id ∷ []) (map SpecifierPayload.r_id l))

module _ (descriptions : List ReportDescription) (g : Duration) (periodic : is_zero g ≡ false) where
  collect_at-eq :
      (rd : ReportDescription) (k : ℕ) (d : Collected)
      → d.granularity ≡ some g
      → in_range rd g ≡ true
      → collect_at rd k d ≡ append_r_id k d
  unfolding collect_at
  collect_at-eq rd k d e h = ground (arith, e, periodic, h)

  collect_payload-Fits :
      (p : SpecifierPayload) (d : Collected)
      → d.granularity ≡ some g
      → Fits descriptions g p
      → collect_payload descriptions p d ≡ (ok tt, append_r_id p.r_id d)
  unfolding collect_payload
  collect_payload-Fits p d e h =
      ap
        (λ z. elim z [
          | none ↦ (ok tt, d)
          | some rd ↦ if_matching (measurement_matches rd p) (collect_at rd p.r_id d) d
        ])
        h.offered
      ∙ ap (λ b. if_matching b (collect_at h.description p.r_id d) d) h.measured
      ∙ ap (λ x. (ok tt, x)) (collect_at-eq h.description p.r_id d e h.sampled)

  for_each-collect_payload :
      (l : List SpecifierPayload) (d : Collected)
      → d.granularity ≡ some g
      → All (Fits descriptions g) l
      → for_each (collect_payload descriptions) l d ≡ (ok tt, collected_from d l)
  for_each-collect_payload [] d e h = refl
  for_each-collect_payload (p ∷ l) d e h =
      ap (λ x. continue x (λ _. for_each (collect_payload descriptions) l))
        (collect_payload-Fits p d e h.0)
      ∙ for_each-collect_payload l (append_r_id p.r_id d) e h.1

module _ (c : Callbacks) (now : Instant) (f : ℕ) (names_invalid : ℕ → Bool) where
  -- One request, and all of them, on the state of the loop.
  abbrev run_at : ReportRequest → Client → Client
  run_at r s =
      store (to_stored f r r.granularity (some s.next_job))
        (add_job (cron (cron_config (rate_of r) false)) (update r.report_request_id) s)

  abbrev taken : ReportRequest → Loop → Loop
  taken r l =
      set_client
        (run_at r (
          set_r_ids f ((frame_at f l.client).requested_r_ids ++ r_ids_of r)
            (set_request_id f r.report_request_id l.client)))
        (record l { single = false })

  abbrev pub take_all : List ReportRequest → Loop → Loop
  take_all [] l = l
  take_all (r ∷ rs) l = take_all rs (taken r l)

  -- A request that is not single, on a client with the reports that it is for.
  module _ (r : ReportRequest) (l : Loop) (plural : l.single ≡ false)
      (h : IsProper names_invalid l.client.reports r) where
    schedule-eq : (s : Client) → schedule c now f r r.granularity l.single s ≡ (ok tt, run_at r s)
    unfolding schedule
    schedule-eq s = rw (plural) (
        ap
          (λ z. elim z [
            | none ↦ (raise Error.attribute_error, s)
            | some back ↦
                if ltb_ℤ (pos 0) back
                then (ok tt, run_cron f r r.granularity back s)
                else run_single c now f r r.granularity s
          ])
          h.reported
        ∙ rw (h.positive, h.granularity, h.periodic) refl)

    accept_request-eq : accept_request c now f r l ≡ (ok tt, taken r l)
    unfolding accept_request
    accept_request-eq =
        ap
          (λ z. elim z [
            | none ↦ (
              ok tt,
              set_client
                  (store (to_stored f r r.granularity none)
                    (set_request_id f r.report_request_id l.client))
                  l,
            )
            | some report ↦
                after_payloads c now f r
                  (for_each (collect_payload report.report_descriptions) r.specifier_payloads
                    (start_collecting f r l))
                  (set_client (set_request_id f r.report_request_id l.client) l)
          ])
          h.offered
        ∙ ap
            (λ z.
              after_payloads c now f r z
                (set_client (set_request_id f r.report_request_id l.client) l))
            (for_each-collect_payload h.report.report_descriptions h.rate h.periodic
                r.specifier_payloads (start_collecting f r l) h.granularity h.datapoints
              ∙ ap (λ x. (ok tt, x))
                  (r_ids-collected_from (start_collecting f r l) r.specifier_payloads))
        ∙ ap (λ z. end_round z (set_client (set_request_id f r.report_request_id l.client) l))
            (schedule-eq (
              set_r_ids f ((frame_at f l.client).requested_r_ids ++ r_ids_of r)
                (set_request_id f r.report_request_id l.client)))
        ∙ rw plural refl

    create_one-eq : create_one c now f names_invalid r l ≡ (ok tt, taken r l)
    unfolding create_one
    create_one-eq =
        ap
          (λ z. elim z [
            | [] ↦ (raise Error.index_error, l)
            | p ∷ _ ↦
                if is_invalid names_invalid r p
                then (ok tt, record l { response_code = 452 })
                else accept_request c now f r l
          ])
          h.payloads
        ∙ rw h.valid accept_request-eq

  -- All the requests are taken in their order.
  pub for_each-create_one :
      (rs : List ReportRequest) (l : Loop) (reports : List Report)
      → l.single ≡ false
      → l.client.reports ≡ reports
      → All (IsProper names_invalid reports) rs
      → for_each (create_one c now f names_invalid) rs l ≡ (ok tt, take_all rs l)
  for_each-create_one [] l reports e q h = refl
  for_each-create_one (r ∷ rs) l reports e q h =
      ap (λ x. continue x (λ _. for_each (create_one c now f names_invalid) rs))
        (create_one-eq r l e (subst (λ z. IsProper names_invalid z r) (sym q) h.0))
      ∙ for_each-create_one rs (taken r l) reports refl q h.1

  pub entries-take_all :
      (rs : List ReportRequest) (l : Loop)
      → (take_all rs l).client.report_requests
        ≡ l.client.report_requests ++ new_entries f l.client.next_job rs
  entries-take_all [] l = sym (append-nil l.client.report_requests)
  entries-take_all (r ∷ rs) l =
      entries-take_all rs (taken r l)
      ∙ append_assoc l.client.report_requests
          (to_stored f r r.granularity (some l.client.next_job) ∷ [])
          (new_entries f (suc l.client.next_job) rs)

  pub jobs-take_all :
      (rs : List ReportRequest) (l : Loop)
      → (take_all rs l).client.jobs ≡ l.client.jobs ++ new_jobs l.client.next_job rs
  jobs-take_all [] l = sym (append-nil l.client.jobs)
  jobs-take_all (r ∷ rs) l =
      jobs-take_all rs (taken r l)
      ∙ append_assoc l.client.jobs (new_jobs l.client.next_job (r ∷ []))
          (new_jobs (suc l.client.next_job) rs)

  r_ids-taken :
      (r : ReportRequest) (l : Loop)
      → (frame_at f (taken r l).client).requested_r_ids
        ≡ (frame_at f l.client).requested_r_ids ++ r_ids_of r
  r_ids-taken r l = ap Frame.requested_r_ids (
      lookup_or-insert_self f
        (record (frame_at f (set_request_id f r.report_request_id l.client)) {
          requested_r_ids = (frame_at f l.client).requested_r_ids ++ r_ids_of r;
        })
        empty_frame (set_request_id f r.report_request_id l.client).frames)

  pub r_ids-take_all :
      (rs : List ReportRequest) (l : Loop)
      → (frame_at f (take_all rs l).client).requested_r_ids
        ≡ (frame_at f l.client).requested_r_ids ++ all_r_ids rs
  r_ids-take_all [] l = sym (append-nil (frame_at f l.client).requested_r_ids)
  r_ids-take_all (r ∷ rs) l =
      r_ids-take_all rs (taken r l)
      ∙ ap (λ z. z ++ all_r_ids rs) (r_ids-taken r l)
      ∙ append_assoc (frame_at f l.client).requested_r_ids (r_ids_of r) (all_r_ids rs)

  pub others-take_all :
      (rs : List ReportRequest) (l : Loop)
      → ((take_all rs l).response_code ≡ l.response_code)
        × ((take_all rs l).client.sent ≡ l.client.sent)
  others-take_all [] l = (refl, refl)
  others-take_all (r ∷ rs) l = others-take_all rs (taken r l)
