-- ===== src/Ven/Reports/Cancel.antt =====
-- openleadr/client.py: `cancel_report`. What other tasks do in the second that it waits for the last
-- report to be sent is left out.
use openleadr_python.Base.{
  ℕ, ◌≡◌, refl, ap, sym, subst, ◌∙◌, ◌⊎◌, inl, inr, Bool, true, false, Option, none, some, List, [],
  ◌∷◌, ◌++◌, remove_first, any, Bool-cases, ◌==◌, if◌then◌else◌,
}
use openleadr_python.Base.Exec.{Exec, Result, Error, ok, raise, key_error, continue, ◌>>◌}
use openleadr_python.Event.{Instant}
use openleadr_python.Ven.Reports.{
  StoredRequest, Job, canceled_report, Callbacks, Client, request_id_is, current, stored_request,
}
use openleadr_python.Ven.Reports.Update.{update_report}
use openleadr_python.Ven.Reports.Rest.{rest, rest-update_report}

pub record Payload : Type 0 where
  pub report_request_id : ℕ
  pub request_id : ℕ
  pub report_to_follow : Bool

abbrev pub has_job_id : ℕ → Job → Bool
has_job_id j x = Job.id x == j

abbrev pub drop_job : ℕ → Client → Client
drop_job j s = record s { jobs = remove_first (has_job_id j) s.jobs }

-- `job.remove()`: a job that the scheduler does not have is a JobLookupError, which is a KeyError.
unfoldable pub remove_job : Option ℕ → Exec Client (Unit {0})
remove_job none s = (ok tt, s)
remove_job (some j) s =
    if any (has_job_id j) s.jobs then (ok tt, drop_job j s) else (raise key_error, s)

abbrev pub has_any : List ℕ → Bool
has_any [] = false
has_any (k ∷ l) = true

-- The pending reports that the message names, if a report is to follow
abbrev pub pending : ℕ → Bool → Option (List ℕ)
pending k true = some (k ∷ [])
pending k false = none

module _ (c : Callbacks) (now : Instant) (p : Payload) where
  abbrev pub update_when : Bool → Exec Client (Unit {0})
  update_when true s = update_report c now p.report_request_id s
  update_when false s = (ok tt, s)

  -- The entry goes, which is the first with its id, and then the message is sent.
  abbrev pub forget : Exec Client (Unit {0})
  forget s = (
    ok tt,
    record s {
      report_requests = remove_first (request_id_is p.report_request_id) s.report_requests;
      sent =
          s.sent
          ++ canceled_report p.request_id p.report_request_id
              (pending p.report_request_id p.report_to_follow)
            ∷ [];
    },
  )

  abbrev pub cancel_known : StoredRequest → Exec Client (Unit {0})
  cancel_known q s =
      (update_when (has_any (current s q).r_ids)
          >> (remove_job q.job >> (update_when p.report_to_follow >> forget)))
        s

  abbrev pub cancel_found : Option StoredRequest → Exec Client (Unit {0})
  cancel_found none s = (ok tt, s)
  cancel_found (some q) s = cancel_known q s

  -- A request that is not known is logged.
  unfoldable pub cancel_report : Exec Client (Unit {0})
  unfolding remove_job
  cancel_report s = cancel_found (stored_request p.report_request_id s) s

abbrev pub jobs_without : Option ℕ → List Job → List Job
jobs_without none l = l
jobs_without (some j) l = remove_first (has_job_id j) l

-- What cancelling a known request leaves. On an exception the entry stays, and nothing is sent.
-- Otherwise the entry and its job are gone, and the VTN is told.
abbrev pub Outcome : Payload → Option ℕ → Client → Result (Unit {0}) × Client → Type 0
Outcome p job s t =
    ((e : Error) × (t.0 ≡ raise e)
      × (t.1.report_requests ≡ s.report_requests)
      × (t.1.sent ≡ s.sent))
    ⊎ ((t.0 ≡ ok tt)
        × (t.1.jobs ≡ jobs_without job s.jobs)
        × (t.1.report_requests ≡ remove_first (request_id_is p.report_request_id) s.report_requests)
        × (t.1.sent
            ≡ s.sent
              ++ canceled_report p.request_id p.report_request_id
                  (pending p.report_request_id p.report_to_follow)
                ∷ []))

module _ (c : Callbacks) (now : Instant) (p : Payload) (s : Client) where
  -- The client but for the reports that are filled and sent, after the job has been removed.
  abbrev without : Option ℕ → Client
  without job = record (rest s) { jobs = jobs_without job s.jobs }

  abbrev last_steps : Exec Client (Unit {0})
  last_steps = update_when c now p p.report_to_follow >> forget c now p

  module _ (job : Option ℕ) where
    rest-update_last :
        (b : Bool) (t : Client)
        → rest t ≡ without job
        → rest (update_when c now p b t).1 ≡ without job
    rest-update_last true t h = rest-update_report c now p.report_request_id t ∙ h
    rest-update_last false t h = h

    Outcome-forget :
        (x : Result (Unit {0}) × Client)
        → rest x.1 ≡ without job
        → Outcome p job s (continue x (λ _. forget c now p))
    Outcome-forget (raise e, t) h = inl (e, refl, ap Client.report_requests h, ap Client.sent h)
    Outcome-forget (ok _, t) h = inr (
      refl,
      ap Client.jobs h,
      ap (λ z. remove_first (request_id_is p.report_request_id) (Client.report_requests z)) h,
      ap
          (λ z.
            Client.sent z
            ++ canceled_report p.request_id p.report_request_id
                (pending p.report_request_id p.report_to_follow)
              ∷ [])
          h,
    )

    Outcome-last_steps : (t : Client) → rest t ≡ without job → Outcome p job s (last_steps t)
    Outcome-last_steps t h =
        Outcome-forget (update_when c now p p.report_to_follow t)
          (rest-update_last p.report_to_follow t h)

  Outcome-remove_job :
      (job : Option ℕ) (t : Client)
      → rest t ≡ rest s
      → Outcome p job s (continue (remove_job job t) (λ _. last_steps))
  unfolding remove_job
  Outcome-remove_job none t h = Outcome-last_steps none t h
  Outcome-remove_job (some j) t h = elim (Bool-cases (any (has_job_id j) t.jobs)) [
    | inl e ↦ rw e (Outcome-last_steps (some j) (drop_job j t) (ap (drop_job j) h))
    | inr e ↦ rw e (inl (key_error, refl, ap Client.report_requests h, ap Client.sent h))
  ]

  Outcome-after_update :
      (job : Option ℕ) (x : Result (Unit {0}) × Client)
      → rest x.1 ≡ rest s
      → Outcome p job s (continue x (λ _. remove_job job >> last_steps))
  Outcome-after_update job (raise e, t) h =
      inl (e, refl, ap Client.report_requests h, ap Client.sent h)
  Outcome-after_update job (ok _, t) h = Outcome-remove_job job t h

  -- Cancelling a request that the client knows removes its entry and its job and tells the VTN,
  -- with the report named as pending if one is to follow; or sampling the last values or removing
  -- the job raises, and then the entry stays and nothing is sent.
  pub cancel_report-Outcome :
      (q : StoredRequest)
      → stored_request p.report_request_id s ≡ some q
      → Outcome p q.job s (cancel_report c now p s)
  unfolding cancel_report
  cancel_report-Outcome q h =
      subst (λ z. Outcome p q.job s (cancel_found c now p z s)) (sym h)
        (Outcome-after_update q.job (update_when c now p (has_any (current s q).r_ids) s)
          (rest-update_last none (has_any (current s q).r_ids) s refl))
