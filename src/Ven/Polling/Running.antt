-- ===== src/Ven/Polling/Running.antt =====
-- What starting the client comes to, and what polling leaves alone.
use openleadr_python.Base.{ℕ, ◌≡◌, ◌⊎◌, refl, inl, inr, true, Option, none, some, List, ◌++◌, arith}
use openleadr_python.Base.Int.{leb_ℤ}
use openleadr_python.Base.Exec.{Exec, Result, Error, ok, raise, type_error, continue, ◌>>◌}
use openleadr_python.Event.{Duration}
use openleadr_python.Ven.Registration.{
  ask, start_up, start_up_as, prepare, register_reports, sync_events, start_queue,
  create_party_registration,
}
use openleadr_python.Ven.Registration.State.{
  Message, Periodic, OpenAdrClient, World, query_registration,
}
use openleadr_python.Ven.Polling.{
  poll, longest_period, cap, tasks, schedule_as, schedule_tasks, begin, run, take_query,
  query_request_id,
}

-- The start raises, or ends because there is no registration, or leaves the client registered with
-- its three periodic tasks, polling at least once a day.
abbrev pub Starts : Result (Unit {0}) × OpenAdrClient → Type 0
Starts t =
    ((e : Error) × (t.0 ≡ raise e))
    ⊎ (((t.1.stopped ≡ true) × (t.1.registration_id ≡ none))
        ⊎ ((d : Duration) × (l : List Periodic) × (t.1.poll_frequency ≡ some d)
            × (leb_ℤ d longest_period ≡ true)
            × (t.1.scheduled ≡ l ++ tasks d)))

Starts-continue {ℓ} :
    {A : Type ℓ} (x : Result A × OpenAdrClient) (f : A → Exec OpenAdrClient (Unit {0}))
    → ((a : A) (s : OpenAdrClient) → Starts (f a s))
    → Starts (continue x f)
Starts-continue (ok a, s) f h = h a s
Starts-continue (raise e, s) f h = inl (e, refl)

cap_le : (d : Duration) → leb_ℤ (cap d) longest_period ≡ true
cap_le d = ground arith

schedule_as-Starts : (f : Option Duration) (s : OpenAdrClient) → Starts (schedule_as f s)
schedule_as-Starts none s = inl (type_error, refl)
schedule_as-Starts (some d) s = inr (inr (cap d, s.scheduled, refl, cap_le d, refl))

schedule_tasks-Starts : (s : OpenAdrClient) → Starts (schedule_tasks s)
unfolding schedule_tasks
schedule_tasks-Starts s = schedule_as-Starts s.poll_frequency s

module _ (w : World) where
  abbrev last_steps : Exec OpenAdrClient (Unit {0})
  last_steps = poll w >> schedule_tasks

  last_steps-Starts : (s : OpenAdrClient) → Starts (last_steps s)
  last_steps-Starts s =
      Starts-continue (poll w s) (λ _. schedule_tasks) (λ _. schedule_tasks-Starts)

  start_up-Starts :
      (registered : Option ℕ) (s : OpenAdrClient)
      → s.registration_id ≡ registered
      → Starts (start_up_as w last_steps registered s)
  start_up-Starts none s h = inr (inl (refl, h))
  start_up-Starts (some k) s h =
      Starts-continue (register_reports w s) (λ _. prepare w last_steps)
        (λ _ t.
          Starts-continue (sync_events w (start_queue w t)) (λ _. last_steps)
            (λ _. last_steps-Starts))

  begin-Starts : (m : Message) (s : OpenAdrClient) → Starts (begin w m s)
  begin-Starts m s =
      Starts-continue
        (create_party_registration w (query_request_id w m.payload) none (take_query m.payload s))
        (λ _. start_up w last_steps) (λ _ t. start_up-Starts t.registration_id t refl)

  -- Whatever the VTN answers, `run` raises, or stops a client that has no registration, or leaves
  -- a client with its three periodic tasks, which polls at least once a day.
  pub run-Starts : (s : OpenAdrClient) → Starts (run w s)
  unfolding run
  run-Starts s = Starts-continue (ask w query_registration s) (begin w) (λ m. begin-Starts m)
