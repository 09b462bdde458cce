-- ===== src/Ven/Registration/Unregister.antt =====
-- openleadr/client.py: how a registration ends, `cancel_party_registration` by the client and
-- `on_cancel_party_registration` by the VTN.
use openleadr_python.Base.{
  ℕ, ◌≡◌, ◌≢◌, refl, sym, ap, subst, ◌∙◌, inl, inr, Option, none, some, [], ◌∷◌, ◌++◌, Bool-cases,
  arith, ◌==◌, ==_iff, if◌then◌else◌,
}
use openleadr_python.Base.Exec.{
  Exec, Result, ok, raise, type_error, key_error, continue, pure, modify, ◌>>=◌, ◌>>◌,
}
use openleadr_python.Ven.Transport.{Performed, nothing, no_message, received}
use openleadr_python.Ven.Registration.{
  unpack, ask, register_reports, start_up, start_up_as, prepare, settle_registration,
  create_party_registration, create_party_reregistration,
}
use openleadr_python.Ven.Registration.State.{
  canceled_party_registration, Payload, Message, Request, OpenAdrClient, World, leave, create_party,
  empty_payload,
}

abbrev pub forget_reports : OpenAdrClient → OpenAdrClient
forget_reports s = record s { reports = none; scheduled = [] }

abbrev pub forget_registration : OpenAdrClient → OpenAdrClient
forget_registration s = record s { registration_id = none }

-- The answer says so with the code 200; other answers leave the client registered.
unfoldable pub settle_leave : Message → Exec OpenAdrClient (Unit {0})
settle_leave m s = elim m.message_type [
  | none ↦ (ok tt, s)
  | some t ↦ elim t [
    | canceled_party_registration ↦ elim m.payload.response [
      | none ↦ (raise key_error, s)
      | some r ↦
          if r.response_code == 200
          then (ok tt, forget_registration (forget_reports s))
          else (ok tt, s)
    ]
    | _ ↦ (ok tt, s)
  ]
]

module _ (w : World) where
  unfoldable pub cancel_party_registration : Exec OpenAdrClient (Unit {0})
  unfolding unpack settle_leave
  cancel_party_registration s = elim s.registration_id [
    | none ↦ (ok tt, s)
    | some k ↦ (ask w (leave k s.ven_id) >>= settle_leave) s
  ]

  -- The registration's id goes after the answer has been sent, when that has not raised.
  abbrev pub confirm_leave : ℕ → ℕ → Exec OpenAdrClient (Unit {0})
  confirm_leave k i =
      modify forget_reports
      >> (ask w (Request.canceled_party_registration 200 i k) >>= λ _. modify forget_registration)

  abbrev pub refuse_leave : ℕ → ℕ → Exec OpenAdrClient (Unit {0})
  refuse_leave k i = ask w (Request.canceled_party_registration 452 i k) >>= λ _. pure tt

  abbrev pub leave_as : ℕ → Option ℕ → Option ℕ → Exec OpenAdrClient (Unit {0})
  leave_as k named none s = (raise key_error, s)
  leave_as k none (some i) s = refuse_leave k i s
  leave_as k (some j) (some i) s = if k == j then confirm_leave k i s else refuse_leave k i s

  -- A message without the key `registration_id` is ignored.
  abbrev pub cancel_as : Option ℕ → Option (Option ℕ) → Option ℕ → Exec OpenAdrClient (Unit {0})
  cancel_as i named none s = (ok tt, s)
  cancel_as i none (some k) s = (ok tt, s)
  cancel_as i (some named) (some k) s = leave_as k named i s

  unfoldable pub on_cancel_party_registration : Payload → Exec OpenAdrClient (Unit {0})
  unfolding unpack
  on_cancel_party_registration p s = cancel_as p.request_id p.registration_id s.registration_id s

  reports-settle_registration :
      (m : Message) (s : OpenAdrClient) → (settle_registration m s).1.reports ≡ s.reports
  unfolding settle_registration
  reports-settle_registration m s = ground arith

  reports-unpack :
      (x : Performed Message) (s : OpenAdrClient)
      → (continue (unpack x s) settle_registration).1.reports ≡ s.reports
  unfolding unpack
  reports-unpack nothing s = refl
  reports-unpack no_message s =
      reports-settle_registration (record { message_type = none; payload = empty_payload }) s
  reports-unpack (received m) s = reports-settle_registration m s

  -- Registering does not touch the reports.
  reports-create_party_registration :
      (request_id registration_id : Option ℕ) (s : OpenAdrClient)
      → (create_party_registration w request_id registration_id s).1.reports ≡ s.reports
  unfolding create_party_registration
  reports-create_party_registration request_id registration_id s =
      reports-unpack (w.vtn (s.outbox ++ create_party request_id s.ven_id registration_id ∷ []))
        (record s { outbox = s.outbox ++ create_party request_id s.ven_id registration_id ∷ [] })

  register_reports-none :
      (s : OpenAdrClient) → s.reports ≡ none → register_reports w s ≡ (raise type_error, s)
  unfolding register_reports
  register_reports-none s h = rw h refl

  start_up_none :
      (next : Exec OpenAdrClient (Unit {0})) (registered : Option ℕ) (s : OpenAdrClient) (k : ℕ)
      → s.reports ≡ none
      → s.registration_id ≡ registered
      → (start_up_as w next registered s).1.registration_id ≡ some k
      → (start_up_as w next registered s).0 ≢ ok tt
  start_up_none next none s k h e g = absurd (ground (arith, e, g))
  start_up_none next (some j) s k h e g =
      subst (λ z. (continue z (λ _. prepare w next)).0 ≢ ok tt) (sym (register_reports-none s h))
        (λ q. absurd (ground (arith, q)))

  after_registering :
      (next : Exec OpenAdrClient (Unit {0})) (x : Result (Unit {0}) × OpenAdrClient) (k : ℕ)
      → x.1.reports ≡ none
      → (continue x (λ _. start_up w next)).1.registration_id ≡ some k
      → (continue x (λ _. start_up w next)).0 ≢ ok tt
  after_registering next (raise e, s) k h g = λ q. absurd (ground (arith, q))
  after_registering next (ok _, s) k h g = start_up_none next s.registration_id s k h refl g

  -- A client whose reports are None, as a cancelled registration leaves them, cannot take up work
  -- again: if the VTN registers it, the re-registration ends in an exception.
  pub create_party_reregistration_stuck :
      (s : OpenAdrClient) (k : ℕ)
      → s.reports ≡ none
      → (create_party_reregistration w s).1.registration_id ≡ some k
      → (create_party_reregistration w s).0 ≢ ok tt
  unfolding create_party_reregistration
  create_party_reregistration_stuck s k h g =
      after_registering (pure tt) (create_party_registration w none s.registration_id s) k
        (reports-create_party_registration none s.registration_id s ∙ h) g

-- What the VTN's cancelling leaves of a client with the registration `k`. If it is for the client,
-- the reports and the periodic tasks are gone and the VTN is told so; the id is gone too, unless
-- sending raised. Otherwise nothing changes, and the answer is 452.
abbrev pub Cancels : ℕ → Option ℕ → ℕ → OpenAdrClient → Result (Unit {0}) × OpenAdrClient → Type 0
Cancels k named i s t =
    (named ≡ some k
      → (t.1.reports ≡ none)
        × (t.1.scheduled ≡ [])
        × (t.1.outbox ≡ s.outbox ++ Request.canceled_party_registration 200 i k ∷ [])
        × (t.0 ≡ ok tt → t.1.registration_id ≡ none))
    × (named ≢ some k
        → t.1 ≡ record s { outbox = s.outbox ++ Request.canceled_party_registration 452 i k ∷ [] })

refused :
    (x : Performed Message) (s : OpenAdrClient)
    → (continue {B = Unit {0}} (unpack x s) (λ _. pure tt)).1 ≡ s
unfolding unpack
refused nothing s = refl
refused no_message s = refl
refused (received m) s = refl

-- What is left once the answer has been sent.
abbrev Ended : OpenAdrClient → Result (Unit {0}) × OpenAdrClient → Type 0
Ended s t =
    (t.1.reports ≡ s.reports)
    × (t.1.scheduled ≡ s.scheduled)
    × (t.1.outbox ≡ s.outbox)
    × (t.0 ≡ ok tt → t.1.registration_id ≡ none)

unpack-Ended :
    (x : Performed Message) (s : OpenAdrClient)
    → Ended s (continue (unpack x s) (λ _. modify forget_registration))
unfolding unpack
unpack-Ended nothing s = (refl, refl, refl, λ q. absurd (ground (arith, q)))
unpack-Ended no_message s = (refl, refl, refl, λ _. refl)
unpack-Ended (received m) s = (refl, refl, refl, λ _. refl)

module _ (w : World) where
  abbrev logged : ℕ → ℕ → ℕ → OpenAdrClient → OpenAdrClient
  logged code k i s = record s {
    outbox = s.outbox ++ Request.canceled_party_registration code i k ∷ [];
  }

  refuse_leave-eq : (k i : ℕ) (s : OpenAdrClient) → (refuse_leave w k i s).1 ≡ logged 452 k i s
  refuse_leave-eq k i s = refused (w.vtn (logged 452 k i s).outbox) (logged 452 k i s)

  confirm_leave-Ended :
      (k i : ℕ) (s : OpenAdrClient)
      → Ended (logged 200 k i (forget_reports s)) (confirm_leave w k i s)
  confirm_leave-Ended k i s =
      unpack-Ended (w.vtn (logged 200 k i s).outbox) (logged 200 k i (forget_reports s))

  leave_as-Cancels :
      (k i : ℕ) (named : Option ℕ) (s : OpenAdrClient)
      → Cancels k named i s (leave_as w k named (some i) s)
  leave_as-Cancels k i none s = (λ q. absurd (ground (arith, q)), λ _. refuse_leave-eq k i s)
  leave_as-Cancels k i (some j) s = elim (Bool-cases (k == j)) [
    | inl e ↦
        rw e (λ _. confirm_leave-Ended k i s, λ q. absurd (q (ap some (sym ((==_iff k j).0 e)))))
    | inr e ↦ rw e (λ q. absurd (ground (arith, q, e)), λ _. refuse_leave-eq k i s)
  ]

  -- When the VTN cancels a registration that the client has, its reports and periodic tasks go,
  -- the VTN is told with the code 200, and the id goes too unless sending raises. When the message
  -- names another registration, the client stays as it is and answers 452.
  pub on_cancel_party_registration-Cancels :
      (p : Payload) (k i : ℕ) (named : Option ℕ) (s : OpenAdrClient)
      → s.registration_id ≡ some k
      → p.registration_id ≡ some named
      → p.request_id ≡ some i
      → Cancels k named i s (on_cancel_party_registration w p s)
  unfolding on_cancel_party_registration
  on_cancel_party_registration-Cancels p k i named s hk hn hi =
      subst (Cancels k named i s)
        (sym (
          ap (λ z. cancel_as w p.request_id p.registration_id z s) hk
          ∙ ap (λ z. cancel_as w p.request_id z (some k) s) hn
          ∙ ap (λ z. leave_as w k named z s) hi))
        (leave_as-Cancels k i named s)
