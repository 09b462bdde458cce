-- ===== src/Ven/Opts/Kept.antt =====
-- Creating an opt and cancelling it again.
use openleadr_python.Base.{
  ℕ, ◌≡◌, refl, sym, ap, subst, ◌∙◌, inl, inr, Bool, true, false, not, ◌&&◌, Option, none, some,
  List, [], ◌∷◌, ◌++◌, find, remove_first, is_some, arith, Bool-cases, ◌==◌, if◌then◌else◌,
}
use openleadr_python.Base.Exec.{Result, ok, raise, value_error, continue}
use openleadr_python.Event.{Instant, Target, TargetsByType}
use openleadr_python.Event.Objects.{is_member, both_targets}
use openleadr_python.Event.Objects.Opts.{Opt, opt_types, opt_reasons, make_opt, is_mrid, opt_with}
use openleadr_python.Ven.Transport.{received}
use openleadr_python.Ven.Opts.{
  create, cancel, OptClient, Vtn, opt_id_in, logged, has_opt_id, with_id, store_opt, send_opt,
  create_opt, drop_opt, cancel_found, cancel_opt,
}

module _ {ℓ} {A : Type ℓ} (p : A → Bool) (x : A) (h : p x ≡ true) where
  find-append_none : (l : List A) → find p l ≡ none → find p (l ++ x ∷ []) ≡ some x
  find-append_none [] n = ap (λ b. if b then some x else none) h
  find-append_none (y ∷ l) n = elim (Bool-cases (p y)) [
    | inl k ↦ absurd (ground (arith, k, n))
    | inr k ↦ rw k (find-append_none l (sym (ap (λ b. if b then some y else find p l) k) ∙ n))
  ]

  remove_first-append_none : (l : List A) → find p l ≡ none → remove_first p (l ++ x ∷ []) ≡ l
  remove_first-append_none [] n = ap (λ b. if b then [] else x ∷ []) h
  remove_first-append_none (y ∷ l) n = elim (Bool-cases (p y)) [
    | inl k ↦ absurd (ground (arith, k, n))
    | inr k ↦ rw k (
        ap (λ m. y ∷ m)
          (remove_first-append_none l (sym (ap (λ b. if b then some y else find p l) k) ∙ n)))
  ]

-- The constructor keeps the id.
abbrev KeepsId : Opt → Result Opt → Type 0
KeepsId o (raise e) = Unit
KeepsId o (ok p) = p.opt_id ≡ o.opt_id

unless_raise :
    (o : Opt) (b : Bool) (r : Result Opt)
    → KeepsId o r
    → KeepsId o (if b then raise value_error else r)
unless_raise o true r h = tt
unless_raise o false r h = h

opt_with-KeepsId :
    (now : Instant) (o : Opt) (r : Result (List Target × TargetsByType))
    → KeepsId o (opt_with now o r)
opt_with-KeepsId now o (raise e) = tt
opt_with-KeepsId now o (ok (l, d)) = refl

make_opt-KeepsId : (now : Instant) (o : Opt) → KeepsId o (make_opt now o)
unfolding make_opt
make_opt-KeepsId now o =
    let last = opt_with now o (both_targets o.targets o.targets_by_type) in
    let about_both =
      if is_some o.event_id && is_some o.vavailability then raise value_error else last in
    let about_none =
      if not (is_some o.event_id) && not (is_some o.vavailability)
      then raise value_error
      else about_both in
    let mrid = if not (is_mrid o.signal_target_mrid) then raise value_error else about_none in
    let reason = if not (is_member o.opt_reason opt_reasons) then raise value_error else mrid in
    unless_raise o (not (is_member o.opt_type opt_types)) reason (
      unless_raise o (not (is_member o.opt_reason opt_reasons)) mrid (
        unless_raise o (not (is_mrid o.signal_target_mrid)) about_none (
          unless_raise o (not (is_some o.event_id) && not (is_some o.vavailability)) about_both (
            unless_raise o (is_some o.event_id && is_some o.vavailability) last
              (opt_with-KeepsId now o (both_targets o.targets o.targets_by_type))))))

-- The id that an opt gets
abbrev pub id_of : ℕ → Opt → ℕ
id_of generated o = elim (Opt.opt_id o) [ none ↦ generated | some k ↦ k ]

id-with_id : (generated : ℕ) (o : Opt) → (with_id generated o).opt_id ≡ some (id_of generated o)
id-with_id generated o = ground arith

has_opt_id-with :
    (k : ℕ) (o : Opt) (j : Option ℕ) → o.opt_id ≡ j → j ≡ some k → has_opt_id k o ≡ true
has_opt_id-with k o j e h =
    ap (λ z. elim z [ none ↦ false | some j ↦ j == k ]) (e ∙ h) ∙ ground arith

module _ (vtn : Vtn) (now : Instant) (generated k : ℕ) (o p : Opt) (s : OptClient) where
  abbrev key : ℕ
  key = id_of generated o

  -- The client once the opt has been sent
  abbrev pub with_opt : OptClient
  with_opt = logged (create p) (store_opt p s)

  -- An opt of a known type and for a known reason, whose constructor accepts it, and whose id the
  -- client does not hold yet, is stored and sent; the result is what the VTN acknowledges. When the
  -- VTN acknowledges its cancelling too, the client holds the same opts as before.
  pub create_opt-cancel_opt :
      (j : ℕ)
      → (is_member o.opt_type opt_types && is_member o.opt_reason opt_reasons) ≡ true
      → make_opt now (with_id generated o) ≡ ok p
      → find (has_opt_id (id_of generated o)) s.opts ≡ none
      → vtn with_opt.outbox ≡ received (some k)
      → vtn (logged (cancel (id_of generated o)) with_opt).outbox ≡ received (some j)
      → let t = create_opt vtn now generated o s in
        let u = cancel_opt vtn (id_of generated o) t.1 in
        (t.0 ≡ ok (some k)) × (t.1.opts ≡ s.opts ++ p ∷ []) × (u.0 ≡ ok true) × (u.1.opts ≡ s.opts)
  unfolding create_opt cancel_opt opt_id_in
  create_opt-cancel_opt j known made new acked cancelled = rw created (
    refl,
    refl,
    ap (λ z. z.0) dropped,
    ap (λ z. OptClient.opts z.1) dropped
        ∙ remove_first-append_none (has_opt_id key) p is_key s.opts new,
  )
    where
      created : create_opt vtn now generated o s ≡ (ok (some k), with_opt)
      created =
          ap
            (λ b.
              if b
              then send_opt vtn (make_opt now (with_id generated o)) s
              else (raise value_error, s))
            known
          ∙ ap (λ r. send_opt vtn r s) made
          ∙ ap (λ r. opt_id_in r with_opt) acked

      is_key : has_opt_id key p ≡ true
      is_key =
          has_opt_id-with key p (with_id generated o).opt_id
            (subst (KeepsId (with_id generated o)) made
              (make_opt-KeepsId now (with_id generated o)))
            (id-with_id generated o)

      dropped : cancel_opt vtn key with_opt ≡ (
        ok true,
        record (logged (cancel key) with_opt) {
          opts = remove_first (has_opt_id key) (s.opts ++ p ∷ []);
        },
      )
      dropped =
          ap (λ z. cancel_found vtn key z with_opt)
            (find-append_none (has_opt_id key) p is_key s.opts new)
          ∙ ap (λ r. continue (opt_id_in r (logged (cancel key) with_opt)) (drop_opt key)) cancelled
