-- ===== src/Vtn/ReportService/Rounds.antt =====
-- The rounds of the loop over the tuples of a request.
use openleadr_python.Base.{
  ℕ, ◌≡◌, refl, ap, ◌∙◌, ◌⊎◌, inl, inr, false, List, [], ◌∷◌, arith, Option-cases, All, All-map_of,
  any, subst, sym, some, Bool-cases, ==_iff, find, ◌==◌,
}
use openleadr_python.Base.Exec.{
  Exec, Result, ok, raise, type_error, continue, continue-raise, pure, ◌>>=◌,
}
use openleadr_python.Vtn.ReportService.{
  ReportDescription, Report, Item, Requested, tuple, not_tuple, ReportService, SpecifierPayload,
  Intervals, text, callable, delta, other, note_callback, unpack, described, request_one,
  request_all, is_nothing,
}
use openleadr_python.Vtn.ReportService.Callbacks.{
  here, HasGiven, Keeps, insert_callback-same, note_callback-Keeps, Keeps-step, HasGiven-step,
  HasGiven-there,
}

some-inj {ℓ} : {A : Type ℓ} {x y : A} → some x ≡ some y → x ≡ y
some-inj h = cc

found_id :
    (n : ℕ) (l : List ReportDescription) (d : ReportDescription)
    → find (λ e. ReportDescription.r_id e == n) l ≡ some d
    → d.r_id ≡ n
found_id n [] d h = absurd (ground (arith, h))
found_id n (e ∷ l) d h = elim (Bool-cases (e.r_id == n)) [
  | inl q ↦ subst (λ z. ReportDescription.r_id z ≡ n) (some-inj (rw q at h)) ((==_iff e.r_id n).0 q)
  | inr q ↦ found_id n l d (rw q at h)
]

module _ (k : ℕ) (report : Report) where
  -- A round of the loop raises a TypeError, or makes a payload with its callback.
  abbrev One :
      List Requested
      → Requested
      → ReportService
      → Result (SpecifierPayload × Intervals) × ReportService
      → Type 0
  One l r s x =
      (x.0 ≡ raise type_error)
      ⊎ ((p : SpecifierPayload) × (i : Intervals) × (t : ReportService) × (x ≡ (ok (p, i), t))
          × HasGiven t k (r ∷ l) p
          × Keeps k (r ∷ l) s t
          × (is_nothing r ≡ false))

  described-raises :
      (r : Item)
      → ((d : ReportDescription) × (described report r ≡ ok d) × (r ≡ text d.r_id))
        ⊎ (described report r ≡ raise type_error)
  described-raises (text n) =
      elim (Option-cases (find (λ d. ReportDescription.r_id d == n) report.report_descriptions)) [
        | inl e ↦ inr (rw (described, e) refl)
        | inr (d, e) ↦
            inl
              (d, rw (described, e) refl, ap text (sym (found_id n report.report_descriptions d e)))
      ]
  described-raises (callable n) = inr refl
  described-raises (delta n) = inr refl
  described-raises (other n) = inr refl

  request_one-One :
      (l : List Requested) (r : Requested) (s : ReportService)
      → One l r s (request_one k report r s)
  unfolding request_one
  request_one-One l Requested.nothing s = inl refl
  request_one-One l not_tuple s = inl refl
  request_one-One l (tuple items) s = elim (Option-cases (unpack items)) [
    | inl u ↦ inl (rw (request_one, u) refl)
    | inr ((r, c, i), u) ↦ elim (described-raises r) [
      | inr d ↦ inl (rw (request_one, u, d) refl)
      | inl (rd, d, named) ↦
          let gives = here items l rd.r_id c i (u ∙ ap (λ z. some (z, c, i)) named) in
          inr (
            record { r_id = rd.r_id; reading_type = rd.reading_type },
            i,
            note_callback (k, rd.r_id) c s,
            rw (request_one, u, d) refl,
            (c, insert_callback-same (k, rd.r_id) c s.report_callbacks, gives),
            note_callback-Keeps k rd.r_id c (tuple items ∷ l) s gives,
            refl,
          )
    ]
  ]

  abbrev pub Many :
      List Requested
      → ReportService
      → Result (List SpecifierPayload × Intervals) × ReportService
      → Type 0
  Many l s x =
      (x.0 ≡ raise type_error)
      ⊎ ((ps : List SpecifierPayload) × (i : Intervals) × (t : ReportService) × (x
            ≡ (ok (ps, i), t))
          × All (HasGiven t k l) ps
          × Keeps k l s t
          × (any is_nothing l ≡ false))

  -- The rest of the loop after a round.
  abbrev pub after :
      List Requested
      → SpecifierPayload × Intervals
      → Exec ReportService (List SpecifierPayload × Intervals)
  after l x = request_all k report l x.1 >>= λ y. pure (x.0 ∷ y.0, y.1)

  pub request_all-Many :
      (l : List Requested) (last : Intervals) (s : ReportService)
      → Many l s (request_all k report l last s)
  unfolding request_all
  request_all-Many [] last s = inr (
    [],
    last,
    s,
    refl,
    tt,
    record { ids = refl; others = λ j ne. refl; under = λ n c e. (c, e, inl refl) },
    refl,
  )
  request_all-Many (r ∷ l) last s = elim (request_one-One l r s) [
    | inl e ↦ inl (continue-raise (request_one k report r s) (after l) type_error e)
    | inr (p, i, t, q, has, keeps, some_thing) ↦ elim (request_all-Many l i t) [
      | inl e ↦ inl (
          ap (λ x. (continue x (after l)).0) q
          ∙ continue-raise (request_all k report l i t) (λ y. pure (p ∷ y.0, y.1)) type_error e)
      | inr (ps, j, u, w, all_have, kept, rest) ↦ inr (
        p ∷ ps,
        j,
        u,
        ap (λ x. continue x (after l)) q ∙ ap (λ x. continue x (λ y. pure (p ∷ y.0, y.1))) w,
        (
          HasGiven-step k r l t u p has kept,
          All-map_of (HasGiven u k l) (HasGiven u k (r ∷ l)) ps (HasGiven-there k r l u) all_have,
        ),
        Keeps-step k r l s t u keeps kept,
        ground arith,
      )
    ]
  ]
