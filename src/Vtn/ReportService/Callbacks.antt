-- ===== src/Vtn/ReportService/Callbacks.antt =====
-- The callbacks that are noted while a request for a report is formed.
use openleadr_python.Base.{
  ℕ, ◌≡◌, refl, ◌∙◌, ◌⊎◌, inl, inr, false, List, [], ◌∷◌, arith, subst, sym, some, Bool-cases,
  ==_iff, ◌==◌,
}
use openleadr_python.Vtn.ReportService.{
  Item, Requested, tuple, ReportService, SpecifierPayload, same_key, lookup_callback,
  insert_callback, Intervals, text, note_callback, unpack,
}

abbrev Callbacks : Type 0
Callbacks = List ((ℕ × ℕ) × ℕ)

pub insert_callback-same :
    (k : ℕ × ℕ) (c : ℕ) (l : Callbacks) → lookup_callback k (insert_callback k c l) ≡ some c
insert_callback-same (k, n) c [] = ground arith
insert_callback-same (k, n) c (((a, b), d) ∷ l) = ground (arith, insert_callback-same (k, n) c l)

insert_callback-other :
    (j k : ℕ × ℕ) (c : ℕ) (l : Callbacks)
    → same_key j k ≡ false
    → lookup_callback j (insert_callback k c l) ≡ lookup_callback j l
insert_callback-other (j, i) (k, n) c [] h = ground arith
insert_callback-other (j, i) (k, n) c (((a, b), d) ∷ l) h =
    ground (arith, insert_callback-other (j, i) (k, n) c l h)

-- One of the tuples asks for the datapoint and gives the callback for it.
pub data Gives : List Requested → (r_id callback : ℕ) → Type 0 where
  here :
      (items : List Item) (l : List Requested) (n c : ℕ) (i : Intervals)
      → unpack items ≡ some (text n, c, i)
      → Gives (tuple items ∷ l) n c
  there : (r : Requested) (l : List Requested) (n c : ℕ) → Gives l n c → Gives (r ∷ l) n c

-- The payload's datapoint has a callback under the request's id, and a tuple gives it for that
-- datapoint.
abbrev pub HasGiven : ReportService → ℕ → List Requested → SpecifierPayload → Type 0
HasGiven t k l p =
    (c : ℕ) × (lookup_callback (k, p.r_id) t.report_callbacks ≡ some c) × Gives l p.r_id c

-- The callbacks of other requests stay. One of the request is kept, or replaced by another that is
-- given for the same datapoint.
pub record Keeps (k : ℕ) (l : List Requested) (s t : ReportService) : Type 0 where
  pub ids : t.next_id ≡ s.next_id
  pub others :
      (j : ℕ × ℕ)
      → (j.0 == k) ≡ false
      → lookup_callback j t.report_callbacks ≡ lookup_callback j s.report_callbacks
  pub under :
      (n c : ℕ)
      → lookup_callback (k, n) s.report_callbacks ≡ some c
      → (d : ℕ) × (lookup_callback (k, n) t.report_callbacks ≡ some d) × ((d ≡ c) ⊎ Gives l n d)

pub note_callback-Keeps :
    (k n c : ℕ) (l : List Requested) (s : ReportService)
    → Gives l n c
    → Keeps k l s (note_callback (k, n) c s)
note_callback-Keeps k n c l s g = record {
  ids = refl;
  others = λ j ne. insert_callback-other j (k, n) c s.report_callbacks (ground (arith, ne));
  under = λ m b e. elim (Bool-cases (m == n)) [
    | inl q ↦
        let same = (==_iff m n).0 q in
        (
          c,
          subst (λ z. lookup_callback (k, z) (insert_callback (k, n) c s.report_callbacks) ≡ some c)
              (sym same) (insert_callback-same (k, n) c s.report_callbacks),
          inr (subst (λ z. Gives l z c) (sym same) g),
        )
    | inr q ↦ (
      b,
      insert_callback-other (k, m) (k, n) c s.report_callbacks (ground (arith, q)) ∙ e,
      inl refl,
    )
  ];
}

-- What a callback that was given is after the rest of the loop.
given-under :
    (k : ℕ) (r : Requested) (l : List Requested) (t u : ReportService) (n c : ℕ)
    → Keeps k l t u
    → lookup_callback (k, n) t.report_callbacks ≡ some c
    → (d : ℕ) × (lookup_callback (k, n) u.report_callbacks ≡ some d) × ((d ≡ c) ⊎ Gives (r ∷ l) n d)
given-under k r l t u n c keeps e = weaken (keeps.under n c e)
  where
    weaken :
        (d : ℕ) × (lookup_callback (k, n) u.report_callbacks ≡ some d) × ((d ≡ c) ⊎ Gives l n d)
        → (d : ℕ) × (lookup_callback (k, n) u.report_callbacks ≡ some d)
          × ((d ≡ c) ⊎ Gives (r ∷ l) n d)
    weaken (d, f, inl q) = (d, f, inl q)
    weaken (d, f, inr g) = (d, f, inr (there r l n d g))

pub Keeps-step :
    (k : ℕ) (r : Requested) (l : List Requested) (s t u : ReportService)
    → Keeps k (r ∷ l) s t
    → Keeps k l t u
    → Keeps k (r ∷ l) s u
Keeps-step k r l s t u first rest = record {
  ids = rest.ids ∙ first.ids;
  others = λ j ne. rest.others j ne ∙ first.others j ne;
  under = λ n c e. both n c (first.under n c e);
}
  where
    both :
        (n c : ℕ)
        → (d : ℕ) × (lookup_callback (k, n) t.report_callbacks ≡ some d)
          × ((d ≡ c) ⊎ Gives (r ∷ l) n d)
        → (d : ℕ) × (lookup_callback (k, n) u.report_callbacks ≡ some d)
          × ((d ≡ c) ⊎ Gives (r ∷ l) n d)
    both n c (d, e, was) =
        let (f, h, now) = given-under k r l t u n d rest e in
        (
          f,
          h,
          elim now [
            | inr g ↦ inr g
            | inl q ↦ elim was [
              | inl w ↦ inl (q ∙ w)
              | inr g ↦ inr (subst (Gives (r ∷ l) n) (sym q) g)
            ]
          ],
        )

pub HasGiven-step :
    (k : ℕ) (r : Requested) (l : List Requested) (t u : ReportService) (p : SpecifierPayload)
    → HasGiven t k (r ∷ l) p
    → Keeps k l t u
    → HasGiven u k (r ∷ l) p
HasGiven-step k r l t u p (c, e, g) rest =
    let (d, f, now) = given-under k r l t u p.r_id c rest e in
    (d, f, elim now [ inl q ↦ subst (Gives (r ∷ l) p.r_id) (sym q) g | inr m ↦ m ])

pub HasGiven-there :
    (k : ℕ) (r : Requested) (l : List Requested) (u : ReportService) (p : SpecifierPayload)
    → HasGiven u k l p
    → HasGiven u k (r ∷ l) p
HasGiven-there k r l u p (c, e, g) = (c, e, there r l p.r_id c g)
