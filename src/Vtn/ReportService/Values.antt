-- ===== src/Vtn/ReportService/Values.antt =====
-- The delivery of reported values to the callbacks.
use mathlib.Core.List.{append-nil, append_assoc}
use openleadr_python.Base.{
  ℕ, ◌≡◌, ap, sym, ◌∙◌, inl, inr, true, false, Option, none, some, List, [], ◌∷◌, ◌++◌, arith,
  Bool-cases, select, ◌==◌, ==_iff, if◌then◌else◌,
}
use openleadr_python.Base.Dict.{Dict, lookup, lookup_or, insert, lookup-insert}
use openleadr_python.Vtn.ReportService.{ReportInterval}
use openleadr_python.Vtn.ReportService.Updates.{group_into}

-- The intervals for one datapoint.
abbrev pub intervals_of : ℕ → List ReportInterval → List ReportInterval
intervals_of k = select (λ i. ReportInterval.r_id i == k)

module _ (k : ℕ) where
  lookup-add :
      (i : ReportInterval) (d : Dict (List ReportInterval))
      → lookup_or k [] (insert i.r_id (lookup_or i.r_id [] d ++ i ∷ []) d)
        ≡ lookup_or k [] d ++ intervals_of k (i ∷ [])
  lookup-add i d = elim (Bool-cases (k == i.r_id)) [
    | inl e ↦
        ap get (lookup-insert k i.r_id (new i.r_id) d)
        ∙ ap (λ b. get (if b then some (new i.r_id) else lookup k d)) e
        ∙ ap new (sym ((==_iff k i.r_id).0 e))
        ∙ ap (λ z. lookup_or k [] d ++ z) (sym (itself e))
    | inr e ↦
        ap get (lookup-insert k i.r_id (new i.r_id) d)
        ∙ ap (λ b. get (if b then some (new i.r_id) else lookup k d)) e
        ∙ sym (ap (λ z. lookup_or k [] d ++ z) (other_one e) ∙ append-nil (lookup_or k [] d))
  ]
    where
      get : Option (List ReportInterval) → List ReportInterval
      get o = elim o [ none ↦ [] | some w ↦ w ]

      new : ℕ → List ReportInterval
      new n = lookup_or n [] d ++ i ∷ []

      itself : (k == i.r_id) ≡ true → intervals_of k (i ∷ []) ≡ i ∷ []
      itself e = ground arith

      other_one : (k == i.r_id) ≡ false → intervals_of k (i ∷ []) ≡ []
      other_one e = ground arith

  -- The groups so far, and then the intervals that are still to come.
  lookup-group_into :
      (l : List ReportInterval) (d : Dict (List ReportInterval))
      → lookup_or k [] (group_into d l) ≡ lookup_or k [] d ++ intervals_of k l
  unfolding group_into
  lookup-group_into [] d = sym (append-nil (lookup_or k [] d))
  lookup-group_into (i ∷ l) d =
      lookup-group_into l (insert i.r_id (lookup_or i.r_id [] d ++ i ∷ []) d)
      ∙ ap (λ z. z ++ intervals_of k l) (lookup-add i d)
      ∙ append_assoc (lookup_or k [] d) (intervals_of k (i ∷ [])) (intervals_of k l)
      ∙ ap (λ z. lookup_or k [] d ++ z) joined
    where
      joined : intervals_of k (i ∷ []) ++ intervals_of k l ≡ intervals_of k (i ∷ l)
      joined = ground arith

  -- Grouping a report's intervals by datapoint loses none of them, and keeps the order of those
  -- of each datapoint.
  pub lookup-group_by :
      (l : List ReportInterval) → lookup_or k [] (group_into [] l) ≡ intervals_of k l
  lookup-group_by l = lookup-group_into l []
