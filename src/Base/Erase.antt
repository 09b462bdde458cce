-- ===== src/Base/Erase.antt =====
-- Removing, one by one, all elements that pass a test, as the loops that pop from a list do.
use mathlib.Core.List.{Perm, erase, filter}
use mathlib.Core.List.Perm
use mathlib.Core.Path.{◌≡◌, refl, sym, ap, ◌∙◌}
use mathlib.Core.Logic.{inl, inr, if_pos, if_neg}
use mathlib.Core.Bool.{Bool-discrete, Bool, true, not}
use mathlib.Core.List.{List, [], ◌∷◌}
use native.Mathlib.Omega.{arith}
use openleadr_python.Base.Tests.{Bool-cases, if◌then◌else◌}
use openleadr_python.Base.Lists.{select}

module _ {ℓ} {A : Type ℓ} (dec : Discrete A) (p : A → Bool) where
  -- Erasing an element that passes the test leaves those that fail it.
  pub reject-erase :
      (x : A) (q : List A)
      → p x ≡ true
      → select (λ e. not (p e)) (erase dec q x) ≡ select (λ e. not (p e)) q
  reject-erase x [] h = refl
  reject-erase x (y ∷ q) h = elim (dec y x) [
    | yes e ↦ rw (if_pos _ e) (ground (arith, ap p e))
    | no e ↦ rw (if_neg _ e) (ground (arith, reject-erase x q h))
  ]

  pub select-erase :
      (x : A) (q : List A) → p x ≡ true → select p (erase dec q x) ≡ erase dec (select p q) x
  select-erase x [] h = refl
  select-erase x (y ∷ q) h = elim (dec y x) [
    | yes e ↦ rw (if_pos _ e, ap p e ∙ h, if_pos _ e)
    | no e ↦ elim (Bool-cases (p y)) [
      | inl k ↦ rw (if_neg _ e, k, if_neg _ e, select-erase x q h)
      | inr k ↦ rw (if_neg _ e, k) (select-erase x q h)
    ]
  ]

  -- If nothing passes the test, all elements fail it.
  pub reject_all : (q : List A) → select p q ≡ [] → select (λ e. not (p e)) q ≡ q
  reject_all [] h = refl
  reject_all (x ∷ q) h = ground (arith, reject_all q)

  -- `for x in l: if p(x): q.remove(x)`
  abbrev pub erase_each : List A → List A → List A
  erase_each [] q = q
  erase_each (x ∷ l) q = erase_each l (if p x then erase dec q x else q)

  select-eq-filter : (l : List A) → select p l ≡ filter (λ x. Bool-discrete (p x) true) l
  select-eq-filter [] = refl
  select-eq-filter (x ∷ l) = elim (Bool-cases (p x)) [
    | inl k ↦ rw k (ap (◌∷◌ x) (select-eq-filter l))
    | inr k ↦ rw k (select-eq-filter l)
  ]

  pub select-perm : {l q : List A} → Perm l q → Perm (select p l) (select p q)
  select-perm {l} {q} h =
      rw (select-eq-filter l, select-eq-filter q) (Perm.filter (λ x. Bool-discrete (p x) true) h)

  -- If the loop runs over the elements of the list that pass the test, in any order, what it
  -- leaves are those that fail it.
  pub erase_each-reject :
      (l q : List A) → Perm (select p l) (select p q) → erase_each l q ≡ select (λ e. not (p e)) q
  erase_each-reject [] q h = sym (reject_all q (Perm.eq-nil (Perm.symm h)))
  erase_each-reject (x ∷ l) q h = elim (Bool-cases (p x)) [
    | inl k ↦
        let popped : Perm (select p l) (select p (erase dec q x)) =
          rw (select-erase x q k) (rw (if_pos (dec x x) refl) at (Perm.erase dec x (rw k at h))) in
        rw k (erase_each-reject l (erase dec q x) popped ∙ reject-erase x q k)
    | inr k ↦ rw k (erase_each-reject l q (rw k at h))
  ]
