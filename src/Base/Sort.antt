-- ===== src/Base/Sort.antt =====
-- `list.sort`: a stable sort by a Boolean order. Sorting by a second key after a first one orders
-- by the second key and, where that ties, by the first.
pub mod Order
use mathlib.Core.Path.{◌≡◌, refl}
use mathlib.Core.Logic.{inl, inr}
use mathlib.Core.Bool.{Bool, true, false}
use mathlib.Core.List.{List, [], ◌∷◌, Perm}
use mathlib.Core.List.Perm
use native.Mathlib.Omega.{arith}
use openleadr_python.Base.Tests.{if◌then◌else◌, Bool-cases}
use openleadr_python.Base.Lists.{All}

module _ {ℓ} {A : Type ℓ} where
  abbrev pub insort : (A → A → Bool) → A → List A → List A
  insort le x [] = x ∷ []
  insort le x (y ∷ ys) = if le x y then x ∷ y ∷ ys else y ∷ insort le x ys

  -- An element goes before those that followed it, so ties keep their order.
  abbrev pub sort : (A → A → Bool) → List A → List A
  sort le [] = []
  sort le (x ∷ xs) = insort le x (sort le xs)

  -- Each element is in the relation to all that follow it.
  abbrev pub Sorted {κ} : (A → A → Type κ) → List A → Type (ℓ ⊔ κ)
  Sorted R [] = Unit
  Sorted R (x ∷ xs) = All (R x) xs × Sorted R xs

  -- `x` is before `y` by the order `d` and, where `d` ties, by `p`.
  abbrev pub Lex : (A → A → Bool) → (A → A → Bool) → A → A → Type 0
  Lex d p x y = (d x y ≡ true) × (d y x ≡ true → p x y ≡ true)

  pub insort-perm : (le : A → A → Bool) (x : A) (xs : List A) → Perm (insort le x xs) (x ∷ xs)
  insort-perm le x [] = Perm.refl (x ∷ [])
  insort-perm le x (y ∷ ys) = elim (Bool-cases (le x y)) [
    | inl e ↦ rw e (Perm.refl (x ∷ y ∷ ys))
    | inr e ↦ rw e (Perm.trans (Perm.cons y (insort-perm le x ys)) (Perm.swap x y ys))
  ]

  pub sort-perm : (le : A → A → Bool) (xs : List A) → Perm (sort le xs) xs
  sort-perm le [] = Perm.refl []
  sort-perm le (x ∷ xs) = Perm.trans (insort-perm le x (sort le xs)) (Perm.cons x (sort-perm le xs))

  pub insort-All {κ} :
      (P : A → Type κ) (le : A → A → Bool) (x : A) (xs : List A)
      → P x
      → All P xs
      → All P (insort le x xs)
  insort-All P le x [] px h = (px, tt)
  insort-All P le x (y ∷ ys) px h = elim (Bool-cases (le x y)) [
    | inl e ↦ rw e (px, h)
    | inr e ↦ rw e (h.0, insort-All P le x ys px h.1)
  ]

  pub sort-All {κ} :
      (P : A → Type κ) (le : A → A → Bool) (xs : List A) → All P xs → All P (sort le xs)
  sort-All P le [] h = tt
  sort-All P le (x ∷ xs) h = insort-All P le x (sort le xs) h.0 (sort-All P le xs h.1)
