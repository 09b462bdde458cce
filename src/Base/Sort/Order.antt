-- ===== src/Base/Sort/Order.antt =====
-- A sorted list is in order, and a second stable sort refines the order of the first.
use mathlib.Core.Path.{◌≡◌}
use mathlib.Core.Logic.{inl, inr}
use mathlib.Core.Bool.{Bool, true, false}
use mathlib.Core.List.{List, [], ◌∷◌}
use openleadr_python.Base.Tests.{Bool-cases}
use openleadr_python.Base.Lists.{All, All-map_of}
use openleadr_python.Base.Sort.{insort, sort, Sorted, Lex, insort-All, sort-All}

-- The values are in the relation given by a Boolean test.
abbrev pub By {ℓ} : {A : Type ℓ} → (A → A → Bool) → A → A → Type 0
By le x y = le x y ≡ true

module _ {ℓ} {A : Type ℓ} (le : A → A → Bool) (total : (x y : A) → le x y ≡ false → le y x ≡ true)
    (trans : (x y z : A) → le x y ≡ true → le y z ≡ true → le x z ≡ true) where
  insort-Sorted : (x : A) (xs : List A) → Sorted (By le) xs → Sorted (By le) (insort le x xs)
  insort-Sorted x [] h = (tt, tt)
  insort-Sorted x (y ∷ ys) h = elim (Bool-cases (le x y)) [
    | inl e ↦ rw e ((e, All-map_of (By le y) (By le x) ys (λ z k. trans x y z e k) h.0), h)
    | inr e ↦ rw e (insort-All (By le y) le x ys (total x y e) h.0, insort-Sorted x ys h.1)
  ]

  pub sort-Sorted : (xs : List A) → Sorted (By le) (sort le xs)
  sort-Sorted [] = tt
  sort-Sorted (x ∷ xs) = insort-Sorted x (sort le xs) (sort-Sorted xs)

  module _ (p : A → A → Bool) where
    -- What is before `y` and wins its ties is before all that follow `y`.
    before-All :
        (x y : A) (zs : List A)
        → le x y ≡ true
        → All (By p x) zs
        → All (Lex le p y) zs
        → All (Lex le p x) zs
    before-All x y [] e a b = tt
    before-All x y (z ∷ zs) e a b = ((trans x y z e b.0.0, λ _. a.0), before-All x y zs e a.1 b.1)

    insort-Lex :
        (x : A) (xs : List A)
        → All (By p x) xs
        → Sorted (Lex le p) xs
        → Sorted (Lex le p) (insort le x xs)
    insort-Lex x [] px h = (tt, tt)
    insort-Lex x (y ∷ ys) px h = elim (Bool-cases (le x y)) [
      | inl e ↦ rw e (((e, λ _. px.0), before-All x y ys e px.1 h.0), h)
      | inr e ↦ rw e (
        insort-All (Lex le p y) le x ys (total x y e, λ t. cc (e, t)) h.0,
        insort-Lex x ys px.1 h.1,
      )
    ]

    -- A stable sort of a list that is sorted by `p` sorts by `le` first and by `p` where that ties.
    pub sort-Lex : (xs : List A) → Sorted (By p) xs → Sorted (Lex le p) (sort le xs)
    sort-Lex [] h = tt
    sort-Lex (x ∷ xs) h = insort-Lex x (sort le xs) (sort-All (By p x) le xs h.0) (sort-Lex xs h.1)
