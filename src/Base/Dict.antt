-- ===== src/Base/Dict.antt =====
-- A Python dict keyed by identifiers, in insertion order.
use Prim.Native.Nat.{ℕ}
use mathlib.Core.Path.{◌≡◌}
use mathlib.Core.Logic.{◌≢◌}
use mathlib.Core.Bool.{Bool}
use mathlib.Core.List.{List, [], ◌∷◌}
use mathlib.Core.Option.{Option, none, some}
use native.Mathlib.Omega.{arith}
use openleadr_python.Base.Tests.{is_some, ◌==◌, if◌then◌else◌}

abbrev pub Dict {ℓ} : (V : Type ℓ) → Type ℓ
Dict V = List (ℕ × V)

module _ {ℓ} {V : Type ℓ} where
  abbrev pub lookup : ℕ → Dict V → Option V
  lookup k [] = none
  lookup k (e ∷ rest) = if k == e.0 then some (e.1) else lookup k rest

  -- `d.get(k, default)`
  abbrev pub lookup_or : ℕ → V → Dict V → V
  lookup_or k v d = elim (lookup k d) [ none ↦ v | some w ↦ w ]

  -- `d[k] = v`
  abbrev pub insert : ℕ → V → Dict V → Dict V
  insert k v [] = (k, v) ∷ []
  insert k v (e ∷ d) = if k == e.0 then (k, v) ∷ d else e ∷ insert k v d

  -- `k in d`
  abbrev pub contains : ℕ → Dict V → Bool
  contains k d = is_some (lookup k d)

  -- `d.pop(k)`: every entry with the key, of which a dict has at most one
  abbrev pub erase : ℕ → Dict V → Dict V
  erase k [] = []
  erase k (e ∷ d) = let rest = erase k d in if k == e.0 then rest else e ∷ rest

  pub lookup-insert :
      (j k : ℕ) (v : V) (d : Dict V)
      → lookup j (insert k v d) ≡ (if j == k then some v else lookup j d)
  lookup-insert j k v [] = ground arith
  lookup-insert j k v (e ∷ d) = ground (arith, lookup-insert j k v d)

  pub lookup-erase :
      (j k : ℕ) (d : Dict V) → lookup j (erase k d) ≡ (if j == k then none else lookup j d)
  lookup-erase j k [] = ground arith
  lookup-erase j k (e ∷ d) = ground (arith, lookup-erase j k d)

module _ {ℓ} {V : Type ℓ} where
  pub lookup-insert_self : (k : ℕ) (v : V) (d : Dict V) → lookup k (insert k v d) ≡ some v
  lookup-insert_self k v d = ground (arith, lookup-insert k k v d)

  pub lookup-insert_ne :
      (j k : ℕ) (v : V) (d : Dict V) → j ≢ k → lookup j (insert k v d) ≡ lookup j d
  lookup-insert_ne j k v d h = ground (arith, lookup-insert j k v d)

  pub lookup_or-insert_self : (k : ℕ) (v w : V) (d : Dict V) → lookup_or k w (insert k v d) ≡ v
  lookup_or-insert_self k v w d = ground (arith, lookup-insert k k v d)

pub ruleset dict_laws = (lookup-insert, lookup-erase)
