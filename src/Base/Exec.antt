-- ===== src/Base/Exec.antt =====
-- Methods that change an object and may raise. What was written before a raise stays written, so
-- the object comes back beside the exception too.
use mathlib.Core.Path.{◌≡◌, refl}
use mathlib.Core.Logic.{◌⊎◌, inl, inr}
use mathlib.Core.List.{List, [], ◌∷◌}
use mathlib.Core.Option.{Option, none, some}
use native.Mathlib.Omega.{arith}

-- The exceptions that the modelled code raises: Python's, those of openleadr/errors.py, and
-- `InvalidSignature` of the signature library.
pub data Error : Type 0 where
  type_error key_error value_error index_error name_error attribute_error overflow_error : Error
  invalid_id not_registered fingerprint_mismatch invalid_signature : Error

pub data Result {ℓ} (A : Type ℓ) : Type ℓ where
  ok : A → Result A
  raise : Error → Result A

abbrev pub Exec {ℓ κ} : Type ℓ → Type κ → Type (ℓ ⊔ κ)
Exec S A = S → Result A × S

module _ {ℓ κ} {S : Type ℓ} {A : Type κ} where
  abbrev pub pure : A → Exec S A
  pure a s = (ok a, s)

  abbrev pub throw : Error → Exec S A
  throw e s = (raise e, s)

  abbrev pub gets : (S → A) → Exec S A
  gets f s = (ok (f s), s)

  -- `d[k]` on a missing key, and the like
  abbrev pub or_throw : Error → Option A → Exec S A
  or_throw e none s = (raise e, s)
  or_throw e (some a) s = (ok a, s)

  abbrev pub lift : Result A → Exec S A
  lift r s = (r, s)

abbrev pub modify {ℓ} : {S : Type ℓ} → (S → S) → Exec S (Unit {0})
modify f s = (ok tt, f s)

abbrev pub continue {ℓ κ μ} :
    {S : Type ℓ} {A : Type κ} {B : Type μ} → Result A × S → (A → Exec S B) → Result B × S
continue (ok a, t) f = f a t
continue (raise e, t) f = (raise e, t)

infixl 5 ◌>>=◌ ◌>>◌
abbrev pub ◌>>=◌ {ℓ κ μ} :
    {S : Type ℓ} {A : Type κ} {B : Type μ} → Exec S A → (A → Exec S B) → Exec S B
◌>>=◌ m f s = continue (m s) f

abbrev pub ◌>>◌ {ℓ κ} : {S : Type ℓ} {B : Type κ} → Exec S (Unit {0}) → Exec S B → Exec S B
m >> k = m >>= λ _. k

-- `for x in l: body(x)`
abbrev pub for_each {ℓ κ} :
    {S : Type ℓ} {A : Type κ} → (A → Exec S (Unit {0})) → List A → Exec S (Unit {0})
for_each body [] s = (ok tt, s)
for_each body (x ∷ xs) s = (body x >> for_each body xs) s

pub Result-cases {ℓ} :
    {A : Type ℓ} (r : Result A) → ((a : A) × (r ≡ ok a)) ⊎ ((e : Error) × (r ≡ raise e))
Result-cases (ok a) = inl (a, refl)
Result-cases (raise e) = inr (e, refl)

-- An exception of the first action is that of the two.
pub continue-raise {ℓ κ μ} :
    {S : Type ℓ} {A : Type κ} {B : Type μ} (x : Result A × S) (f : A → Exec S B) (e : Error)
    → x.0 ≡ raise e
    → (continue x f).0 ≡ raise e
continue-raise (ok a, t) f e h = absurd (ground arith)
continue-raise (raise y, t) f e h = cc

-- The action keeps a predicate of the state, whether it returns or raises.
abbrev pub Keeps {ℓ κ μ} : {S : Type ℓ} {A : Type κ} → (S → Type μ) → Exec S A → Type (ℓ ⊔ μ)
Keeps {S} P m = (s : S) → P s → P (m s).1

module _ {ℓ κ μ} {S : Type ℓ} {A : Type κ} (P : S → Type μ) where
  continue_keeps {ν} :
      {B : Type ν} (x : Result A × S) (f : A → Exec S B)
      → P x.1
      → ((a : A) → Keeps P (f a))
      → P (continue x f).1
  continue_keeps (ok a, t) f h k = k a t h
  continue_keeps (raise e, t) f h k = h

  pub bind-Keeps {ν} :
      {B : Type ν} (m : Exec S A) (f : A → Exec S B)
      → Keeps P m
      → ((a : A) → Keeps P (f a))
      → Keeps P (m >>= f)
  bind-Keeps m f hm hf s h = continue_keeps (m s) f (hm s h) hf

  pub or_throw-Keeps : (e : Error) (o : Option A) → Keeps P (or_throw e o)
  or_throw-Keeps e none s h = h
  or_throw-Keeps e (some a) s h = h

module _ {ℓ κ μ} {S : Type ℓ} {A : Type κ} (P : S → Type μ) where
  pub for_each-Keeps :
      (body : A → Exec S (Unit {0})) (l : List A)
      → ((a : A) → Keeps P (body a))
      → Keeps P (for_each body l)
  for_each-Keeps body [] k s h = h
  for_each-Keeps body (x ∷ xs) k s h =
      bind-Keeps P (body x) (λ _. for_each body xs) (k x) (λ _. for_each-Keeps body xs k) s h
