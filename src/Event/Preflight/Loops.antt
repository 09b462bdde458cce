-- ===== src/Event/Preflight/Loops.antt =====
-- What loops that may raise make of the elements of a list.
use openleadr_python.Base.{◌≡◌, refl, ap, subst, ◌∙◌, List, [], ◌∷◌, map, All, arith}
use openleadr_python.Base.Exec.{Result, ok, raise}
use openleadr_python.Event.Preflight.{and_then, each}

pub and_then_ok {ℓ κ} :
    {A : Type ℓ} {B : Type κ} (r : Result A) (f : A → Result B) (b : B)
    → and_then r f ≡ ok b
    → (a : A) × (r ≡ ok a) × (f a ≡ ok b)
and_then_ok (ok a) f b h = (a, refl, h)
and_then_ok (raise e) f b h = absurd (ground (arith, h))

pub ok-inj {ℓ} : {A : Type ℓ} {a b : A} → ok a ≡ ok b → a ≡ b
ok-inj h = cc

-- What holds of each element that a loop makes.
pub each-All {ℓ κ μ} :
    {A : Type ℓ} (P : A → Type κ) (Q : A → Type μ) (f : A → Result A)
    → ((x y : A) → P x → f x ≡ ok y → Q y)
    → (l m : List A) → All P l
    → each f l ≡ ok m
    → All Q m
each-All P Q f step [] m p h = subst (All Q) (ok-inj h) tt
each-All P Q f step (x ∷ l) m p h =
    let (y, hy, rest) = and_then_ok (f x) (λ y. and_then (each f l) (λ n. ok (y ∷ n))) m h in
    let (n, hn, last) = and_then_ok (each f l) (λ n. ok (y ∷ n)) m rest in
    subst (All Q) (ok-inj last) (step x y (p.0) hy, each-All P Q f step l n (p.1) hn)

pub map-All {ℓ κ μ} :
    {A : Type ℓ} (P : A → Type κ) (Q : A → Type μ) (f : A → A)
    → ((x : A) → P x → Q (f x))
    → (l : List A) → All P l
    → All Q (map f l)
map-All P Q f step [] p = tt
map-All P Q f step (x ∷ l) p = (step x (p.0), map-All P Q f step l (p.1))

pub trivial {ℓ} : {A : Type ℓ} (l : List A) → All (λ _. Unit {0}) l
trivial [] = tt
trivial (x ∷ l) = (tt, trivial l)

pub each_fixed {ℓ κ} :
    {A : Type ℓ} (P : A → Type κ) (f : A → Result A)
    → ((x : A) → P x → f x ≡ ok x)
    → (l : List A) → All P l
    → each f l ≡ ok l
each_fixed P f fixed [] p = refl
each_fixed P f fixed (x ∷ l) p =
    ap (λ r. and_then r (λ y. and_then (each f l) (λ m. ok (y ∷ m)))) (fixed x (p.0))
    ∙ ap (λ r. and_then r (λ m. ok (x ∷ m))) (each_fixed P f fixed l (p.1))
