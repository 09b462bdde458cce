-- ===== src/Event/Durations/Groups.antt =====
-- The numbers of a duration's text: how they are written, and which group of the pattern takes
-- them.
use openleadr_python.Base.{
  ℕ, zero, suc, ◌+◌, ◌-◌, ◌*◌, ◌/◌, ◌%◌, ◌<◌, ◌≡◌, refl, sym, ap, ◌∙◌, inl, inr, true, false, List,
  [], ◌∷◌, ◌++◌, arith, All, All-append, Bool-cases, ◌==◌, ==_iff, ltb, if◌then◌else◌,
}
use openleadr_python.Event.Durations.{
  is_digit, scan_digits, int_after, optional_group, closed, digits_of, decimal,
}

abbrev IsDigits : List ℕ → Type 0
IsDigits = All (λ c. is_digit c ≡ true)

digits_of-IsDigits : (fuel n : ℕ) → IsDigits (digits_of fuel n)
unfolding digits_of
digits_of-IsDigits zero n = tt
digits_of-IsDigits (suc fuel) n = elim (Bool-cases (ltb n 10)) [
  | inl h ↦ rw h (ground arith, tt)
  | inr h ↦ rw h (
      All-append (λ c. is_digit c ≡ true) (digits_of fuel (n / 10)) ((48 + n % 10) ∷ [])
        (digits_of-IsDigits fuel (n / 10)) (ground arith, tt))
]

int_after-append : (a : ℕ) (l m : List ℕ) → int_after a (l ++ m) ≡ int_after (int_after a l) m
unfolding int_after
int_after-append a [] m = refl
int_after-append a (c ∷ l) m = int_after-append (a * 10 + (c - 48)) l m

int_after-digits_of : (fuel n : ℕ) → n < fuel → int_after 0 (digits_of fuel n) ≡ n
unfolding digits_of int_after
int_after-digits_of zero n h = absurd (omega arith)
int_after-digits_of (suc fuel) n h = elim (Bool-cases (ltb n 10)) [
  | inl k ↦ rw k (ground arith)
  | inr k ↦ rw k (
      int_after-append 0 (digits_of fuel (n / 10)) ((48 + n % 10) ∷ [])
      ∙ ground (arith, int_after-digits_of fuel (n / 10) (ground arith)))
]

scan_digits-append :
    (l t : List ℕ) (c : ℕ) → IsDigits l → is_digit c ≡ false → scan_digits (l ++ c ∷ t) ≡ (l, c ∷ t)
unfolding scan_digits
scan_digits-append [] t c h k = ground arith
scan_digits-append (d ∷ l) t c h k = ground (arith, scan_digits-append l t c h.1 k)

nonempty_append : (l : List ℕ) (c : ℕ) → (d : ℕ) × (ds : List ℕ) × (l ++ c ∷ [] ≡ d ∷ ds)
nonempty_append [] c = (c, [], refl)
nonempty_append (d ∷ l) c = (d, l ++ c ∷ [], refl)

decimal_nonempty : (n : ℕ) → (d : ℕ) × (ds : List ℕ) × (decimal n ≡ d ∷ ds)
unfolding digits_of
decimal_nonempty n = elim (Bool-cases (ltb n 10)) [
  | inl h ↦ (48 + n, [], rw h refl)
  | inr h ↦ let (d, ds, e) = nonempty_append (digits_of n (n / 10)) (48 + n % 10) in (d, ds, rw h e)
]

-- A group that finds no number with its letter takes nothing.
abbrev pub Skips : ℕ → List ℕ → Type 0
Skips u l = optional_group u l ≡ (0, l)

-- A part of the text, before the rest of it.
abbrev pub part : ℕ → ℕ → List ℕ → List ℕ
part u n t = if n == 0 then t else decimal n ++ u ∷ t

scan_decimal :
    (u n : ℕ) (t : List ℕ)
    → is_digit u ≡ false
    → scan_digits (decimal n ++ u ∷ t) ≡ (decimal n, u ∷ t)
scan_decimal u n t h = scan_digits-append (decimal n) t u (digits_of-IsDigits (suc n) n) h

-- A number with a letter is taken by the group of that letter only.
group_decimal :
    (u w n : ℕ) (t : List ℕ)
    → is_digit w ≡ false
    → optional_group u (decimal n ++ w ∷ t) ≡ (if w == u then (n, t) else (0, decimal n ++ w ∷ t))
unfolding optional_group
group_decimal u w n t h =
    let (d, ds, e) = decimal_nonempty n in
    ap (closed u (decimal n ++ w ∷ t)) (scan_decimal w n t h)
    ∙ ap (λ q. closed u (decimal n ++ w ∷ t) (q, w ∷ t)) e
    ∙ ap (λ k. if w == u then (k, t) else (0, decimal n ++ w ∷ t))
        (ap (int_after 0) (sym e) ∙ int_after-digits_of (suc n) n (omega arith))

pub end-Skips : (u : ℕ) → Skips u []
unfolding optional_group scan_digits
end-Skips u = refl

pub letter-Skips : (u c : ℕ) (t : List ℕ) → is_digit c ≡ false → Skips u (c ∷ t)
unfolding optional_group scan_digits
letter-Skips u c t h = ground arith

pub part-Skips :
    (u w n : ℕ) (t : List ℕ)
    → is_digit w ≡ false
    → (w == u) ≡ false
    → Skips u t
    → Skips u (part w n t)
part-Skips u w n t h ne s = elim (Bool-cases (n == 0)) [
  | inl k ↦ rw k s
  | inr k ↦
      rw k (group_decimal u w n t h ∙ ap (λ b. if b then (n, t) else (0, decimal n ++ w ∷ t)) ne)
]

pub takes_part :
    (u n : ℕ) (t : List ℕ) → is_digit u ≡ false → Skips u t → optional_group u (part u n t) ≡ (n, t)
takes_part u n t h s = elim (Bool-cases (n == 0)) [
  | inl k ↦ rw (k, (==_iff n 0).0 k) s
  | inr k ↦ rw k (
      group_decimal u u n t h
      ∙ ap (λ b. if b then (n, t) else (0, decimal n ++ u ∷ t)) ((==_iff u u).1 refl))
]
