-- ===== src/Event/Datetimes/RoundTrip.antt =====
-- A point in time that is written out is read back.
use openleadr_python.Base.{
  ℕ, ◌+◌, ◌/◌, ◌%◌, ◌≤◌, ◌<◌, ◌≡◌, refl, ap, ◌∙◌, true, Option, some, List, [], ◌∷◌, arith,
  if◌then◌else◌,
}
use openleadr_python.Base.Exec.{ok, raise, value_error}
use openleadr_python.Event.Durations.{is_digit, scan_digits, int_after, letter_T}
use openleadr_python.Event.Datetimes.{
  DateTime, is_date, dash, colon, dot, letter_Z, take_digits, expect, field, micro_of, ended,
  fraction, read_datetime, moment, parsed_or, parse_datetime, padded, datetimeformat, and_some,
}

take_two : (n : ℕ) (t : List ℕ) → n < 100 → take_digits 2 0 (padded 2 n t) ≡ some (n, t)
unfolding take_digits padded
take_two n t h = ground arith

take_four : (n : ℕ) (t : List ℕ) → n < 10000 → take_digits 4 0 (padded 4 n t) ≡ some (n, t)
unfolding take_digits padded
take_four n t h = ground arith

digit : (n : ℕ) → is_digit (48 + n % 10) ≡ true
digit n = ground arith

scan_digit :
    (n : ℕ) (l ds rest : List ℕ)
    → scan_digits l ≡ (ds, rest)
    → scan_digits ((48 + n % 10) ∷ l) ≡ ((48 + n % 10) ∷ ds, rest)
unfolding scan_digits
scan_digit n l ds rest h =
    ap
      (λ b.
        if b
        then ((48 + n % 10) ∷ (scan_digits l).0, (scan_digits l).1)
        else ([], (48 + n % 10) ∷ l))
      (digit n)
    ∙ ap (λ r. ((48 + n % 10) ∷ r.0, r.1)) h

-- The digits in front of the last letter
scan_six : (n : ℕ) → scan_digits (padded 6 n (letter_Z ∷ [])) ≡ (padded 6 n [], letter_Z ∷ [])
unfolding padded
scan_six n = scan_digit (n / 10 / 10 / 10 / 10 / 10) _ _ _ (
    scan_digit (n / 10 / 10 / 10 / 10) _ _ _ (
      scan_digit (n / 10 / 10 / 10) _ _ _
        (scan_digit (n / 10 / 10) _ _ _ (scan_digit (n / 10) _ _ _ (scan_digit n _ _ _ last)))))
  where
    last : scan_digits (letter_Z ∷ []) ≡ ([], letter_Z ∷ [])
    last = unfold scan_digits in refl

micro_of-padded : (n : ℕ) → n < 1000000 → micro_of (padded 6 n []) ≡ n
unfolding int_after padded
micro_of-padded n h = omega arith

fraction-padded : (n : ℕ) → n < 1000000 → fraction (dot ∷ padded 6 n (letter_Z ∷ [])) ≡ some n
unfolding fraction
fraction-padded n h = ap ended (scan_six n) ∙ ap some (micro_of-padded n h)

field_two : (n c : ℕ) (t : List ℕ) → n < 100 → field 2 c (padded 2 n (c ∷ t)) ≡ some (n, t)
field_two n c t h = ap (λ o. and_some o (expect c)) (take_two n (c ∷ t) h) ∙ ground arith

field_four : (n c : ℕ) (t : List ℕ) → n < 10000 → field 4 c (padded 4 n (c ∷ t)) ≡ some (n, t)
field_four n c t h = ap (λ o. and_some o (expect c)) (take_four n (c ∷ t) h) ∙ ground arith

step {ℓ κ} :
    {A : Type ℓ} {B : Type κ} {o : Option A} {a : A} (f : A → Option B)
    → o ≡ some a
    → and_some o f ≡ f a
step f h = ap (λ o. and_some o f) h

-- The fields fit into the digits that they are written with.
record IsNarrow (t : DateTime) : Type 0 where
  pub year : t.year < 10000
  pub month : t.month < 100
  pub day : t.day < 100
  pub hour : t.hour < 100
  pub minute : t.minute < 100
  pub second : t.second < 100
  pub microsecond : t.microsecond < 1000000

is_date-IsNarrow : (t : DateTime) → is_date t ≡ true → IsNarrow t
unfolding is_date
is_date-IsNarrow t h = record {
  year = ground (arith, h);
  month = ground (arith, h);
  day = ground (arith, h);
  hour = ground (arith, h);
  minute = ground (arith, h);
  second = ground (arith, h);
  microsecond = ground (arith, h);
}

read_datetime-datetimeformat :
    (t : DateTime) → IsNarrow t → read_datetime (datetimeformat t) ≡ some t
unfolding read_datetime datetimeformat
read_datetime-datetimeformat t h =
    step _ (field_four t.year dash _ h.year)
    ∙ step _ (field_two t.month dash _ h.month)
    ∙ step _ (field_two t.day letter_T _ h.day)
    ∙ step _ (field_two t.hour colon _ h.hour)
    ∙ step _ (field_two t.minute colon _ h.minute)
    ∙ step _ (take_two t.second _ h.second)
    ∙ step _ (fraction-padded t.microsecond h.microsecond)

-- A point in time is read back as it was written, from the year 1000 on.
pub parse_datetime-datetimeformat :
    (t : DateTime)
    → 1000 ≤ t.year
    → is_date t ≡ true
    → parse_datetime (datetimeformat t) ≡ ok (moment t)
unfolding parse_datetime
parse_datetime-datetimeformat t y h =
    ap (parsed_or (datetimeformat t)) (read_datetime-datetimeformat t (is_date-IsNarrow t h))
    ∙ ap (λ b. if b then ok (moment t) else raise value_error) h
