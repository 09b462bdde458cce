-- ===== src/Event/Durations.antt =====
-- utils.parse_duration and utils.timedeltaformat: durations as RFC 5545 texts. A text is the list
-- of its ASCII codes.
pub mod Groups
pub mod RoundTrip
use openleadr_python.Base.{
  ℕ, zero, suc, ◌+◌, ◌-◌, ◌*◌, ◌/◌, ◌%◌, Bool, true, false, ◌&&◌, ◌||◌, not, Option, none, some,
  List, [], ◌∷◌, ◌++◌, leb, ltb, ◌==◌, if◌then◌else◌,
}
use openleadr_python.Base.Int.{ℤ, pos, negsuc, sub_ℕ}
use openleadr_python.Base.Exec.{Result, ok, raise, value_error, overflow_error}

-- datetime.timedelta, as it is kept: only the days are ever negative.
pub record TimeDelta : Type 0 where
  pub days : ℤ
  pub seconds : ℕ
  pub microseconds : ℕ

abbrev pub plus_sign : ℕ
plus_sign = 43

abbrev pub minus_sign : ℕ
minus_sign = 45

abbrev pub letter_D : ℕ
letter_D = 68

abbrev pub letter_H : ℕ
letter_H = 72

abbrev pub letter_M : ℕ
letter_M = 77

abbrev pub letter_P : ℕ
letter_P = 80

abbrev pub letter_S : ℕ
letter_S = 83

abbrev pub letter_T : ℕ
letter_T = 84

abbrev pub letter_W : ℕ
letter_W = 87

abbrev pub letter_Y : ℕ
letter_Y = 89

abbrev pub is_digit : ℕ → Bool
is_digit c = leb 48 c && leb c 57

-- `\d*`, and what comes after it
unfoldable pub scan_digits : List ℕ → List ℕ × List ℕ
scan_digits [] = ([], [])
scan_digits (c ∷ l) =
    let rest = scan_digits l in if is_digit c then (c ∷ rest.0, rest.1) else ([], c ∷ l)

-- `int` of some digits that come after others
unfoldable pub int_after : ℕ → List ℕ → ℕ
int_after n [] = n
int_after n (c ∷ l) = int_after (n * 10 + (c - 48)) l

-- `(?:(\d+)u)?`, as an int: a group that is not there counts 0.
abbrev pub closed : ℕ → List ℕ → List ℕ × List ℕ → ℕ × List ℕ
closed u l (d ∷ ds, c ∷ rest) = if c == u then (int_after 0 (d ∷ ds), rest) else (0, l)
closed u l (_, _) = (0, l)

unfoldable pub optional_group : ℕ → List ℕ → ℕ × List ℕ
unfolding scan_digits int_after
optional_group u l = closed u l (scan_digits l)

-- `T?`
abbrev pub skip_T : List ℕ → List ℕ
skip_T [] = []
skip_T (c ∷ l) = if c == letter_T then l else c ∷ l

-- `datetime.timedelta` holds at most 999999999 days.
abbrev pub max_days : ℕ
max_days = 999999999

abbrev pub timedelta_of : ℕ → Result TimeDelta
timedelta_of n =
    if leb (n / 86400) max_days
    then ok (record { days = pos (n / 86400); seconds = n % 86400; microseconds = 0 })
    else raise overflow_error

-- `-1 * duration` for so many seconds
abbrev pub negative_of : ℕ → Result TimeDelta
negative_of n =
    if leb n (max_days * 86400)
    then (if n % 86400 == 0
        then ok (record { days = sub_ℕ 0 (n / 86400); seconds = 0; microseconds = 0 })
        else ok
            (record { days = negsuc (n / 86400); seconds = 86400 - n % 86400; microseconds = 0 }))
    else raise overflow_error

-- The seconds that follow the `P`. The pattern need not reach the end of the text.
unfoldable pub count_seconds : List ℕ → ℕ
unfolding optional_group
count_seconds l =
    let (years, l1) = optional_group letter_Y l in
    let (months, l2) = optional_group letter_M l1 in
    let (days, l3) = optional_group letter_D l2 in
    let (hours, l4) = optional_group letter_H (skip_T l3) in
    let (minutes, l5) = optional_group letter_M l4 in
    let (seconds, l6) = optional_group letter_S l5 in
    (days + 365 * years + 30 * months) * 86400 + hours * 3600 + minutes * 60 + seconds

-- A text that is no `P…` may still be a number of weeks, `(\d+)W`.
abbrev pub weeks_of : List ℕ × List ℕ → Result TimeDelta
weeks_of (d ∷ ds, c ∷ rest) =
    if c == letter_W then timedelta_of (int_after 0 (d ∷ ds) * 604800) else raise value_error
weeks_of (_, _) = raise value_error

abbrev pub starts_with_P : List ℕ → Bool
starts_with_P [] = false
starts_with_P (c ∷ l) = c == letter_P

abbrev pub tail : List ℕ → List ℕ
tail [] = []
tail (c ∷ l) = l

unfoldable pub parse_duration : List ℕ → Result TimeDelta
unfolding count_seconds scan_digits int_after
parse_duration [] = raise value_error
parse_duration (c ∷ l) =
    if c == letter_P
    then timedelta_of (count_seconds l)
    else if c == plus_sign && starts_with_P l
    then timedelta_of (count_seconds (tail l))
    else if c == minus_sign && starts_with_P l
    then negative_of (count_seconds (tail l))
    else weeks_of (scan_digits (c ∷ l))

-- The decimal digits of a number; `suc n` is fuel enough for `n`.
unfoldable pub digits_of : ℕ → ℕ → List ℕ
digits_of zero n = []
digits_of (suc fuel) n =
    let rest = digits_of fuel (n / 10) in
    if ltb n 10 then (48 + n) ∷ [] else rest ++ (48 + n % 10) ∷ []

abbrev pub decimal : ℕ → List ℕ
decimal n = digits_of (suc n) n

-- `f"{days}"`
abbrev pub decimal_ℤ : ℤ → List ℕ
decimal_ℤ (pos n) = decimal n
decimal_ℤ (negsuc n) = minus_sign ∷ decimal (suc n)

abbrev pub is_zero : ℤ → Bool
is_zero (pos zero) = true
is_zero (pos (suc n)) = false
is_zero (negsuc n) = false

-- `if n: formatted += f"{n}u"`
abbrev pub format_part : ℕ → ℕ → List ℕ
format_part u n = if n == 0 then [] else decimal n ++ u ∷ []

abbrev pub format_days : ℤ → List ℕ
format_days d = if is_zero d then [] else decimal_ℤ d ++ letter_D ∷ []

-- `divmod(value.seconds, 3600)` and `divmod(seconds, 60)`
abbrev pub format_time : ℕ → List ℕ
format_time seconds =
    let hours = seconds / 3600 in
    let minutes = seconds % 3600 / 60 in
    let rest = seconds % 3600 % 60 in
    (if hours == 0 && (minutes == 0 && rest == 0) then [] else letter_T ∷ [])
    ++ (format_part letter_H hours ++ (format_part letter_M minutes ++ format_part letter_S rest))

-- A plain `P` becomes `PT0M`.
abbrev pub zero_minutes : List ℕ → List ℕ
zero_minutes [] = letter_T ∷ 48 ∷ letter_M ∷ []
zero_minutes (c ∷ l) = c ∷ l

unfoldable pub timedeltaformat : TimeDelta → List ℕ
unfolding digits_of
timedeltaformat d = letter_P ∷ zero_minutes (format_days d.days ++ format_time d.seconds)
