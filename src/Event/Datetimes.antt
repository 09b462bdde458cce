-- ===== src/Event/Datetimes.antt =====
-- utils.parse_datetime and utils.datetimeformat: points in time as ISO 8601 texts. A text is the
-- list of its ASCII codes, and a point in time has the fields that it has in UTC. The platform
-- decides how a year before 1000 is written: such years are left out.
pub mod RoundTrip
use openleadr_python.Base.{
  ℕ, zero, suc, ◌+◌, ◌-◌, ◌*◌, ◌/◌, ◌%◌, Bool, true, false, ◌&&◌, ◌||◌, not, Option, none, some,
  List, [], ◌∷◌, ◌++◌, take, length, leb, ltb, ◌==◌, if◌then◌else◌,
}
use openleadr_python.Base.Exec.{Result, ok, raise, value_error}
use openleadr_python.Event.Durations.{is_digit, scan_digits, int_after, letter_T}

-- datetime.datetime in UTC
pub record DateTime : Type 0 where
  pub year : ℕ
  pub month : ℕ
  pub day : ℕ
  pub hour : ℕ
  pub minute : ℕ
  pub second : ℕ
  pub microsecond : ℕ

abbrev pub is_leap : ℕ → Bool
is_leap y = y % 4 == 0 && (not (y % 100 == 0) || y % 400 == 0)

abbrev pub days_in_month : ℕ → ℕ → ℕ
days_in_month y m =
    if m == 2
    then (if is_leap y then 29 else 28)
    else if (m == 4 || m == 6) || (m == 9 || m == 11)
    then 30
    else 31

-- The fields that `datetime` takes
unfoldable pub is_date : DateTime → Bool
is_date t =
    (leb 1 t.year && leb t.year 9999)
    && ((leb 1 t.month && leb t.month 12)
        && ((leb 1 t.day && leb t.day (days_in_month t.year t.month))
            && (ltb t.hour 24
                && (ltb t.minute 60 && (ltb t.second 60 && ltb t.microsecond 1000000)))))

abbrev pub letter_Z : ℕ
letter_Z = 90

abbrev pub dash : ℕ
dash = 45

abbrev pub colon : ℕ
colon = 58

abbrev pub dot : ℕ
dot = 46

abbrev pub and_some {ℓ κ} : {A : Type ℓ} {B : Type κ} → Option A → (A → Option B) → Option B
and_some none f = none
and_some (some a) f = f a

-- `\d{n}`, as a number
unfoldable pub take_digits : ℕ → ℕ → List ℕ → Option (ℕ × List ℕ)
take_digits zero acc l = some (acc, l)
take_digits (suc n) acc [] = none
take_digits (suc n) acc (c ∷ l) =
    let rest = take_digits n (acc * 10 + (c - 48)) l in if is_digit c then rest else none

-- One character
abbrev pub expect : ℕ → ℕ × List ℕ → Option (ℕ × List ℕ)
expect c (n, []) = none
expect c (n, d ∷ l) = if d == c then some (n, l) else none

abbrev pub field : ℕ → ℕ → List ℕ → Option (ℕ × List ℕ)
field digits after l = and_some (take_digits digits 0 l) (expect after)

abbrev pub zeros : ℕ → List ℕ
zeros zero = []
zeros (suc n) = 48 ∷ zeros n

-- `int(micro + "0" * (6 - len(micro)))`; the group takes six digits at most
abbrev pub micro_of : List ℕ → ℕ
micro_of l = int_after 0 (take 6 l ++ zeros (6 - length (take 6 l)))

abbrev pub skip_dot : List ℕ → List ℕ
skip_dot [] = []
skip_dot (c ∷ l) = if c == dot then l else c ∷ l

-- `\.?(\d{1,6})?\d*Z`
abbrev pub ended : List ℕ × List ℕ → Option ℕ
ended (ds, []) = none
ended (ds, c ∷ l) = if c == letter_Z then some (micro_of ds) else none

unfoldable pub fraction : List ℕ → Option ℕ
unfolding scan_digits int_after
fraction l = ended (scan_digits (skip_dot l))

unfoldable pub read_datetime : List ℕ → Option DateTime
unfolding take_digits fraction
read_datetime l = and_some (field 4 dash l) (λ y. and_some (field 2 dash y.1) (λ mo.
    and_some (field 2 letter_T mo.1) (λ d. and_some (field 2 colon d.1) (λ h.
      and_some (field 2 colon h.1) (λ mi. and_some (take_digits 2 0 mi.1) (λ s.
        and_some (fraction s.1) (λ micro. some (record {
          year = y.0;
          month = mo.0;
          day = d.0;
          hour = h.0;
          minute = mi.0;
          second = s.0;
          microsecond = micro;
        }))))))))

-- A text that does not match is returned as it is.
pub data Parsed : Type 0 where
  moment : DateTime → Parsed
  unparsed : List ℕ → Parsed

abbrev pub make_datetime : DateTime → Result Parsed
make_datetime t = if is_date t then ok (moment t) else raise value_error

abbrev pub parsed_or : List ℕ → Option DateTime → Result Parsed
parsed_or l none = ok (unparsed l)
parsed_or l (some t) = make_datetime t

unfoldable pub parse_datetime : List ℕ → Result Parsed
unfolding read_datetime is_date
parse_datetime l = parsed_or l (read_datetime l)

-- A number with so many digits, zeros in front
unfoldable pub padded : ℕ → ℕ → List ℕ → List ℕ
padded zero n t = t
padded (suc k) n t = padded k (n / 10) ((48 + n % 10) ∷ t)

-- `%Y-%m-%dT%H:%M:%S.%fZ`, in front of nothing
unfoldable pub datetimeformat : DateTime → List ℕ
unfolding padded
datetimeformat t = padded 4 t.year (
    dash
    ∷ padded 2 t.month (
        dash
        ∷ padded 2 t.day (
            letter_T
            ∷ padded 2 t.hour (
                colon
                ∷ padded 2 t.minute
                    (colon ∷ padded 2 t.second (dot ∷ padded 6 t.microsecond (letter_Z ∷ [])))))))
