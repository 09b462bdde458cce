-- ===== src/Tests/Durations.antt =====
-- Durations and points in time as texts, at concrete inputs.
use openleadr_python.Base.{◌≡◌, refl, [], ◌∷◌, arith}
use openleadr_python.Base.Int.{pos}
use openleadr_python.Base.Exec.{ok, raise, value_error}
use openleadr_python.Event.Durations.{
  TimeDelta, parse_duration, timedeltaformat, count_seconds, optional_group, scan_digits, int_after,
  digits_of, letter_D, letter_H, letter_P, letter_S, letter_T, letter_W,
}
use openleadr_python.Event.Datetimes.{
  DateTime, moment, parse_datetime, read_datetime, take_digits, fraction, datetimeformat, is_date,
  letter_Z,
}
use openleadr_python.Event.Datetimes.RoundTrip.{parse_datetime-datetimeformat}
use openleadr_python.Event.Durations.RoundTrip.{read_back, parse_duration-timedeltaformat}

-- A day, an hour and a second; the same before a day less.
abbrev one_day : TimeDelta
one_day = record { days = pos 1; seconds = 3601; microseconds = 7 }

one_day-text :
    timedeltaformat one_day
    ≡ letter_P ∷ 49 ∷ letter_D ∷ letter_T ∷ 49 ∷ letter_H ∷ 49 ∷ letter_S ∷ []
one_day-text = unfold timedeltaformat digits_of in refl

-- `P2W` is read as no time at all, where `2W` is two weeks.
weeks_lost :
    parse_duration (letter_P ∷ 50 ∷ letter_W ∷ [])
    ≡ ok (record { days = pos 0; seconds = 0; microseconds = 0 })
weeks_lost = unfold parse_duration count_seconds optional_group scan_digits int_after in refl

weeks_found :
    parse_duration (50 ∷ letter_W ∷ [])
    ≡ ok (record { days = pos 14; seconds = 0; microseconds = 0 })
weeks_found = unfold parse_duration scan_digits int_after in refl

not_a_duration : parse_duration (letter_T ∷ []) ≡ raise value_error
not_a_duration = unfold parse_duration scan_digits in refl

parse_duration-timedeltaformat_example :
    parse_duration (timedeltaformat one_day) ≡ ok (read_back (pos 1) 3601)
parse_duration-timedeltaformat_example =
    parse_duration-timedeltaformat one_day
      (record { less_than_a_day = omega arith; within_range = omega arith })

-- 2024-02-29T23:59:01.000250Z
abbrev leap_day : DateTime
leap_day = record {
  year = 2024;
  month = 2;
  day = 29;
  hour = 23;
  minute = 59;
  second = 1;
  microsecond = 250;
}

-- `2024-02-29T23:59:01.00025Z`, with five digits behind the dot
leap_day_read :
    parse_datetime (
      50 ∷ 48 ∷ 50 ∷ 52 ∷ 45 ∷ 48 ∷ 50 ∷ 45 ∷ 50 ∷ 57 ∷ letter_T ∷ 50 ∷ 51 ∷ 58 ∷ 53 ∷ 57 ∷ 58 ∷ 48
      ∷ 49 ∷ 46 ∷ 48 ∷ 48 ∷ 48 ∷ 50 ∷ 53 ∷ letter_Z ∷ [])
    ≡ ok (moment leap_day)
leap_day_read =
    unfold parse_datetime read_datetime take_digits fraction scan_digits int_after is_date in refl

parse_datetime-datetimeformat_example :
    parse_datetime (datetimeformat leap_day) ≡ ok (moment leap_day)
parse_datetime-datetimeformat_example =
    parse_datetime-datetimeformat leap_day (omega arith) (unfold is_date in refl)
