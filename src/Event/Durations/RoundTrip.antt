-- ===== src/Event/Durations/RoundTrip.antt =====
-- A duration that is written out is read back.
use mathlib.Core.List.{append_assoc, append-nil}
use openleadr_python.Base.{
  ℕ, zero, suc, ◌+◌, ◌*◌, ◌/◌, ◌%◌, ◌≤◌, ◌<◌, ◌≡◌, refl, sym, ap, ◌∙◌, inl, inr, false, ◌&&◌, List,
  [], ◌∷◌, ◌++◌, arith, Bool-cases, ◌==◌, ==_iff,
}
use openleadr_python.Base.Int.{ℤ, pos, negsuc, pos_part}
use openleadr_python.Base.Exec.{ok}
use openleadr_python.Event.Durations.{
  TimeDelta, scan_digits, int_after, optional_group, skip_T, count_seconds, timedelta_of,
  minus_sign, parse_duration, max_days, decimal, format_part, format_days, format_time,
  zero_minutes, timedeltaformat, letter_D, letter_H, letter_M, letter_S, letter_T, letter_Y,
}
use openleadr_python.Event.Durations.Groups.{
  Skips, part, end-Skips, letter-Skips, part-Skips, takes_part,
}

-- Neither years nor months are written.
count_seconds_by :
    (l l3 l4 l5 l6 : List ℕ) (days hours minutes seconds : ℕ)
    → Skips letter_Y l
    → Skips letter_M l
    → optional_group letter_D l ≡ (days, l3)
    → optional_group letter_H (skip_T l3) ≡ (hours, l4)
    → optional_group letter_M l4 ≡ (minutes, l5)
    → optional_group letter_S l5 ≡ (seconds, l6)
    → count_seconds l ≡ days * 86400 + hours * 3600 + minutes * 60 + seconds
unfolding count_seconds
count_seconds_by l l3 l4 l5 l6 days hours minutes seconds y mo d h mi s =
    rw (y, mo, d, h, mi, s) (omega arith)

-- The hours, minutes and seconds that are not 0.
abbrev time_parts : ℕ → ℕ → ℕ → List ℕ
time_parts h m s = part letter_H h (part letter_M m (part letter_S s []))

seconds-Skips : (u s : ℕ) → (letter_S == u) ≡ false → Skips u (part letter_S s [])
seconds-Skips u s ne = part-Skips u letter_S s [] refl ne (end-Skips u)

minutes-Skips :
    (u m s : ℕ)
    → (letter_S == u) ≡ false
    → (letter_M == u) ≡ false
    → Skips u (part letter_M m (part letter_S s []))
minutes-Skips u m s a b = part-Skips u letter_M m (part letter_S s []) refl b (seconds-Skips u s a)

-- What is written of a duration with hours, minutes or seconds is read back.
count_timed :
    (d h m s : ℕ)
    → count_seconds (part letter_D d (letter_T ∷ time_parts h m s))
      ≡ d * 86400 + h * 3600 + m * 60 + s
count_timed d h m s =
    count_seconds_by (part letter_D d (letter_T ∷ time_parts h m s)) (letter_T ∷ time_parts h m s)
      (part letter_M m (part letter_S s [])) (part letter_S s []) [] d h m s
      (skips_days letter_Y refl) (skips_days letter_M refl)
      (takes_part letter_D d (letter_T ∷ time_parts h m s) refl
        (letter-Skips letter_D letter_T _ refl))
      (takes_part letter_H h _ refl (minutes-Skips letter_H m s refl refl))
      (takes_part letter_M m _ refl (seconds-Skips letter_M s refl))
      (takes_part letter_S s [] refl (end-Skips letter_S))
  where
    skips_days :
        (u : ℕ) → (letter_D == u) ≡ false → Skips u (part letter_D d (letter_T ∷ time_parts h m s))
    skips_days u ne = part-Skips u letter_D d _ refl ne (letter-Skips u letter_T _ refl)

-- And so are whole days.
count_days : (d : ℕ) → count_seconds (part letter_D d []) ≡ d * 86400
count_days d =
    count_seconds_by (part letter_D d []) [] [] [] [] d 0 0 0
      (part-Skips letter_Y letter_D d [] refl refl (end-Skips letter_Y))
      (part-Skips letter_M letter_D d [] refl refl (end-Skips letter_M))
      (takes_part letter_D d [] refl (end-Skips letter_D)) (end-Skips letter_H) (end-Skips letter_M)
      (end-Skips letter_S)
    ∙ omega arith

part-append : (u n : ℕ) (t : List ℕ) → format_part u n ++ t ≡ part u n t
part-append u n t = elim (Bool-cases (n == 0)) [
  | inl k ↦ rw k refl
  | inr k ↦ rw k (append_assoc (decimal n) (u ∷ []) t)
]

zero_minutes-append : (l t : List ℕ) (c : ℕ) → zero_minutes (l ++ c ∷ t) ≡ l ++ c ∷ t
zero_minutes-append [] t c = refl
zero_minutes-append (d ∷ l) t c = refl

format_days-pos : (n : ℕ) → format_days (pos n) ≡ format_part letter_D n
format_days-pos zero = refl
format_days-pos (suc n) = ground arith

parts_total : (s : ℕ) → s / 3600 * 3600 + s % 3600 / 60 * 60 + s % 3600 % 60 ≡ s
parts_total s = omega arith

parts-append :
    (h m s : ℕ)
    → format_part letter_H h ++ (format_part letter_M m ++ format_part letter_S s)
      ≡ time_parts h m s
parts-append h m s =
    part-append letter_H h _
    ∙ ap (part letter_H h) (
        part-append letter_M m _
        ∙ ap (part letter_M m) (sym (append-nil _) ∙ part-append letter_S s []))

-- A time that is not midnight.
format_time_some :
    (s : ℕ)
    → (s == 0) ≡ false
    → format_time s ≡ letter_T ∷ time_parts (s / 3600) (s % 3600 / 60) (s % 3600 % 60)
format_time_some s k =
    elim (Bool-cases (s / 3600 == 0 && (s % 3600 / 60 == 0 && s % 3600 % 60 == 0))) [
      | inl b ↦ absurd (ground (arith, parts_total s))
      | inr b ↦ rw b (ap (◌∷◌ letter_T) (parts-append (s / 3600) (s % 3600 / 60) (s % 3600 % 60)))
    ]

count_no_time : count_seconds (letter_T ∷ 48 ∷ letter_M ∷ []) ≡ 0
unfolding count_seconds optional_group scan_digits int_after
count_no_time = refl

count_whole : (n : ℕ) → count_seconds (zero_minutes (format_days (pos n) ++ [])) ≡ n * 86400 + 0
count_whole zero = count_no_time
count_whole (suc n) =
    ap count_seconds (
      ap zero_minutes (append-nil (decimal (suc n) ++ letter_D ∷ []))
      ∙ zero_minutes-append (decimal (suc n)) [] letter_D
      ∙ ground arith)
    ∙ count_days (suc n)
    ∙ omega arith

-- The text of a duration that is not negative counts its seconds.
count_format :
    (d s : ℕ) → count_seconds (zero_minutes (format_days (pos d) ++ format_time s)) ≡ d * 86400 + s
count_format d s = elim (Bool-cases (s == 0)) [
  | inl k ↦ rw ((==_iff s 0).0 k) (count_whole d)
  | inr k ↦
      ap (λ t. count_seconds (zero_minutes (format_days (pos d) ++ t))) (format_time_some s k)
      ∙ ap count_seconds (
          zero_minutes-append (format_days (pos d)) _ letter_T
          ∙ ap (λ t. t ++ letter_T ∷ time_parts (s / 3600) (s % 3600 / 60) (s % 3600 % 60))
              (format_days-pos d)
          ∙ part-append letter_D d _)
      ∙ count_timed d (s / 3600) (s % 3600 / 60) (s % 3600 % 60)
      ∙ omega (arith, parts_total s)
]

-- A duration as datetime.timedelta keeps it: less than a day besides the days.
pub record IsNormal (d : TimeDelta) : Type 0 where
  pub less_than_a_day : d.seconds < 86400
  pub within_range : pos_part d.days ≤ max_days

abbrev pub read_back : ℤ → ℕ → TimeDelta
read_back (pos n) s = record { days = pos n; seconds = s; microseconds = 0 }
read_back (negsuc n) s = record { days = pos 0; seconds = 0; microseconds = 0 }

timedelta_of-days :
    (n s : ℕ) → n ≤ max_days → s < 86400 → timedelta_of (n * 86400 + s) ≡ ok (read_back (pos n) s)
timedelta_of-days n s h k =
    let quotient : (n * 86400 + s) / 86400 ≡ n = omega arith in
    let remainder : (n * 86400 + s) % 86400 ≡ s = omega arith in
    rw (quotient, remainder) (ground arith)

-- The minus sign is no digit: nothing after the `P` is read.
count_negative : (t : List ℕ) → count_seconds (minus_sign ∷ t) ≡ 0
count_negative t =
    count_seconds_by (minus_sign ∷ t) (minus_sign ∷ t) (minus_sign ∷ t) (minus_sign ∷ t)
      (minus_sign ∷ t) 0 0 0 0 (unread letter_Y) (unread letter_M) (unread letter_D)
      (unread letter_H) (unread letter_M) (unread letter_S)
  where
    unread : (u : ℕ) → Skips u (minus_sign ∷ t)
    unread u = letter-Skips u minus_sign t refl

body_read_back :
    (z : ℤ) (s : ℕ)
    → pos_part z ≤ max_days
    → s < 86400
    → timedelta_of (count_seconds (zero_minutes (format_days z ++ format_time s)))
      ≡ ok (read_back z s)
body_read_back (pos n) s h k = ap timedelta_of (count_format n s) ∙ timedelta_of-days n s h k
body_read_back (negsuc n) s h k = ap timedelta_of (count_negative _)

-- A duration that is not negative is read back as it was written, less its microseconds. A
-- negative one is read back as no time at all.
pub parse_duration-timedeltaformat :
    (d : TimeDelta)
    → IsNormal d
    → parse_duration (timedeltaformat d) ≡ ok (read_back d.days d.seconds)
unfolding parse_duration timedeltaformat
parse_duration-timedeltaformat d h =
    body_read_back d.days d.seconds h.within_range h.less_than_a_day
