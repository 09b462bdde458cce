-- ===== src/Ven/Cron.antt =====
-- utils.cron_config: the settings of a periodic job for an interval.
use Prim.Native.Nat.{◌-◌, ◌/◌, ◌%◌}
use openleadr_python.Base.{
  ℕ, ◌≡◌, ◌≤◌, ◌<◌, inl, inr, Bool, true, false, Option, none, some, arith, Bool-cases, leb,
  if◌then◌else◌,
}
use openleadr_python.Base.Int.{pos, negsuc, ltb_ℤ, pos_part}
use openleadr_python.Event.{Duration}

-- A field of the settings: "*", "0", or "*/n".
pub data Field : Type 0 where
  every zero_only : Field
  step : ℕ → Field

pub record CronConfig : Type 0 where
  pub second : Field
  pub minute : Field
  pub hour : Field
  pub jitter : Option ℕ

-- `interval.seconds`: the seconds within a day, counted from its start also for a negative interval
abbrev pub seconds : Duration → ℕ
seconds (pos n) = (n % 86400000000) / 1000000
seconds (negsuc n) = (86400000000 - 1 - n % 86400000000) / 1000000

abbrev pub fields : Field → Field → Field → CronConfig
fields s m h = record { second = s; minute = m; hour = h; jitter = none }

abbrev pub lesser : ℕ → ℕ → ℕ
lesser a b = if leb a b then a else b

-- A tenth of the interval in seconds, five minutes at most
abbrev pub with_jitter : Bool → Duration → CronConfig → CronConfig
with_jitter true i c = record c { jitter = some (lesser (pos_part i / 10000000) 300) }
with_jitter false i c = c

unfoldable pub fields_for : Duration → CronConfig
fields_for i =
    if ltb_ℤ i (pos 60000000)
    then fields (step (seconds i)) every every
    else if ltb_ℤ i (pos 3600000000)
    then fields zero_only (step (pos_part i / 60000000)) every
    else if ltb_ℤ i (pos 86400000000)
    then fields zero_only zero_only (step (pos_part i / 3600000000))
    else fields zero_only zero_only zero_only

unfoldable pub cron_config : Duration → Bool → CronConfig
unfolding fields_for
cron_config i randomize_seconds = with_jitter randomize_seconds i (fields_for i)

-- A step is one at least and fits into the field.
abbrev pub Within : ℕ → Field → Type 0
Within n every = Unit
Within n zero_only = Unit
Within n (step k) = (1 ≤ k) × (k ≤ n)

abbrev pub JitterWithin : Option ℕ → Type 0
JitterWithin none = Unit
JitterWithin (some k) = k ≤ 300

pub record IsSchedule (c : CronConfig) : Type 0 where
  pub seconds_fit : Within 59 c.second
  pub minutes_fit : Within 59 c.minute
  pub hours_fit : Within 23 c.hour
  pub jitter_fits : JitterWithin c.jitter

with_jitter-IsSchedule :
    (b : Bool) (i : Duration) (s m h : Field)
    → Within 59 s
    → Within 59 m
    → Within 23 h
    → IsSchedule (with_jitter b i (fields s m h))
with_jitter-IsSchedule true i s m h p q r = record {
  seconds_fit = p;
  minutes_fit = q;
  hours_fit = r;
  jitter_fits = ground arith;
}
with_jitter-IsSchedule false i s m h p q r = record {
  seconds_fit = p;
  minutes_fit = q;
  hours_fit = r;
  jitter_fits = tt;
}

is_less : (a b : ℕ) → ltb_ℤ (pos a) (pos b) ≡ true → a < b
is_less a b h = ground (arith, h)

is_not_less : (a b : ℕ) → ltb_ℤ (pos a) (pos b) ≡ false → b ≤ a
is_not_less a b h = ground (arith, h)

steps_seconds : (n : ℕ) → 1000000 ≤ n → n < 60000000 → Within 59 (step (seconds (pos n)))
steps_seconds n h k = (omega arith, omega arith)

-- For an interval of one second at least, every step in the settings is at least one and fits into
-- its field, and the jitter is five minutes at most.
pub cron_config-IsSchedule : (n : ℕ) (b : Bool) → 1000000 ≤ n → IsSchedule (cron_config (pos n) b)
unfolding cron_config fields_for
cron_config-IsSchedule n b h = elim (Bool-cases (ltb_ℤ (pos n) (pos 60000000))) [
  | inl k ↦ rw k (
      with_jitter-IsSchedule b (pos n) (step (seconds (pos n))) every every
        (steps_seconds n h (is_less n 60000000 k)) tt tt)
  | inr k ↦ elim (Bool-cases (ltb_ℤ (pos n) (pos 3600000000))) [
    | inl l ↦
        rw (k, l)
          (with_jitter-IsSchedule b (pos n) zero_only (step (n / 60000000)) every tt
            (omega (arith, is_not_less n 60000000 k), omega (arith, is_less n 3600000000 l)) tt)
    | inr l ↦ elim (Bool-cases (ltb_ℤ (pos n) (pos 86400000000))) [
      | inl m ↦
          rw (k, l, m)
            (with_jitter-IsSchedule b (pos n) zero_only zero_only (step (n / 3600000000)) tt tt
              (omega (arith, is_not_less n 3600000000 l), omega (arith, is_less n 86400000000 m)))
      | inr m ↦
          rw (k, l, m) (with_jitter-IsSchedule b (pos n) zero_only zero_only zero_only tt tt tt)
    ]
  ]
]
