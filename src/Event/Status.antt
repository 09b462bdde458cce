-- ===== src/Event/Status.antt =====
-- utils.determine_event_status: the status of an event from its active period and the clock.
use openleadr_python.Base.{
  ◌≤◌, ◌≡◌, ◌≢◌, ◌↔◌, inl, inr, Option-cases, ◌&&◌, none, some, arith, if◌then◌else◌,
}
use openleadr_python.Base.Int.{pos, ◌+ℤ◌, ◌-ℤ◌, ◌≤ℤ◌, ◌<ℤ◌, leb_ℤ, ltb_ℤ, +ℤ_parts}
use openleadr_python.Event.{
  Instant, Duration, ActivePeriod, EventStatus, none_status, far, near, active, completed,
  cancelled, stage,
}

-- Before the start of the active period: `near` from the start of a ramp-up period on, if any.
status_before_start : Instant → ActivePeriod → EventStatus
status_before_start now p = elim p.ramp_up_period [
  | none ↦ far
  | some ramp ↦ if leb_ℤ (p.dtstart -ℤ ramp) now then near else far
]

unfoldable pub determine_event_status : Instant → ActivePeriod → EventStatus
unfolding status_before_start
determine_event_status now p =
    if leb_ℤ (p.dtstart +ℤ p.duration) now && ltb_ℤ (pos 0) p.duration
    then completed
    else if leb_ℤ p.dtstart now
    then active
    else status_before_start now p

-- The ramp-up period has begun.
abbrev pub HasRampedUp : Instant → ActivePeriod → Type 0
HasRampedUp now p = (ramp : Duration) × (p.ramp_up_period ≡ some ramp) × (p.dtstart -ℤ ramp ≤ℤ now)

-- The period has a positive duration and has ended.
abbrev pub HasEnded : Instant → ActivePeriod → Type 0
HasEnded now p = (pos 0 <ℤ p.duration) × (p.dtstart +ℤ p.duration ≤ℤ now)

module _ (now : Instant) (p : ActivePeriod) where
  completed_iff : (determine_event_status now p ≡ completed) ↔ HasEnded now p
  unfolding determine_event_status
  completed_iff = ground arith

  active_iff : (determine_event_status now p ≡ active) ↔ ((p.dtstart ≤ℤ now) × (¬ HasEnded now p))
  unfolding determine_event_status
  active_iff = ground arith

  near_only : determine_event_status now p ≡ near → (¬ (p.dtstart ≤ℤ now)) × HasRampedUp now p
  unfolding determine_event_status
  near_only h = elim (Option-cases p.ramp_up_period) [
    | inl e ↦ absurd (ground arith)
    | inr (ramp, e) ↦ (ground arith, (ramp, e, ground arith))
  ]

  near_if :
      ¬ HasEnded now p
      → (¬ (p.dtstart ≤ℤ now)) × HasRampedUp now p
      → determine_event_status now p ≡ near
  unfolding determine_event_status
  near_if live (early, (ramp, e, begun)) = ground arith

  from_clock :
      (determine_event_status now p ≢ none_status) × (determine_event_status now p ≢ cancelled)
  unfolding determine_event_status
  from_clock = ground arith

-- An event is completed exactly when its period has a positive duration and has ended; it is
-- active exactly when the period has started and has not so ended; and it is near exactly when
-- the period has not started and a ramp-up period has. The clock gives it no other status but far.
pub determine_event_status_iff :
    (now : Instant) (p : ActivePeriod)
    → ((determine_event_status now p ≡ completed) ↔ HasEnded now p)
      × ((determine_event_status now p ≡ active) ↔ ((p.dtstart ≤ℤ now) × (¬ HasEnded now p)))
      × ((determine_event_status now p ≡ near) ↔ ((¬ (p.dtstart ≤ℤ now)) × HasRampedUp now p))
      × (determine_event_status now p ≢ none_status)
      × (determine_event_status now p ≢ cancelled)
determine_event_status_iff now p = (
  completed_iff now p,
  active_iff now p,
  (near_only now p, λ h. near_if now p (not_ended h.0) h),
  (from_clock now p).0,
  (from_clock now p).1,
)
  where
    not_ended : ¬ (p.dtstart ≤ℤ now) → ¬ HasEnded now p
    not_ended early ended = omega (arith, +ℤ_parts p.dtstart p.duration)

-- As the clock goes on, an event never goes back to an earlier stage.
pub determine_event_status_mono :
    (now later : Instant) (p : ActivePeriod)
    → now ≤ℤ later
    → stage (determine_event_status now p) ≤ stage (determine_event_status later p)
unfolding determine_event_status
determine_event_status_mono now later p h = ground (arith, +ℤ_parts p.dtstart p.duration)
