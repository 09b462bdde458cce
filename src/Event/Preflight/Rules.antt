-- ===== src/Event/Preflight/Rules.antt =====
-- The rules for an event that is sent, and how the passes over the events bring them about.
use openleadr_python.Base.{
  All, String, ◌≡◌, refl, sym, ap, subst, ◌∙◌, inl, inr, Bool, true, false, Option, none, some,
  List, [], ◌∷◌, all, is_some, arith, Bool-cases, if◌then◌else◌,
}
use openleadr_python.Base.Exec.{ok, raise, value_error}
use openleadr_python.Event.{Instant, Duration, Event, Target, TargetsByType, event_status}
use openleadr_python.Event.Objects.Consistent.{GivenGroups, Agree}
use openleadr_python.Event.Preflight.{
  EventDict, each, same_ℤ, signal_durations, set_duration, adjust, adjust_duration, levels_allowed,
  check_levels, correct_currents, add_ns, set_signals, add_namespaces, is_required_text,
  correct_required, correct_members, created_or,
}
use openleadr_python.Event.Preflight.Loops.{and_then_ok, ok-inj, each-All, trivial}
use openleadr_python.Event.Preflight.Signals.{
  is_idle, durations_correct, levels_correct, idle_correct, bare-each, durations-bare, levels-bare,
  idle-bare,
}
use openleadr_python.Event.Preflight.Namespaces.{HasNamespace, HasNamespace-add_ns}

-- The active period lasts as long as the intervals of each signal.
abbrev pub lasts : Event → Bool
lasts e = all (same_ℤ e.active_period.duration) (signal_durations e.event_signals)

abbrev pub is_required : Option String → Bool
is_required none = false
is_required (some t) = is_required_text t

-- The rules for an event that is sent
pub record Conforms (e : Event) : Type 0 where
  pub duration : lasts e ≡ true
  pub levels : all levels_allowed e.event_signals ≡ true
  pub current : all is_idle e.event_signals ≡ true
  pub required : is_required e.response_required ≡ true
  pub created : is_some e.event_descriptor.created_date_time ≡ true
  pub namespaces : All HasNamespace e.event_signals

-- An event with groups has targets too, and the two agree.
abbrev pub HasBothForms : EventDict → Type 0
HasBothForms s =
    s.has_targets_by_type ≡ true
    → (s.has_targets ≡ true)
      × (l : List Target) × (d : TargetsByType) × (s.event.targets ≡ some l)
      × (s.event.targets_by_type ≡ some d)
      × Agree l d

abbrev pub IsSendable : EventDict → Type 0
IsSendable s = Conforms s.event × HasBothForms s

-- The groups of the event's targets, if there are any, have different keys, and each is a list that
-- is not empty or a single text.
abbrev pub HasGroups : EventDict → Type 0
HasGroups s = GivenGroups s.event.targets_by_type

adjust_lasts :
    (l : List Duration) (e y : Event)
    → adjust l e ≡ ok y
    → (all (same_ℤ y.active_period.duration) l ≡ true) × (y.event_signals ≡ e.event_signals)
adjust_lasts [] e y h = (refl, ap Event.event_signals (sym (ok-inj h)))
adjust_lasts (d ∷ l) e y h = elim (Bool-cases (all (same_ℤ d) (d ∷ l))) [
  | inr k ↦ absurd (ground (arith, k, h))
  | inl k ↦
      let made : set_duration d e ≡ y =
        ok-inj (sym (ap (λ b. if b then ok (set_duration d e) else raise value_error) k) ∙ h) in
      (
        subst (λ z. all (same_ℤ (Event.active_period z).duration) (d ∷ l) ≡ true) made k,
        ap Event.event_signals (sym made),
      )
]

pub lasts-adjust_duration : (x y : Event) → Unit {0} → adjust_duration x ≡ ok y → lasts y ≡ true
unfolding adjust_duration
lasts-adjust_duration x y _ h = elim (Bool-cases (lasts x)) [
  | inl k ↦
      ap lasts (
        sym (
          ok-inj (
            sym (ap (λ b. if b then ok x else adjust (signal_durations x.event_signals) x) k) ∙ h)))
      ∙ k
  | inr k ↦
      let (one, two) =
        adjust_lasts (signal_durations x.event_signals) x y
          (sym (ap (λ b. if b then ok x else adjust (signal_durations x.event_signals) x) k) ∙ h) in
      ap (λ l. all (same_ℤ y.active_period.duration) (signal_durations l)) two ∙ one
]

abbrev pub HasLevels : Event → Type 0
HasLevels e = (lasts e ≡ true) × (all levels_allowed e.event_signals ≡ true)

pub HasLevels-check_levels : (x y : Event) → lasts x ≡ true → check_levels x ≡ ok y → HasLevels y
unfolding check_levels
HasLevels-check_levels x y p h = elim (Bool-cases (all levels_allowed x.event_signals)) [
  | inr k ↦ absurd (ground (arith, k, h))
  | inl k ↦
      subst HasLevels (ok-inj (sym (ap (λ b. if b then ok x else raise value_error) k) ∙ h)) (p, k)
]

abbrev pub HasValues : Event → Type 0
HasValues e =
    (lasts e ≡ true)
    × (all levels_allowed e.event_signals ≡ true)
    × (all is_idle e.event_signals ≡ true)

pub HasValues-correct_currents : (e : Event) → HasLevels e → HasValues (correct_currents e)
HasValues-correct_currents e (p, q) = (
  ap (all (same_ℤ e.active_period.duration)) (durations_correct (event_status e) e.event_signals)
      ∙ p,
  levels_correct (event_status e) e.event_signals ∙ q,
  idle_correct (event_status e) e.event_signals,
)

abbrev pub HasNames : Event → Type 0
HasNames e = HasValues e × All HasNamespace e.event_signals

pub HasNames-add_namespaces : (x y : Event) → HasValues x → add_namespaces x ≡ ok y → HasNames y
unfolding add_namespaces
HasNames-add_namespaces x y (p, q, r) h =
    let (m, hm, made) = and_then_ok (each add_ns x.event_signals) (set_signals x) y h in
    let same = bare-each x.event_signals m hm in
    subst HasNames (ok-inj made) (
      (
        ap (all (same_ℤ x.active_period.duration))
              (sym (durations-bare m) ∙ ap signal_durations same ∙ durations-bare x.event_signals)
            ∙ p,
        sym (levels-bare m) ∙ ap (all levels_allowed) same ∙ levels-bare x.event_signals ∙ q,
        sym (idle-bare m) ∙ ap (all is_idle) same ∙ idle-bare x.event_signals ∙ r,
      ),
      each-All (λ _. Unit {0}) HasNamespace add_ns HasNamespace-add_ns x.event_signals m
          (trivial x.event_signals) hm,
    )

required-correct_required : (r : Option String) → is_required (correct_required r) ≡ true
unfolding correct_required
required-correct_required none = refl
required-correct_required (some t) = elim (Bool-cases (is_required_text t)) [
  | inl k ↦ ap (λ b. is_required (if b then some t else some "always")) k ∙ k
  | inr k ↦ ap (λ b. is_required (if b then some t else some "always")) k
]

abbrev pub HasMembers : Event → Type 0
HasMembers e =
    HasNames e
    × (is_required e.response_required ≡ true)
    × (is_some e.event_descriptor.created_date_time ≡ true)

created-created_or : (now : Instant) (o : Option Instant) → is_some (created_or now o) ≡ true
created-created_or now none = refl
created-created_or now (some t) = refl

pub HasMembers-correct_members :
    (now : Instant) (e : Event) → HasNames e → HasMembers (correct_members now e)
unfolding correct_members
HasMembers-correct_members now e p = (
  p,
  required-correct_required e.response_required,
  created-created_or now e.event_descriptor.created_date_time,
)

pub Conforms-HasMembers : (e : Event) → HasMembers e → Conforms e
Conforms-HasMembers e (((p, q, r), n), o, c) = record {
  duration = p;
  levels = q;
  current = r;
  required = o;
  created = c;
  namespaces = n;
}
