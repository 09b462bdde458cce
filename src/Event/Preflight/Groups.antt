-- ===== src/Event/Preflight/Groups.antt =====
-- The passes over the events keep the groups of their targets.
use openleadr_python.Base.{
  ◌≡◌, sym, ap, ◌∙◌, inl, inr, List, [], ◌∷◌, all, arith, Bool-cases, if◌then◌else◌,
}
use openleadr_python.Base.Exec.{ok, raise, value_error}
use openleadr_python.Event.{Duration, Event}
use openleadr_python.Event.Preflight.{
  each, same_ℤ, signal_durations, set_duration, adjust, adjust_duration, levels_allowed,
  check_levels, add_ns, set_signals, add_namespaces,
}
use openleadr_python.Event.Preflight.Loops.{and_then_ok, ok-inj}
use openleadr_python.Event.Preflight.Rules.{lasts}

-- The passes before the last keep the groups.
abbrev pub KeepsGroups : Event → Event → Type 0
KeepsGroups x y = y.targets_by_type ≡ x.targets_by_type

adjust-KeepsGroups : (l : List Duration) (x y : Event) → adjust l x ≡ ok y → KeepsGroups x y
adjust-KeepsGroups [] x y h = ap Event.targets_by_type (sym (ok-inj h))
adjust-KeepsGroups (d ∷ l) x y h = elim (Bool-cases (all (same_ℤ d) (d ∷ l))) [
  | inl k ↦
      ap Event.targets_by_type
        (ok-inj (sym h ∙ ap (λ b. if b then ok (set_duration d x) else raise value_error) k))
  | inr k ↦ absurd (ground (arith, k, h))
]

pub adjust_duration-KeepsGroups : (x y : Event) → adjust_duration x ≡ ok y → KeepsGroups x y
unfolding adjust_duration
adjust_duration-KeepsGroups x y h = elim (Bool-cases (lasts x)) [
  | inl k ↦
      ap Event.targets_by_type (
        ok-inj
          (sym h ∙ ap (λ b. if b then ok x else adjust (signal_durations x.event_signals) x) k))
  | inr k ↦
      adjust-KeepsGroups (signal_durations x.event_signals) x y
        (sym (ap (λ b. if b then ok x else adjust (signal_durations x.event_signals) x) k) ∙ h)
]

pub check_levels-KeepsGroups : (x y : Event) → check_levels x ≡ ok y → KeepsGroups x y
unfolding check_levels
check_levels-KeepsGroups x y h = elim (Bool-cases (all levels_allowed x.event_signals)) [
  | inl k ↦
      ap Event.targets_by_type (ok-inj (sym h ∙ ap (λ b. if b then ok x else raise value_error) k))
  | inr k ↦ absurd (ground (arith, k, h))
]

pub add_namespaces-KeepsGroups : (x y : Event) → add_namespaces x ≡ ok y → KeepsGroups x y
unfolding add_namespaces
add_namespaces-KeepsGroups x y h =
    let (m, hm, made) = and_then_ok (each add_ns x.event_signals) (set_signals x) y h in
    ap Event.targets_by_type (sym (ok-inj made))
