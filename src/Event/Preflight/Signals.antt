-- ===== src/Event/Preflight/Signals.antt =====
-- What the passes over the events change in a signal, and what they keep.
use openleadr_python.Base.{
  String, ◌≡◌, refl, sym, ap, ◌∙◌, inl, inr, Bool, true, false, not, ◌&&◌, ◌||◌, Option, none, some,
  List, [], ◌∷◌, map, all, arith, Option-cases,
}
use openleadr_python.Base.Exec.{ok}
use openleadr_python.Event.{
  EventStatus, none_status, far, near, active, completed, cancelled, EventSignal, Measurement,
}
use openleadr_python.Event.Objects.{same_text}
use openleadr_python.Event.Preflight.{
  and_then, each, total, signal_durations, is_simple, levels_allowed, status_text, is_zero_value,
  correct_current, namespace_of, set_ns, add_ns,
}
use openleadr_python.Event.Preflight.Loops.{and_then_ok, ok-inj}

-- A signal SIMPLE has the current value 0.
abbrev pub is_idle : EventSignal → Bool
is_idle g = not (is_simple g) || is_zero_value g.current_value

-- The corrections of a signal's value keep what the other rules read.
module _ (s : EventStatus) where
  not_shouting : same_text (status_text s) "ACTIVE" ≡ false
  not_shouting = elim s as (λ s. same_text (status_text s) "ACTIVE" ≡ false) [
    | none_status ↦ refl
    | far ↦ refl
    | near ↦ refl
    | active ↦ refl
    | completed ↦ refl
    | cancelled ↦ refl
  ]

  module _ (g : EventSignal) where
    intervals-correct_current : (correct_current s g).intervals ≡ g.intervals
    unfolding correct_current
    intervals-correct_current = ground arith

    levels-correct_current : levels_allowed (correct_current s g) ≡ levels_allowed g
    unfolding correct_current
    levels-correct_current = ground arith

    idle-correct_current : is_idle (correct_current s g) ≡ true
    unfolding correct_current
    idle-correct_current = ground (arith, not_shouting)

  pub durations_correct :
      (l : List EventSignal) → signal_durations (map (correct_current s) l) ≡ signal_durations l
  durations_correct [] = refl
  durations_correct (g ∷ l) = rw (intervals-correct_current g, durations_correct l) refl

  pub levels_correct :
      (l : List EventSignal) → all levels_allowed (map (correct_current s) l) ≡ all levels_allowed l
  levels_correct [] = refl
  levels_correct (g ∷ l) = rw (levels-correct_current g, levels_correct l) refl

  pub idle_correct : (l : List EventSignal) → all is_idle (map (correct_current s) l) ≡ true
  idle_correct [] = refl
  idle_correct (g ∷ l) = rw (idle-correct_current g) (idle_correct l)

-- What the rules read of a signal is not its measurement.
abbrev pub bare : EventSignal → EventSignal
bare g = record g { measurement = none }

bare-set_ns :
    (m : Measurement) (g h : EventSignal) (ns : Option String)
    → set_ns m g ns ≡ ok h
    → bare h ≡ bare g
bare-set_ns m g h none k = absurd (ground (arith, k))
bare-set_ns m g h (some ns) k = ap bare (sym (ok-inj k))

bare-add_ns : (g h : EventSignal) → add_ns g ≡ ok h → bare h ≡ bare g
unfolding add_ns
bare-add_ns g h k = elim (Option-cases g.measurement) [
  | inl e ↦ ap bare (
      sym (
        ok-inj (
          sym (ap (λ z. elim z [ none ↦ ok g | some m ↦ set_ns m g (namespace_of m.name) ]) e)
          ∙ k)))
  | inr (m, e) ↦
      bare-set_ns m g h (namespace_of m.name)
        (sym (ap (λ z. elim z [ none ↦ ok g | some m ↦ set_ns m g (namespace_of m.name) ]) e) ∙ k)
]

pub bare-each : (l m : List EventSignal) → each add_ns l ≡ ok m → map bare m ≡ map bare l
bare-each [] m h = ap (map bare) (sym (ok-inj h))
bare-each (g ∷ l) m h =
    let (y, hy, rest) =
      and_then_ok (add_ns g) (λ y. and_then (each add_ns l) (λ n. ok (y ∷ n))) m h in
    let (n, hn, last) = and_then_ok (each add_ns l) (λ n. ok (y ∷ n)) m rest in
    ap (map bare) (sym (ok-inj last))
    ∙ ap (λ b. b ∷ map bare n) (bare-add_ns g y hy)
    ∙ ap (λ b. bare g ∷ b) (bare-each l n hn)

pub durations-bare : (l : List EventSignal) → signal_durations (map bare l) ≡ signal_durations l
durations-bare [] = refl
durations-bare (g ∷ l) = ap (λ z. total g.intervals ∷ z) (durations-bare l)

pub levels-bare : (l : List EventSignal) → all levels_allowed (map bare l) ≡ all levels_allowed l
levels-bare [] = refl
levels-bare (g ∷ l) = ap (λ z. levels_allowed g && z) (levels-bare l)

pub idle-bare : (l : List EventSignal) → all is_idle (map bare l) ≡ all is_idle l
idle-bare [] = refl
idle-bare (g ∷ l) = ap (λ z. is_idle g && z) (idle-bare l)
