-- ===== src/Event/Preflight/Namespaces.antt =====
-- The namespaces that the measurements of signals get.
use text.Mathlib.Text.{starts_with}
use text.Mathlib.TextEquality.{eq_iff}
use openleadr_python.Base.{
  All, ◌||◌, String, ◌≡◌, refl, sym, subst, ◌∙◌, inl, inr, true, Option, none, some, List, [], ◌∷◌,
  arith, Bool-cases, if◌then◌else◌,
}
use openleadr_python.Base.Exec.{ok}
use openleadr_python.Event.{EventSignal, Measurement}
use openleadr_python.Event.Objects.{same_text, is_member}
use openleadr_python.Event.Preflight.{namespace_of, set_ns, oadr_names, power_names, add_ns}
use openleadr_python.Event.Preflight.Loops.{ok-inj}

-- The namespace of a measurement: energy, power and voltage have the one of power.
abbrev pub right_namespace : String → String
right_namespace name =
    if starts_with name "energy" || starts_with name "power" || same_text name "voltage"
    then "power"
    else "oadr"

abbrev IsRight : Option Measurement → Type 0
IsRight none = Unit
IsRight (some m) = m.ns ≡ right_namespace m.name

-- The signal has no measurement, or one with the right namespace.
abbrev pub HasNamespace : EventSignal → Type 0
HasNamespace g = IsRight g.measurement

some-inj {ℓ} : {A : Type ℓ} {a b : A} → some a ≡ some b → a ≡ b
some-inj h = cc

-- A text of a list has what every text of the list has.
is_member-All :
    (P : String → Type 0) (s : String) (l : List String) → All P l → is_member s l ≡ true → P s
is_member-All P s [] p h = absurd (ground arith)
is_member-All P s (x ∷ l) p h = elim (Bool-cases (same_text s x)) [
  | inl e ↦ subst P (sym ((eq_iff s x).0 e)) p.0
  | inr e ↦ is_member-All P s l p.1 (rw e at h)
]

namespace_of-right : (name ns : String) → namespace_of name ≡ some ns → ns ≡ right_namespace name
unfolding namespace_of
namespace_of-right name ns h = elim (Bool-cases (is_member name oadr_names)) [
  | inl k ↦
      some-inj (sym (rw k at h))
      ∙ sym (
          is_member-All (λ s. right_namespace s ≡ "oadr") name oadr_names
            (refl, (refl, (refl, (refl, (refl, (refl, (refl, (refl, (refl, (refl, tt)))))))))) k)
  | inr k ↦ elim (Bool-cases (is_member name power_names)) [
    | inl m ↦
        some-inj (sym (rw (k, m) at h))
        ∙ sym (
            is_member-All (λ s. right_namespace s ≡ "power") name power_names
              (refl, (refl, (refl, (refl, (refl, (refl, (refl, tt))))))) m)
    | inr m ↦ absurd (ground arith)
  ]
]

pub HasNamespace-add_ns : (g h : EventSignal) → Unit {0} → add_ns g ≡ ok h → HasNamespace h
unfolding add_ns
HasNamespace-add_ns g h _ k = by_measurement g.measurement refl k
  where
    named :
        (m : Measurement) (o : Option String)
        → namespace_of m.name ≡ o
        → set_ns m g o ≡ ok h
        → HasNamespace h
    named m none e k = absurd (ground (arith, k))
    named m (some ns) e k = subst HasNamespace (ok-inj k) (namespace_of-right m.name ns e)

    by_measurement :
        (o : Option Measurement)
        → g.measurement ≡ o
        → (elim o [ none ↦ ok g | some m ↦ set_ns m g (namespace_of m.name) ]) ≡ ok h
        → HasNamespace h
    by_measurement none e k = subst HasNamespace (ok-inj k) (subst IsRight (sym e) tt)
    by_measurement (some m) e k = named m (namespace_of m.name) refl k
