-- ===== src/Event/Measurements/Register.antt =====
-- openleadr/preflight.py: `_preflight_oadrRegisterReport`, the checks and corrections of the reports
-- that a client offers, before they are sent.
use Prim.Native.String.{◌++◌ as ◌<>◌}
use text.Mathlib.Text.{starts_with}
use text.Mathlib.TextEquality.{eq_iff}
use openleadr_python.Base.{
  String, ◌≡◌, ◌↔◌, refl, sym, ap, subst, ◌∙◌, inl, inr, Bool, true, false, not, ◌&&◌, Option, none,
  some, List, [], ◌∷◌, All, arith, Bool-cases, if◌then◌else◌,
}
use openleadr_python.Base.Exec.{Result, ok, raise, value_error, key_error}
use openleadr_python.Event.Objects.{same_text, is_member}
use openleadr_python.Event.Preflight.{and_then, each, namespace_of}
use openleadr_python.Event.Preflight.Loops.{and_then_ok, ok-inj, each-All, each_fixed, trivial}
use openleadr_python.Event.Measurements.{MeasurementDict, validate_report_measurement_dict}
use openleadr_python.Event.Measurements.Valid.{IsValid, validate-IsValid, IsValid-validate}

-- A report of the message; a datapoint is known by its measurement, which may be None.
pub record OfferedReport : Type 0 where
  pub report_name : String
  pub measurements : List (Option MeasurementDict)

-- enums.REPORT_NAME.values
abbrev pub report_names : List String
report_names =
    "HISTORY_GREENBUTTON" ∷ "HISTORY_USAGE" ∷ "METADATA_HISTORY_GREENBUTTON"
    ∷ "METADATA_HISTORY_USAGE" ∷ "METADATA_TELEMETRY_STATUS" ∷ "METADATA_TELEMETRY_USAGE"
    ∷ "TELEMETRY_STATUS" ∷ "TELEMETRY_USAGE" ∷ []

abbrev pub is_plain_name : String → Bool
is_plain_name n = is_member n report_names && not (starts_with n "METADATA")

unfoldable pub prefix_name : String → String
prefix_name n = if is_plain_name n then "METADATA_" <> n else n

abbrev pub validate_one : Option MeasurementDict → Result (Option MeasurementDict)
validate_one none = ok none
validate_one (some m) = and_then (validate_report_measurement_dict m) (λ n. ok (some n))

-- `_MEASUREMENT_NAMESPACES[name]`, where the name is one of its keys
abbrev pub set_namespace : MeasurementDict → Option String → Result (Option MeasurementDict)
set_namespace m none = raise value_error
set_namespace m (some ns) = ok (some (record m { ns = some ns }))

abbrev pub namespace_by : Option String → MeasurementDict → Result (Option MeasurementDict)
namespace_by none m = raise key_error
namespace_by (some name) m = set_namespace m (namespace_of name)

abbrev pub namespace_one : Option MeasurementDict → Result (Option MeasurementDict)
namespace_one none = ok none
namespace_one (some m) = namespace_by m.name m

unfoldable pub register_one : OfferedReport → Result OfferedReport
unfolding prefix_name
register_one r = and_then (each validate_one r.measurements) (λ l.
    and_then (each namespace_one l)
      (λ k. ok (record { report_name = prefix_name r.report_name; measurements = k })))

unfoldable pub preflight_register_report : List OfferedReport → Result (List OfferedReport)
unfolding register_one
preflight_register_report = each register_one

-- A measurement that may be sent: valid, and with the namespace of its name.
pub record HasNamespace (m : MeasurementDict) : Type 0 where
  pub valid : IsValid m
  pub namespaced :
      (n ns : String) × (m.name ≡ some n) × (namespace_of n ≡ some ns) × (m.ns ≡ some ns)

abbrev pub IsSendable : Option MeasurementDict → Type 0
IsSendable none = Unit
IsSendable (some m) = HasNamespace m

-- A report that may be sent: no OpenADR name without its prefix, and all measurements sendable.
pub record IsRegistrable (r : OfferedReport) : Type 0 where
  pub prefixed : is_plain_name r.report_name ≡ false
  pub sendable : All IsSendable r.measurements

abbrev AreValid : Option MeasurementDict → Type 0
AreValid none = Unit
AreValid (some m) = IsValid m

validate_one-AreValid : (x y : Option MeasurementDict) → validate_one x ≡ ok y → AreValid y
validate_one-AreValid none y h = subst AreValid (ok-inj h) tt
validate_one-AreValid (some m) y h =
    let (n, valid, rest) =
      and_then_ok (validate_report_measurement_dict m) (λ n. ok (some n)) y h in
    subst AreValid (ok-inj rest) (validate-IsValid m n valid)

-- The namespace is no part of what is validated.
with_ns : (m : MeasurementDict) (ns : String) → IsValid m → IsValid (record m { ns = some ns })
with_ns m ns v = record {
  name = v.name;
  description = v.description;
  unit = v.unit;
  named = v.named;
  described = v.described;
  measured = v.measured;
  known = v.known;
  powered = v.powered;
}

set_namespace_ok :
    (m : MeasurementDict) (o : Option String) (y : Option MeasurementDict)
    → set_namespace m o ≡ ok y
    → (ns : String) × (o ≡ some ns) × (y ≡ some (record m { ns = some ns }))
set_namespace_ok m none y h = absurd (ground (arith, h))
set_namespace_ok m (some ns) y h = (ns, refl, sym (ok-inj h))

namespace_one-IsSendable :
    (x y : Option MeasurementDict) → AreValid x → namespace_one x ≡ ok y → IsSendable y
namespace_one-IsSendable none y v h = subst IsSendable (ok-inj h) tt
namespace_one-IsSendable (some m) y v h =
    let (ns, k, shape) =
      set_namespace_ok m (namespace_of v.name) y (sym (ap (λ o. namespace_by o m) v.named) ∙ h) in
    subst IsSendable (sym shape)
      (record { valid = with_ns m ns v; namespaced = (v.name, ns, v.named, k, refl) })

is_member-All {ℓ} :
    (P : String → Type ℓ) (t : String) (l : List String) → All P l → is_member t l ≡ true → P t
is_member-All P t [] p h = absurd (ground (arith, h))
is_member-All P t (x ∷ l) p h = elim (Bool-cases (same_text t x)) [
  | inl k ↦ subst P (sym ((eq_iff t x).0 k)) p.0
  | inr k ↦ is_member-All P t l p.1 (ground (arith, h, k))
]

-- A name with its prefix is not a plain one.
prefixed_name : (n : String) → is_plain_name n ≡ true → is_plain_name ("METADATA_" <> n) ≡ false
prefixed_name n k =
    is_member-All (λ t. is_plain_name ("METADATA_" <> t) ≡ false) n report_names
      (refl, (refl, (refl, (refl, (refl, (refl, (refl, (refl, tt))))))))
      (first (is_member n report_names) k)
  where
    first : (b : Bool) → (b && not (starts_with n "METADATA")) ≡ true → b ≡ true
    first true h = refl
    first false h = h

prefix_name-plain : (n : String) → is_plain_name (prefix_name n) ≡ false
unfolding prefix_name
prefix_name-plain n = elim (Bool-cases (is_plain_name n)) [
  | inl k ↦ ap (λ b. is_plain_name (if b then "METADATA_" <> n else n)) k ∙ prefixed_name n k
  | inr k ↦ ap (λ b. is_plain_name (if b then "METADATA_" <> n else n)) k ∙ k
]

register_one-IsRegistrable : (r q : OfferedReport) → register_one r ≡ ok q → IsRegistrable q
unfolding register_one
register_one-IsRegistrable r q h =
    let (l, hl, rest) = and_then_ok (each validate_one r.measurements) _ q h in
    let (k, hk, last) = and_then_ok (each namespace_one l) _ q rest in
    subst IsRegistrable (ok-inj last) (record {
      prefixed = prefix_name-plain r.report_name;
      sendable =
          each-All AreValid IsSendable namespace_one namespace_one-IsSendable l k
            (each-All (λ _. Unit {0}) AreValid validate_one (λ x y _ e. validate_one-AreValid x y e)
              r.measurements l (trivial r.measurements) hl)
            hk;
    })

validate_one_fixed : (x : Option MeasurementDict) → IsSendable x → validate_one x ≡ ok x
validate_one_fixed none s = refl
validate_one_fixed (some m) s = ap (λ r. and_then r (λ n. ok (some n))) (IsValid-validate m s.valid)

namespace_one_fixed : (x : Option MeasurementDict) → IsSendable x → namespace_one x ≡ ok x
namespace_one_fixed none s = refl
namespace_one_fixed (some m) s =
    let (n, ns, named, known, has) = s.namespaced in
    ap (λ o. namespace_by o m) named
    ∙ ap (set_namespace m) known
    ∙ ap (λ o. ok (some (record m { ns = o }))) (sym has)

register_one_fixed : (r : OfferedReport) → IsRegistrable r → register_one r ≡ ok r
unfolding register_one prefix_name
register_one_fixed r s =
    ap (λ x. and_then x (λ l. and_then (each namespace_one l) (λ k. ok (named k))))
      (each_fixed IsSendable validate_one validate_one_fixed r.measurements s.sendable)
    ∙ ap (λ x. and_then x (λ k. ok (named k)))
        (each_fixed IsSendable namespace_one namespace_one_fixed r.measurements s.sendable)
    ∙ ap
        (λ b. ok (record {
          report_name = if b then "METADATA_" <> r.report_name else r.report_name;
          measurements = r.measurements;
        }))
        s.prefixed
  where
    named : List (Option MeasurementDict) → OfferedReport
    named k = record {
      report_name =
          if is_plain_name r.report_name then "METADATA_" <> r.report_name else r.report_name;
      measurements = k;
    }

-- A report may be sent if an OpenADR name of it has its prefix, and each measurement has a known
-- name with its description, one of its units and its namespace, or the name 'customUnit', with
-- complete attributes if it is a power. A message of such reports passes the checks unchanged, no
-- other one passes unchanged, and whatever passes is made such a message.
pub preflight_register_report-IsRegistrable :
    (l : List OfferedReport)
    → ((preflight_register_report l ≡ ok l) ↔ All IsRegistrable l)
      × ((m : List OfferedReport) → preflight_register_report l ≡ ok m → All IsRegistrable m)
unfolding preflight_register_report
preflight_register_report-IsRegistrable l =
    ((sent l, each_fixed IsRegistrable register_one register_one_fixed l), sent)
  where
    sent : (m : List OfferedReport) → preflight_register_report l ≡ ok m → All IsRegistrable m
    sent m h =
        each-All (λ _. Unit {0}) IsRegistrable register_one
          (λ r q _ e. register_one-IsRegistrable r q e) l m (trivial l) h
