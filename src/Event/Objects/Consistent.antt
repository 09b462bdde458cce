-- ===== src/Event/Objects/Consistent.antt =====
-- An event that has been made is consistent.
use openleadr_python.Base.{
  ℕ, ◌≡◌, subst, refl, ap, sym, ◌∙◌, inl, inr, true, Option, none, some, List, [], ◌∷◌, arith,
  Bool-cases, Option-cases, ◌==◌, ==_iff,
}
use openleadr_python.Base.Exec.{Result, ok, raise}
use openleadr_python.Base.Dict.{lookup}
use openleadr_python.Event.{
  Group, value_list, single_text, other_group, Instant, Target, TargetsByType, Event, event_status,
  ActivePeriod,
}
use openleadr_python.Event.Status.{determine_event_status}
use openleadr_python.Event.Targets.{Lists, as_groups, group_into, group_targets_by_type}
use openleadr_python.Event.Targets.RoundTrip.{
  IsGrouped, values_in, as_lists, group-ungroup_targets_by_type,
}
use openleadr_python.Event.Objects.{
  same_values, same_group, has_values, includes, same_groups, both_targets, period_or,
  EventArguments, event_with, make_event,
}

same_values_lem : (k l : List ℕ) → same_values k l ≡ true → k ≡ l
same_values_lem [] [] h = refl
same_values_lem [] (y ∷ l) h = absurd (ground arith)
same_values_lem (x ∷ k) [] h = absurd (ground arith)
same_values_lem (x ∷ k) (y ∷ l) h = elim (Bool-cases (x == y)) [
  | inl e ↦ ap (λ z. z ∷ k) ((==_iff x y).0 e) ∙ ap (◌∷◌ y) (same_values_lem k l (rw e at h))
  | inr e ↦ absurd (ground arith)
]

same_group_lem : (k l : Group) → same_group k l ≡ true → k ≡ l
same_group_lem (value_list k) (value_list l) h = ap value_list (same_values_lem k l h)
same_group_lem (single_text v) (single_text w) h = ap single_text ((==_iff v w).0 h)
same_group_lem (other_group m) (other_group n) h = ap other_group ((==_iff m n).0 h)
same_group_lem (value_list k) (single_text w) h = absurd (ground arith)
same_group_lem (value_list k) (other_group w) h = absurd (ground arith)
same_group_lem (single_text k) (value_list w) h = absurd (ground arith)
same_group_lem (single_text k) (other_group w) h = absurd (ground arith)
same_group_lem (other_group k) (value_list w) h = absurd (ground arith)
same_group_lem (other_group k) (single_text w) h = absurd (ground arith)

has_values_lem : (o : Option Group) (l : Group) → has_values o l ≡ true → o ≡ some l
has_values_lem none l h = absurd (ground arith)
has_values_lem (some k) l h = ap some (same_group_lem k l h)

abbrev listed : Option Group → Option Group
listed none = none
listed (some g) = some (value_list (values_in g))

lookup-as_lists : (k : ℕ) (d : TargetsByType) → lookup k (as_lists d) ≡ listed (lookup k d)
lookup-as_lists k [] = refl
lookup-as_lists k ((j, g) ∷ d) = elim (Bool-cases (k == j)) [
  | inl q ↦ rw q refl
  | inr q ↦ rw q (lookup-as_lists k d)
]

listed-as_groups : (k : ℕ) (d : Lists) → listed (lookup k (as_groups d)) ≡ lookup k (as_groups d)
listed-as_groups k [] = refl
listed-as_groups k ((j, l) ∷ d) = elim (Bool-cases (k == j)) [
  | inl q ↦ rw q refl
  | inr q ↦ rw q (listed-as_groups k d)
]

listed-group_targets_by_type :
    (k : ℕ) (l : List Target)
    → listed (lookup k (group_targets_by_type l)) ≡ lookup k (group_targets_by_type l)
unfolding group_targets_by_type
listed-group_targets_by_type k l = listed-as_groups k (group_into [] l)

includes-lookup :
    (k : ℕ) (c d : TargetsByType) (l : Group)
    → includes c d ≡ true
    → lookup k c ≡ some l
    → lookup k d ≡ some l
includes-lookup k [] d l h e = absurd (ground arith)
includes-lookup k ((j, m) ∷ c) d l h e = elim (Bool-cases (has_values (lookup j d) m)) [
  | inr v ↦ absurd (ground arith)
  | inl v ↦ elim (Bool-cases (k == j)) [
    | inl q ↦ rw ((==_iff k j).0 q) (has_values_lem (lookup j d) m v ∙ (rw q at e))
    | inr q ↦ includes-lookup k c d l (rw v at h) (rw q at e)
  ]
]

-- Dicts that compare as equal have the same entries.
same_groups-lookup :
    (c d : TargetsByType) → same_groups c d ≡ true → (k : ℕ) → lookup k c ≡ lookup k d
same_groups-lookup c d h k = elim (Option-cases (lookup k c)) [
  | inr (l, e) ↦ e ∙ sym (includes-lookup k c d l (ground arith) e)
  | inl e ↦ elim (Option-cases (lookup k d)) [
    | inl f ↦ e ∙ sym f
    | inr (l, f) ↦ absurd (cc (e, includes-lookup k d c l (ground arith) f))
  ]
]

-- The groups, if they are given at all, have different keys, and each is a list that is not empty or
-- a single text.
abbrev pub GivenGroups : Option TargetsByType → Type 0
GivenGroups none = Unit
GivenGroups (some d) = IsGrouped d

-- The two forms of the targets have the same types of targets and give the same values for each; a
-- single text of the grouped form counts as the list of it.
abbrev pub Agree : List Target → TargetsByType → Type 0
Agree l d = (k : ℕ) → lookup k (group_targets_by_type l) ≡ lookup k (as_lists d)

pub same_groups-Agree :
    (l : List Target) (d : TargetsByType)
    → same_groups (group_targets_by_type l) d ≡ true
    → Agree l d
same_groups-Agree l d e k =
    sym (listed-group_targets_by_type k l)
    ∙ ap listed (same_groups-lookup (group_targets_by_type l) d e k)
    ∙ sym (lookup-as_lists k d)

abbrev pub BothAgree : Result (List Target × TargetsByType) → Type 0
BothAgree (raise e) = Unit
BothAgree (ok (l, d)) = Agree l d

pub both_targets-BothAgree :
    (o : Option (List Target)) (p : Option TargetsByType)
    → GivenGroups p
    → BothAgree (both_targets o p)
unfolding both_targets
both_targets-BothAgree none none g = tt
both_targets-BothAgree (some l) none g =
    λ k. sym (listed-group_targets_by_type k l) ∙ sym (lookup-as_lists k (group_targets_by_type l))
both_targets-BothAgree none (some d) g = λ k. ap (lookup k) (group-ungroup_targets_by_type d g).0
both_targets-BothAgree (some l) (some d) g =
    elim (Bool-cases (same_groups (group_targets_by_type l) d)) [
      | inl e ↦ rw e (same_groups-Agree l d e)
      | inr e ↦ rw e tt
    ]

-- Both forms of the targets are there and agree, and the status is that of the clock.
abbrev pub IsConsistent : Instant → Event → Type 0
IsConsistent now e =
    (l : List Target) × (d : TargetsByType) × (e.targets ≡ some l)
    × (e.targets_by_type ≡ some d)
    × Agree l d
    × (event_status e ≡ determine_event_status now e.active_period)

abbrev MadeConsistent : Instant → Result Event → Type 0
MadeConsistent now (raise e) = Unit
MadeConsistent now (ok e) = IsConsistent now e

with_both :
    (now : Instant) (a : EventArguments) (p : ActivePeriod)
    (x : Result (List Target × TargetsByType))
    → BothAgree x
    → MadeConsistent now (elim x [ raise e ↦ raise e | ok y ↦ ok (event_with now a p y) ])
with_both now a p (raise e) h = tt
with_both now a p (ok (l, d)) h = (l, d, refl, refl, h, refl)

with_period :
    (now : Instant) (a : EventArguments) (x : Result ActivePeriod)
    → GivenGroups a.targets_by_type
    → MadeConsistent now (elim x [
      | raise e ↦ raise e
      | ok p ↦ elim (both_targets a.targets a.targets_by_type) [
        | raise e ↦ raise e
        | ok y ↦ ok (event_with now a p y)
      ]
    ])
with_period now a (raise e) g = tt
with_period now a (ok p) g =
    with_both now a p (both_targets a.targets a.targets_by_type)
      (both_targets-BothAgree a.targets a.targets_by_type g)

-- An event whose constructor returns has both forms of its targets, with the same types of targets
-- and the same values for each, whichever forms were given, where a group that is a single text
-- counts as the list of it; and it has the status of the clock. Groups that are given have to have
-- different keys, and each has to be a list that is not empty or a single text.
pub make_event-IsConsistent :
    (now : Instant) (a : EventArguments) (e : Event)
    → GivenGroups a.targets_by_type
    → make_event now a ≡ ok e
    → IsConsistent now e
unfolding make_event
make_event-IsConsistent now a e g h =
    subst (MadeConsistent now) h (with_period now a (period_or a.event_signals a.active_period) g)
