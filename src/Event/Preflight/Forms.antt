-- ===== src/Event/Preflight/Forms.antt =====
-- What the last check makes of the two forms of an event's targets.
use openleadr_python.Base.{
  ◌≡◌, refl, ap, sym, subst, ◌∙◌, inl, inr, Bool, true, false, not, ◌&&◌, Option, none, some, List,
  arith, Bool-cases, if◌then◌else◌,
}
use openleadr_python.Base.Exec.{ok, raise, value_error, type_error, attribute_error}
use openleadr_python.Base.Dict.{lookup}
use openleadr_python.Event.{Target, TargetsByType}
use openleadr_python.Event.Targets.{group_targets_by_type, ungroup_targets_by_type}
use openleadr_python.Event.Targets.RoundTrip.{group-ungroup_targets_by_type}
use openleadr_python.Event.Objects.{same_groups}
use openleadr_python.Event.Objects.Consistent.{GivenGroups, same_groups-Agree}
use openleadr_python.Event.Preflight.{EventDict, with_targets, groups_are, check_targets}
use openleadr_python.Event.Preflight.Loops.{ok-inj}
use openleadr_python.Event.Preflight.Rules.{
  Conforms, HasMembers, Conforms-HasMembers, HasGroups, HasBothForms, IsSendable,
}

module _ (x y : EventDict) where
  -- Two forms that are there are held against each other.
  compared :
      (o : Option (List Target)) (p : Option TargetsByType)
      → x.has_targets ≡ true
      → x.event.targets ≡ o
      → x.event.targets_by_type ≡ p
      → (elim o [
        | none ↦ raise type_error
        | some l ↦ if groups_are (group_targets_by_type l) p then ok x else raise value_error
      ])
        ≡ ok y
      → (x ≡ y) × HasBothForms x
  compared none p t e f h = absurd (ground (arith, h))
  compared (some l) none t e f h = absurd (ground (arith, h))
  compared (some l) (some d) t e f h = elim (Bool-cases (same_groups (group_targets_by_type l) d)) [
    | inl k ↦ (
      ok-inj (sym (ap (λ b. if b then ok x else raise value_error) k) ∙ h),
      λ _. (t, l, d, e, f, same_groups-Agree l d k),
    )
    | inr k ↦ absurd (ground (arith, k, h))
  ]

  -- A form that is missing is made.
  made :
      (p : Option TargetsByType)
      → GivenGroups p
      → x.event.targets_by_type ≡ p
      → (elim p [
        | none ↦ raise attribute_error
        | some d ↦ ok (with_targets x (ungroup_targets_by_type d))
      ])
        ≡ ok y
      → HasBothForms y
  made none g f h = absurd (ground (arith, h))
  made (some d) g f h = subst HasBothForms (ok-inj h) (λ _. (
    refl,
    ungroup_targets_by_type d,
    d,
    refl,
    f,
    λ k. ap (lookup k) (group-ungroup_targets_by_type d g).0,
  ))

  check_targets-HasBothForms :
      HasGroups x → check_targets x ≡ ok y → (Conforms x.event → Conforms y.event) × HasBothForms y
  unfolding check_targets
  check_targets-HasBothForms g h = by_keys x.has_targets x.has_targets_by_type refl refl h
    where
      unchanged :
          x.has_targets_by_type ≡ false
          → x ≡ y
          → (Conforms x.event → Conforms y.event) × HasBothForms y
      unchanged b same = (
        subst (λ z. Conforms x.event → Conforms (EventDict.event z)) same (λ c. c),
        subst HasBothForms same (λ k. absurd (ground (arith, b, k))),
      )

      made_Conforms :
          (p : Option TargetsByType)
          → (elim p [
            | none ↦ raise attribute_error
            | some d ↦ ok (with_targets x (ungroup_targets_by_type d))
          ])
            ≡ ok y
          → Conforms x.event
          → Conforms y.event
      made_Conforms none h c = absurd (ground (arith, h))
      made_Conforms (some d) h c =
          subst (λ z. Conforms (EventDict.event z)) (ok-inj h)
            (record {
              duration = c.duration;
              levels = c.levels;
              current = c.current;
              required = c.required;
              created = c.created;
              namespaces = c.namespaces;
            })

      by_keys :
          (t b : Bool)
          → x.has_targets ≡ t
          → x.has_targets_by_type ≡ b
          → (if t && b
              then elim x.event.targets [
                | none ↦ raise type_error
                | some l ↦
                    if groups_are (group_targets_by_type l) x.event.targets_by_type
                    then ok x
                    else raise value_error
              ]
              else if b && not t
              then elim x.event.targets_by_type [
                | none ↦ raise attribute_error
                | some d ↦ ok (with_targets x (ungroup_targets_by_type d))
              ]
              else ok x)
            ≡ ok y
          → (Conforms x.event → Conforms y.event) × HasBothForms y
      by_keys true false t b h = unchanged b (ok-inj h)
      by_keys false false t b h = unchanged b (ok-inj h)
      by_keys false true t b h =
          (made_Conforms x.event.targets_by_type h, made x.event.targets_by_type g refl h)
      by_keys true true t b h =
          let (same, both) = compared x.event.targets x.event.targets_by_type t refl refl h in
          (
            subst (λ z. Conforms x.event → Conforms (EventDict.event z)) same (λ c. c),
            subst HasBothForms same both,
          )

pub IsSendable-check_targets :
    (x y : EventDict) → HasMembers x.event × HasGroups x → check_targets x ≡ ok y → IsSendable y
IsSendable-check_targets x y (m, g) h =
    let (keeps, both) = check_targets-HasBothForms x y g h in
    (keeps (Conforms-HasMembers x.event m), both)
