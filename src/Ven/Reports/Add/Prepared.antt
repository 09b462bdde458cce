-- ===== src/Ven/Reports/Add/Prepared.antt =====
-- How the measurement of a new datapoint is prepared.
use openleadr_python.Base.{
  ℕ, String, ◌≡◌, refl, sym, ap, subst, ◌∙◌, ◌⊎◌, inl, inr, Bool, true, false, Option, none, some,
  Bool-cases, Option-cases, if◌then◌else◌,
}
use openleadr_python.Base.Exec.{
  Result, Result-cases, Error, ok, raise, value_error, attribute_error, continue, lift, pure, ◌>>◌,
}
use openleadr_python.Base.Dict.{lookup, lookup-insert_self}
use openleadr_python.Event.Preflight.{and_then, namespace_of}
use openleadr_python.Event.Measurements.{MeasurementDict, validate_report_measurement_dict}
use openleadr_python.Ven.Reports.Add.Items.{
  Item, ItemStore, custom_item, make_item, measurement_members,
}
use openleadr_python.Ven.Reports.Add.{
  is_status, find_member, put_item, member_or, correct_dict, item_of, item_base, set_item,
  scale_found, scale_item, set_scale, check_unit, finish, prepare,
}
use openleadr_python.Ven.Reports.Add.Input.{
  Offers, MeasurementArgument, absent, by_name, by_object, by_dict, Arguments,
}

-- The objects after the measurement is prepared.
abbrev pub with_items : ItemStore → Offers → Offers
with_items items s = record s { items = items }

-- The measurement that a datapoint gets has the scale that was asked for.
abbrev pub HasScale : String → Option ℕ → ItemStore → Type 0
HasScale scale none items = Unit
HasScale scale (some p) items =
    (x : Item) × (lookup p items.objects ≡ some x) × (x.scale ≡ some scale)

-- The object that a measurement stands for: the one that is given, the member of the name, or a
-- new one for a name that is no member's.
pub data Refers (s : Offers) : MeasurementArgument → ℕ → Type 0 where
  object : (p : ℕ) → Refers s (by_object p) p
  member :
      (t : String) (p : ℕ) → find_member t measurement_members ≡ some p → Refers s (by_name t) p
  custom :
      (t : String) → find_member t measurement_members ≡ none → Refers s (by_name t) s.items.next

abbrev Measures : Offers → MeasurementArgument → Option ℕ → Type 0
Measures s m item = (p : ℕ) × (item ≡ some p) × Refers s m p

-- A report of the status has no measurement, and every other one has that of its argument.
abbrev pub IsMeasured : Arguments → Offers → Option ℕ → Type 0
IsMeasured a s item =
    ((is_status a ≡ true) × (item ≡ none)) ⊎ ((is_status a ≡ false) × Measures s a.measurement item)

-- Nothing is changed, but for a dict that is the measurement, which may have been corrected.
abbrev pub IsLeft : MeasurementArgument → Offers → Offers → Type 0
IsLeft m s t = (t ≡ s) ⊎ ((p : ℕ) × (m ≡ by_dict p) × (t ≡ correct_dict p s))

-- The measurement is prepared, or nothing else than its dict is changed.
abbrev pub Prepares :
    String
    → Offers
    → MeasurementArgument
    → (Option ℕ → Type 0)
    → Result (Option ℕ) × Offers
    → Type 0
Prepares scale s m C r =
    ((e : Error) × (t : Offers) × (r ≡ (raise e, t)) × IsLeft m s t)
    ⊎ ((item : Option ℕ) × (items : ItemStore) × (r ≡ (ok item, with_items items s))
        × HasScale scale item items
        × C item)

Prepares-as :
    {C D : Option ℕ → Type 0} (scale : String) (s : Offers) (m : MeasurementArgument)
    (r : Result (Option ℕ) × Offers)
    → ((item : Option ℕ) → C item → D item)
    → Prepares scale s m C r
    → Prepares scale s m D r
Prepares-as scale s m r f (inl h) = inl h
Prepares-as scale s m r f (inr (item, items, e, scaled, c)) = inr (item, items, e, scaled, f item c)

module _ (scale : String) (unit : Option String) (p : ℕ) (s : Offers) where
  abbrev after_scale : Result (Unit {0}) × Offers → Result (Option ℕ) × Offers
  after_scale r = continue r (λ _. lift (check_unit (some p) unit) >> pure (some p))

  -- An object that has a scale gets the new one.
  finish_scaled :
      (x : Item) (c : String)
      → lookup p s.items.objects ≡ some x
      → x.scale ≡ some c
      → finish scale unit (some p) s ≡ (ok (some p), set_item p (record x { scale = some scale }) s)
  unfolding set_scale
  finish_scaled x c k j =
      ap (λ o. after_scale (scale_found scale p o s)) k
      ∙ ap (λ o. after_scale (scale_item scale p x o s)) j

  finish_cases :
      (m : MeasurementArgument) (C : Option ℕ → Type 0)
      → C (some p)
      → Prepares scale s m C (finish scale unit (some p) s)
  unfolding set_scale
  finish_cases m C holds = elim (Option-cases (lookup p s.items.objects)) [
    | inl k ↦ inl (attribute_error, s, ap (λ o. after_scale (scale_found scale p o s)) k, inl refl)
    | inr (x, k) ↦ elim (Option-cases x.scale) [
      | inl j ↦ inl (
        value_error,
        s,
        ap (λ o. after_scale (scale_found scale p o s)) k
            ∙ ap (λ o. after_scale (scale_item scale p x o s)) j,
        inl refl,
      )
      | inr (c, j) ↦ inr (
        some p,
        (set_item p (record x { scale = some scale }) s).items,
        finish_scaled x c k j,
        (
          record x { scale = some scale },
          lookup-insert_self p (record x { scale = some scale }) s.items.objects,
          refl,
        ),
        holds,
      )
    ]
  ]

scale-custom_item :
    (t : String) (unit : Option String) (scale : String)
    → (custom_item t unit scale).scale ≡ some scale
unfolding make_item namespace_of
scale-custom_item t unit scale = refl

item_of_cases :
    (m : MeasurementArgument) (unit : Option String) (scale : String) (s : Offers)
    → Prepares scale s m (Measures s m) (continue (item_of m unit scale s) (finish scale unit))
item_of_cases absent unit scale s = inl (attribute_error, s, refl, inl refl)
item_of_cases (by_object p) unit scale s =
    finish_cases scale unit p s (by_object p) (Measures s (by_object p)) (p, refl, object p)
item_of_cases (by_dict p) unit scale s =
    elim (Result-cases (validate_report_measurement_dict (s.dicts p))) [
      | inl (n, k) ↦ inl (
        attribute_error,
        correct_dict p s,
        ap (λ r. continue (refused r) (finish scale unit)) k,
        inr (p, refl, refl),
      )
      | inr (e, k) ↦ inl (
        e,
        correct_dict p s,
        ap (λ r. continue (refused r) (finish scale unit)) k,
        inr (p, refl, refl),
      )
    ]
  where
    refused : Result MeasurementDict → Result (Option ℕ) × Offers
    refused r = (and_then r (λ _. raise attribute_error), correct_dict p s)
item_of_cases (by_name t) unit scale s = elim (Option-cases (find_member t measurement_members)) [
  | inr (p, k) ↦
      subst (Prepares scale s (by_name t) (Measures s (by_name t)))
        (sym (ap (λ o. continue (member_or t unit scale o s) (finish scale unit)) k))
        (finish_cases scale unit p s (by_name t) (Measures s (by_name t)) (p, refl, member t p k))
  | inl k ↦
      let x = custom_item t unit scale in
      inr (
        some s.items.next,
        (set_item s.items.next (record x { scale = some scale }) (put_item x s)).items,
        ap (λ o. continue (member_or t unit scale o s) (finish scale unit)) k
            ∙ finish_scaled scale unit s.items.next (put_item x s) x scale
                (lookup-insert_self s.items.next x s.items.objects)
                (scale-custom_item t unit scale),
        (
          record x { scale = some scale },
          lookup-insert_self s.items.next (record x { scale = some scale }) _,
          refl,
        ),
        (s.items.next, refl, custom t k),
      )
]

pub prepare_cases :
    (scale : String) (a : Arguments) (s : Offers)
    → Prepares scale s a.measurement (IsMeasured a s) (prepare scale a s)
unfolding prepare item_base
prepare_cases scale a s = elim (Bool-cases (is_status a)) [
  | inl k ↦
      subst (Prepares scale s a.measurement (IsMeasured a s)) (sym (ap chosen k)) (status k a.unit)
  | inr k ↦ subst (Prepares scale s a.measurement (IsMeasured a s)) (sym (ap chosen k)) (
      Prepares-as scale s a.measurement _ (λ item c. inr (k, c))
        (item_of_cases a.measurement a.unit scale s))
]
  where
    chosen : Bool → Result (Option ℕ) × Offers
    chosen b =
        continue (if b then (ok none, s) else item_of a.measurement a.unit scale s)
          (finish scale a.unit)

    status :
        is_status a ≡ true
        → (unit : Option String)
        → Prepares scale s a.measurement (IsMeasured a s) (finish scale unit none s)
    status k none = inr (none, s.items, refl, tt, inl (k, refl))
    status k (some u) = inl (attribute_error, s, refl, inl refl)
