-- ===== src/Event/Order/Laws.antt =====
-- What the order of delivery promises: no event is lost or made up, active events come first, and
-- the start of the period decides before the priority does.
use mathlib.Core.List.{Perm, perm_middle}
use mathlib.Core.List.Perm
use openleadr_python.Base.{
  ℕ, ◌≡◌, refl, inl, inr, Bool, true, false, not, Option, none, some, List, [], ◌∷◌, ◌++◌, map,
  arith, All, All-append, All-map_of, select, select-All, Bool-cases,
}
use openleadr_python.Base.Int.{leb_ℤ_total, leb_ℤ_trans}
use openleadr_python.Base.Sort.{sort, Sorted, Lex, sort-perm, sort-All}
use openleadr_python.Base.Sort.Order.{By, sort-Sorted, sort-Lex}
use openleadr_python.Event.{Instant, Event, event_status, is_active}
use openleadr_python.Event.Order.{
  update_status, event_priority, priority_le, by_priority, by_dtstart, active_events, other_events,
  sorted_events, order_updated, items, Ordered, order_events, many,
}

-- The elements that pass a test, and then those that fail it.
select-perm {ℓ} :
    {A : Type ℓ} (p : A → Bool) (xs : List A) → Perm (select p xs ++ select (λ x. not (p x)) xs) xs
select-perm p [] = Perm.refl []
select-perm p (x ∷ xs) = elim (Bool-cases (p x)) [
  | inl e ↦ rw e (Perm.cons x (select-perm p xs))
  | inr e ↦ rw e (
      Perm.trans (perm_middle (select p xs) (select (λ x. not (p x)) xs))
        (Perm.cons x (select-perm p xs)))
]

pub sorted_events-perm : (l : List Event) → Perm (sorted_events l) l
unfolding sorted_events
sorted_events-perm l =
    Perm.trans
      (Perm.append
        (Perm.trans (sort-perm by_dtstart (sort by_priority (active_events l)))
          (sort-perm by_priority (active_events l)))
        (sort-perm by_dtstart (other_events l)))
      (select-perm (λ e. is_active (event_status e)) l)

-- An event is delivered no later than another by these three rules.
pub record Before (x y : Event) : Type 0 where
  pub active_first : is_active (event_status y) ≡ true → is_active (event_status x) ≡ true
  pub earlier_first :
      is_active (event_status x) ≡ is_active (event_status y) → by_dtstart x y ≡ true
  pub priority_next :
      is_active (event_status x) ≡ true
      → is_active (event_status y) ≡ true
      → by_dtstart y x ≡ true
      → by_priority x y ≡ true

abbrev IsActive : Event → Type 0
IsActive e = is_active (event_status e) ≡ true

abbrev IsOther : Event → Type 0
IsOther e = not (is_active (event_status e)) ≡ true

Before-active : (x y : Event) → IsActive x → Lex by_dtstart by_priority x y → Before x y
Before-active x y h l = record {
  active_first = λ _. h;
  earlier_first = λ _. l.0;
  priority_next = λ _ _ e. l.1 e;
}

Before-other : (x y : Event) → IsOther x → IsOther y → By by_dtstart x y → Before x y
Before-other x y h k l = record {
  active_first = λ e. ground arith;
  earlier_first = λ _. l;
  priority_next = λ e _ _. ground arith;
}

Before-mixed : (x y : Event) → IsActive x → IsOther y → Before x y
Before-mixed x y h k = record {
  active_first = λ _. h;
  earlier_first = λ e. ground arith;
  priority_next = λ _ e _. ground arith;
}

module _ {ℓ κ μ} {A : Type ℓ} {R : A → A → Type κ} {S : A → A → Type κ} (P : A → Type μ)
    (conv : (x y : A) → P x → P y → R x y → S x y) where
  All-conv : (x : A) (ys : List A) → P x → All P ys → All (R x) ys → All (S x) ys
  All-conv x [] p ps h = tt
  All-conv x (y ∷ ys) p ps h = (conv x y p ps.0 h.0, All-conv x ys p ps.1 h.1)

  Sorted-conv : (xs : List A) → All P xs → Sorted R xs → Sorted S xs
  Sorted-conv [] ps h = tt
  Sorted-conv (x ∷ xs) ps h = (All-conv x xs ps.0 ps.1 h.0, Sorted-conv xs ps.1 h.1)

Sorted-append :
    (xs ys : List Event)
    → All IsActive xs
    → All IsOther ys
    → Sorted Before xs
    → Sorted Before ys
    → Sorted Before (xs ++ ys)
Sorted-append [] ys hx hy sx sy = sy
Sorted-append (x ∷ xs) ys hx hy sx sy = (
  All-append (Before x) xs ys sx.0
      (All-map_of IsOther (Before x) ys (λ y h. Before-mixed x y hx.0 h) hy),
  Sorted-append xs ys hx.1 hy sx.1 sy,
)

priority_le_total : (a b : Option ℕ) → priority_le a b ≡ false → priority_le b a ≡ true
priority_le_total none none h = refl
priority_le_total none (some b) h = refl
priority_le_total (some a) none h = cc
priority_le_total (some a) (some b) h = ground arith

priority_le_trans :
    (a b c : Option ℕ) → priority_le a b ≡ true → priority_le b c ≡ true → priority_le a c ≡ true
priority_le_trans a b none h k = refl
priority_le_trans none (some b) (some c) h k = cc
priority_le_trans (some a) (some b) (some c) h k = ground arith
priority_le_trans _ none (some c) h k = cc

dtstart_total : (x y : Event) → by_dtstart x y ≡ false → by_dtstart y x ≡ true
dtstart_total x y = leb_ℤ_total x.active_period.dtstart y.active_period.dtstart

dtstart_trans :
    (x y z : Event) → by_dtstart x y ≡ true → by_dtstart y z ≡ true → by_dtstart x z ≡ true
dtstart_trans x y z =
    leb_ℤ_trans x.active_period.dtstart y.active_period.dtstart z.active_period.dtstart

pub sorted_events-Sorted : (l : List Event) → Sorted Before (sorted_events l)
unfolding sorted_events
sorted_events-Sorted l =
    Sorted-append (sort by_dtstart (sort by_priority (active_events l)))
      (sort by_dtstart (other_events l)) all_active all_other
      (Sorted-conv {R = Lex by_dtstart by_priority} IsActive (λ x y h _ r. Before-active x y h r) _
        all_active
        (sort-Lex by_dtstart dtstart_total dtstart_trans by_priority _ (
          sort-Sorted by_priority (λ x y. priority_le_total (event_priority x) (event_priority y))
            (λ x y z. priority_le_trans (event_priority x) (event_priority y) (event_priority z))
            (active_events l))))
      (Sorted-conv {R = By by_dtstart} IsOther Before-other _ all_other
        (sort-Sorted by_dtstart dtstart_total dtstart_trans (other_events l)))
  where
    all_active : All IsActive (sort by_dtstart (sort by_priority (active_events l)))
    all_active = sort-All IsActive by_dtstart _ (sort-All IsActive by_priority _ (select-All _ l))

    all_other : All IsOther (sort by_dtstart (other_events l))
    all_other = sort-All IsOther by_dtstart _ (select-All _ l)

pub order_updated_sorts :
    (l : List Event)
    → Perm (items (order_updated none none l)) l × Sorted Before (items (order_updated none none l))
unfolding order_updated
order_updated_sorts [] = (sorted_events-perm [], sorted_events-Sorted [])
order_updated_sorts (e ∷ []) = (Perm.refl _, (tt, tt))
order_updated_sorts (e ∷ f ∷ l) = (sorted_events-perm (e ∷ f ∷ l), sorted_events-Sorted (e ∷ f ∷ l))

-- Without a limit, `order_events` delivers the given events, each once, with their statuses
-- brought up to date, and in order: an active event before any other; the earlier start first
-- among the active events and among the others; and among active events that start together, the
-- higher priority first (a lower number; 0 and a missing one are the lowest priority).
pub order_events_sorts :
    (now : Instant) (l : List Event)
    → (o : Ordered) × (order_events now none none (many l) ≡ some o)
      × Perm (items o) (map (update_status now) l)
      × Sorted Before (items o)
unfolding order_events
order_events_sorts now l = (
  order_updated none none (map (update_status now) l),
  refl,
  (order_updated_sorts (map (update_status now) l)).0,
  (order_updated_sorts (map (update_status now) l)).1,
)
