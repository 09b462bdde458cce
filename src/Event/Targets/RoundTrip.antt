-- ===== src/Event/Targets/RoundTrip.antt =====
-- Grouping undoes ungrouping.
use mathlib.Core.List.{append-nil, append_assoc}
use openleadr_python.Base.{
  ℕ, ◌≡◌, refl, ap, sym, ◌∙◌, inl, inr, false, none, some, List, [], ◌∷◌, ◌++◌, map, arith,
  Bool-cases, All, ◌==◌,
}
use openleadr_python.Base.Dict.{lookup, insert}
use openleadr_python.Event.{Target, Group, value_list, single_text, other_group, TargetsByType}
use openleadr_python.Event.Targets.{
  Lists, as_groups, single_target, add_value, group_target, group_into, group_targets_by_type,
  ungroup_targets_by_type,
}

-- The values that a group gives.
abbrev pub values_in : Group → List ℕ
values_in (value_list l) = l
values_in (single_text v) = v ∷ []
values_in (other_group n) = []

abbrev lists_of : TargetsByType → Lists
lists_of [] = []
lists_of ((key, g) ∷ d) = (key, values_in g) ∷ lists_of d

-- The same groups, each as a list: a single text is the list of it.
abbrev pub as_lists : TargetsByType → TargetsByType
as_lists [] = []
as_lists ((key, g) ∷ d) = (key, value_list (values_in g)) ∷ as_lists d

as_groups-lists_of : (d : TargetsByType) → as_groups (lists_of d) ≡ as_lists d
as_groups-lists_of [] = refl
as_groups-lists_of ((key, g) ∷ d) = ap (◌∷◌ (key, value_list (values_in g))) (as_groups-lists_of d)

-- The keys differ, and every key has a value.
abbrev pub IsGrouped : TargetsByType → Type 0
IsGrouped [] = Unit
IsGrouped ((key, g) ∷ d) =
    ((v : ℕ) × (l : List ℕ) × (values_in g ≡ v ∷ l)) × (lookup key d ≡ none) × IsGrouped d

-- Every group is a list.
abbrev pub AreLists : TargetsByType → Type 0
AreLists [] = Unit
AreLists ((key, g) ∷ d) = ((l : List ℕ) × (g ≡ value_list l)) × AreLists d

pub as_lists_fixed : (d : TargetsByType) → AreLists d → as_lists d ≡ d
as_lists_fixed [] h = refl
as_lists_fixed ((key, g) ∷ d) ((l, e), h) =
    ap (λ z. (key, value_list (values_in z)) ∷ as_lists d) e
    ∙ ap (λ z. (key, z) ∷ as_lists d) (sym e)
    ∙ ap (◌∷◌ (key, g)) (as_lists_fixed d h)

abbrev ungroup_lists : Lists → List Target
ungroup_lists [] = []
ungroup_lists ((key, l) ∷ d) = map (single_target key) l ++ ungroup_lists d

ungroup_lists-lists_of :
    (d : TargetsByType) → ungroup_targets_by_type d ≡ ungroup_lists (lists_of d)
unfolding ungroup_targets_by_type
ungroup_lists-lists_of [] = refl
ungroup_lists-lists_of ((key, value_list l) ∷ d) =
    ap (λ z. map (single_target key) l ++ z) (ungroup_lists-lists_of d)
ungroup_lists-lists_of ((key, single_text v) ∷ d) =
    ap (◌∷◌ (single_target key v)) (ungroup_lists-lists_of d)
ungroup_lists-lists_of ((key, other_group n) ∷ d) = ungroup_lists-lists_of d

lookup-lists_of : (k : ℕ) (d : TargetsByType) → lookup k d ≡ none → lookup k (lists_of d) ≡ none
lookup-lists_of k [] h = refl
lookup-lists_of k (e ∷ d) h = elim (Bool-cases (k == e.0)) [
  | inl q ↦ absurd (ground arith)
  | inr q ↦ rw q (lookup-lists_of k d (rw q at h))
]

-- The lists differ in their keys, and none is empty.
abbrev HaveValues : Lists → Type 0
HaveValues [] = Unit
HaveValues ((key, m) ∷ d) =
    ((v : ℕ) × (l : List ℕ) × (m ≡ v ∷ l)) × (lookup key d ≡ none) × HaveValues d

lists_of-HaveValues : (d : TargetsByType) → IsGrouped d → HaveValues (lists_of d)
lists_of-HaveValues [] g = tt
lists_of-HaveValues ((key, g) ∷ d) (some_value, new, rest) =
    (some_value, lookup-lists_of key d new, lists_of-HaveValues d rest)

module _ (k : ℕ) where
  insert-fresh : (v : List ℕ) (d : Lists) → lookup k d ≡ none → insert k v d ≡ d ++ (k, v) ∷ []
  insert-fresh v [] h = refl
  insert-fresh v (e ∷ d) h = elim (Bool-cases (k == e.0)) [
    | inl q ↦ absurd (ground arith)
    | inr q ↦ rw q (ap (◌∷◌ e) (insert-fresh v d (rw q at h)))
  ]

  insert-last :
      (v w : List ℕ) (d : Lists)
      → lookup k d ≡ none
      → insert k v (d ++ (k, w) ∷ []) ≡ d ++ (k, v) ∷ []
  insert-last v w [] h = ground arith
  insert-last v w (e ∷ d) h = elim (Bool-cases (k == e.0)) [
    | inl q ↦ absurd (ground arith)
    | inr q ↦ rw q (ap (◌∷◌ e) (insert-last v w d (rw q at h)))
  ]

  lookup-last : (w : List ℕ) (d : Lists) → lookup k d ≡ none → lookup k (d ++ (k, w) ∷ []) ≡ some w
  lookup-last w [] h = ground arith
  lookup-last w (e ∷ d) h = ground (arith, lookup-last w d)

  -- More values of the last group.
  group-last :
      (values w : List ℕ) (l : List Target) (d : Lists)
      → lookup k d ≡ none
      → group_into (d ++ (k, w) ∷ []) (map (single_target k) values ++ l)
        ≡ group_into (d ++ (k, w ++ values) ∷ []) l
  unfolding group_into group_target
  group-last [] w l d h = ap (λ z. group_into (d ++ (k, z) ∷ []) l) (sym (append-nil w))
  group-last (v ∷ values) w l d h =
      ap (λ z. group_into z (map (single_target k) values ++ l)) added
      ∙ group-last values (w ++ v ∷ []) l d h
      ∙ ap (λ z. group_into (d ++ (k, z) ∷ []) l) (append_assoc w (v ∷ []) values)
    where
      added : add_value k v (d ++ (k, w) ∷ []) ≡ d ++ (k, w ++ v ∷ []) ∷ []
      added =
          ap (λ o. insert k (elim o [ none ↦ [] | some z ↦ z ] ++ v ∷ []) (d ++ (k, w) ∷ []))
            (lookup-last w d h)
          ∙ insert-last (w ++ v ∷ []) w d h

  group-first :
      (v : ℕ) (values : List ℕ) (l : List Target) (d : Lists)
      → lookup k d ≡ none
      → group_into d (map (single_target k) (v ∷ values) ++ l)
        ≡ group_into (d ++ (k, v ∷ values) ∷ []) l
  unfolding group_into group_target
  group-first v values l d h =
      ap (λ z. group_into z (map (single_target k) values ++ l)) added
      ∙ group-last values (v ∷ []) l d h
    where
      added : add_value k v d ≡ d ++ (k, v ∷ []) ∷ []
      added =
          ap (λ o. insert k (elim o [ none ↦ [] | some z ↦ z ] ++ v ∷ []) d) h
          ∙ insert-fresh (v ∷ []) d h

  lookup-last_other :
      (j : ℕ) (w : List ℕ) (d : Lists)
      → (j == k) ≡ false
      → lookup j d ≡ none
      → lookup j (d ++ (k, w) ∷ []) ≡ none
  lookup-last_other j w [] ne h = rw ne refl
  lookup-last_other j w (e ∷ d) ne h = elim (Bool-cases (j == e.0)) [
    | inl q ↦ absurd (ground arith)
    | inr q ↦ rw q (lookup-last_other j w d ne (rw q at h))
  ]

  -- A new group leaves the keys that are to come new.
  fresh-last :
      (w : List ℕ) (d rest : Lists)
      → lookup k rest ≡ none
      → All (λ e. lookup e.0 d ≡ none) rest
      → All (λ e. lookup e.0 (d ++ (k, w) ∷ []) ≡ none) rest
  fresh-last w d [] h f = tt
  fresh-last w d (e ∷ rest) h f = elim (Bool-cases (k == e.0)) [
    | inl q ↦ absurd (ground arith)
    | inr q ↦ (lookup-last_other e.0 w d (ground arith) f.0, fresh-last w d rest (rw q at h) f.1)
  ]

group-ungroup_into :
    (rest d : Lists)
    → HaveValues rest
    → All (λ e. lookup e.0 d ≡ none) rest
    → group_into d (ungroup_lists rest) ≡ d ++ rest
unfolding group_into
group-ungroup_into [] d g f = sym (append-nil d)
group-ungroup_into ((k, values) ∷ rest) d ((v, l, shape), new, g) f = rw shape (
    group-first k v l (ungroup_lists rest) d f.0
    ∙ group-ungroup_into rest (d ++ (k, v ∷ l) ∷ []) g (fresh-last k (v ∷ l) d rest new f.1)
    ∙ append_assoc d ((k, v ∷ l) ∷ []) rest)

nothing_grouped : (rest : Lists) → All (λ e. lookup {V = List ℕ} e.0 [] ≡ none) rest
nothing_grouped [] = tt
nothing_grouped (e ∷ rest) = (refl, nothing_grouped rest)

-- Groups with different keys, each of a list that is not empty or of a single text, come back from
-- their single targets as they were, but for the single texts, which are now lists of one value.
-- If every group is a list, they come back just as they were.
pub group-ungroup_targets_by_type :
    (d : TargetsByType)
    → IsGrouped d
    → (group_targets_by_type (ungroup_targets_by_type d) ≡ as_lists d)
      × (AreLists d → group_targets_by_type (ungroup_targets_by_type d) ≡ d)
unfolding group_targets_by_type
group-ungroup_targets_by_type d g = (
  ap (λ l. as_groups (group_into [] l)) (ungroup_lists-lists_of d)
      ∙ ap as_groups (
          group-ungroup_into (lists_of d) [] (lists_of-HaveValues d g)
            (nothing_grouped (lists_of d)))
      ∙ as_groups-lists_of d,
  λ h.
      ap (λ l. as_groups (group_into [] l)) (ungroup_lists-lists_of d)
      ∙ ap as_groups (
          group-ungroup_into (lists_of d) [] (lists_of-HaveValues d g)
            (nothing_grouped (lists_of d)))
      ∙ as_groups-lists_of d
      ∙ as_lists_fixed d h,
)
