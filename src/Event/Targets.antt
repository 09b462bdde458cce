-- ===== src/Event/Targets.antt =====
-- utils.group_targets_by_type and utils.ungroup_targets_by_type: the two forms of the targets of an
-- event. Values are numbers, whatever they stand for; a group is a list of them, a single text, or
-- something else.
pub mod RoundTrip
use openleadr_python.Base.{ℕ, none, some, List, [], ◌∷◌, ◌++◌, map}
use openleadr_python.Base.Dict.{Dict, lookup_or, insert}
use openleadr_python.Event.{Target, Group, value_list, single_text, other_group, TargetsByType}

-- The groups while they are made, which are lists.
abbrev pub Lists : Type 0
Lists = Dict (List ℕ)

abbrev pub as_groups : Lists → TargetsByType
as_groups [] = []
as_groups ((key, l) ∷ d) = (key, value_list l) ∷ as_groups d

abbrev pub add_value : ℕ → ℕ → Lists → Lists
add_value key v d = insert key (lookup_or key [] d ++ v ∷ []) d

-- The inner loop, over the items of one target.
unfoldable pub group_target : Target → Lists → Lists
group_target [] d = d
group_target ((key, none) ∷ t) d = group_target t d
group_target ((key, some v) ∷ t) d = group_target t (add_value key v d)

-- The outer loop, from the groups made so far.
unfoldable pub group_into : Lists → List Target → Lists
unfolding group_target
group_into d [] = d
group_into d (t ∷ l) = group_into (group_target t d) l

unfoldable pub group_targets_by_type : List Target → TargetsByType
unfolding group_into
group_targets_by_type l = as_groups (group_into [] l)

abbrev pub single_target : ℕ → ℕ → Target
single_target key v = (key, some v) ∷ []

-- A group that is neither a list nor a text gives no target.
unfoldable pub ungroup_targets_by_type : TargetsByType → List Target
ungroup_targets_by_type [] = []
ungroup_targets_by_type ((key, value_list l) ∷ d) =
    map (single_target key) l ++ ungroup_targets_by_type d
ungroup_targets_by_type ((key, single_text v) ∷ d) = single_target key v ∷ ungroup_targets_by_type d
ungroup_targets_by_type ((key, other_group n) ∷ d) = ungroup_targets_by_type d
