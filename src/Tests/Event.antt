-- ===== src/Tests/Event.antt =====
-- The theorems on event data at concrete inputs.
use mathlib.Core.List.{Perm}
use openleadr_python.Base.{◌≡◌, refl, ◌≢◌, ◌↔◌, [], ◌∷◌, none, some, map}
use openleadr_python.Base.Int.{pos, ◌≤ℤ◌, ◌+ℤ◌, ◌-ℤ◌}
use openleadr_python.Base.Exec.{ok}
use openleadr_python.Base.Sort.{Sorted}
use openleadr_python.Event.{none_status, near, active, completed, cancelled, far}
use openleadr_python.Event.Status.{
  determine_event_status, determine_event_status_iff, HasEnded, HasRampedUp,
}
use openleadr_python.Event.Period.{Span}
use openleadr_python.Event.Order.{Ordered, order_events, many, items, update_status}
use openleadr_python.Event.Order.Laws.{Before, order_events_sorts}
use openleadr_python.Event.{
  Event as EventData, ActivePeriod, TargetsByType, value_list, single_text,
}
use openleadr_python.Event.Period.{min_of, max_of, plain_period}
use openleadr_python.Event.Targets.{group_targets_by_type, ungroup_targets_by_type}
use openleadr_python.Event.Targets.RoundTrip.{
  IsGrouped, as_lists, AreLists, group-ungroup_targets_by_type,
}
use openleadr_python.Event.Objects.{EventArguments, make_event, event_with}
use openleadr_python.Event.Objects.Consistent.{IsConsistent, make_event-IsConsistent}
use openleadr_python.Event.Objects.Opts.{Opt, make_opt, IsProper, make_opt-IsProper}
use openleadr_python.Event.Objects.{both_targets}
use openleadr_python.Tests.{ramped_period, event}

ramping_up : determine_event_status (pos 97000000) ramped_period ≡ near
unfolding determine_event_status ◌+ℤ◌ ◌-ℤ◌
ramping_up = refl

determine_event_status_iff_example :
    ((determine_event_status (pos 97000000) ramped_period ≡ completed)
      ↔ HasEnded (pos 97000000) ramped_period)
    × ((determine_event_status (pos 97000000) ramped_period ≡ active)
        ↔ ((pos 100000000 ≤ℤ pos 97000000) × (¬ HasEnded (pos 97000000) ramped_period)))
    × ((determine_event_status (pos 97000000) ramped_period ≡ near)
        ↔ ((¬ (pos 100000000 ≤ℤ pos 97000000)) × HasRampedUp (pos 97000000) ramped_period))
    × (determine_event_status (pos 97000000) ramped_period ≢ none_status)
    × (determine_event_status (pos 97000000) ramped_period ≢ cancelled)
determine_event_status_iff_example = determine_event_status_iff (pos 97000000) ramped_period

abbrev first_span : Span
first_span = record { dtstart = pos 100; duration = pos 50 }

abbrev second_span : Span
second_span = record { dtstart = pos 150; duration = pos 30 }

order_events_sorts_example :
    (o : Ordered) × (order_events
        (pos 97000000)
        none
        none
        (many (event 1 0 far ∷ event 2 0 cancelled ∷ []))
      ≡ some o)
    × Perm (items o) (map (update_status (pos 97000000)) (event 1 0 far ∷ event 2 0 cancelled ∷ []))
    × Sorted Before (items o)
order_events_sorts_example =
    order_events_sorts (pos 97000000) (event 1 0 far ∷ event 2 0 cancelled ∷ [])

abbrev grouped : TargetsByType
grouped = (1, value_list (10 ∷ 11 ∷ [])) ∷ (2, single_text 20) ∷ []

abbrev grouped-IsGrouped : IsGrouped grouped
grouped-IsGrouped = ((10, 11 ∷ [], refl), refl, ((20, [], refl), refl, tt))

group-ungroup_targets_by_type_example :
    (group_targets_by_type (ungroup_targets_by_type grouped) ≡ as_lists grouped)
    × (AreLists grouped → group_targets_by_type (ungroup_targets_by_type grouped) ≡ grouped)
group-ungroup_targets_by_type_example = group-ungroup_targets_by_type grouped grouped-IsGrouped

-- Arguments with targets in one form, and no period.
abbrev arguments : EventArguments
arguments = record {
  event_descriptor = (event 5 0 far).event_descriptor;
  event_signals = (event 5 0 far).event_signals;
  targets = none;
  targets_by_type = some grouped;
  active_period = none;
  response_required = some "always";
}

abbrev made_period : ActivePeriod
made_period = plain_period (record { dtstart = pos 100000000; duration = pos 10000000 })

abbrev made : EventData
made = event_with (pos 97000000) arguments made_period (ungroup_targets_by_type grouped, grouped)

is_made : make_event (pos 97000000) arguments ≡ ok made
is_made = unfold make_event ◌+ℤ◌ ◌-ℤ◌ min_of max_of in refl

make_event-IsConsistent_example : IsConsistent (pos 97000000) made
make_event-IsConsistent_example =
    make_event-IsConsistent (pos 97000000) arguments made grouped-IsGrouped is_made

abbrev pub opt : Opt
opt = record {
  opt_type = "optOut";
  opt_reason = "mustRun";
  opt_id = some 1;
  created_date_time = none;
  event_id = some 5;
  modification_number = none;
  vavailability = none;
  targets = none;
  targets_by_type = some grouped;
  market_context = none;
  signal_target_mrid = some "Thermostat";
}

abbrev pub made_opt : Opt
made_opt = record opt {
  created_date_time = some (pos 5);
  modification_number = some 0;
  targets = some (ungroup_targets_by_type grouped);
}

pub opt_is_made : make_opt (pos 5) opt ≡ ok made_opt
opt_is_made = unfold make_opt both_targets in refl

make_opt-IsProper_example : IsProper made_opt
make_opt-IsProper_example = make_opt-IsProper (pos 5) opt made_opt grouped-IsGrouped opt_is_made
