-- ===== src/Tests/Preflight.antt =====
-- The theorem on the checks of a message with events at a concrete input.
use openleadr_python.Base.{◌≡◌, refl, true, false, none, some, [], ◌∷◌, All}
use openleadr_python.Base.Int.{pos, ◌+ℤ◌}
use openleadr_python.Base.Exec.{ok}
use openleadr_python.Event.{Event as EventData, active, single_text}
use openleadr_python.Event.Targets.{ungroup_targets_by_type}
use openleadr_python.Event.Preflight.{
  EventDict, total, adjust_duration, check_levels, correct_current, add_ns, add_namespaces,
  correct_required, correct_members, check_targets, preflight,
}
use openleadr_python.Event.Preflight.Rules.{IsSendable}
use openleadr_python.Event.Preflight.Conforms.{preflight-IsSendable}
use openleadr_python.Tests.{event, sample_signal, ramped_period}

-- An active event whose signal has a current value, and what is sent of it.
abbrev given : EventData
given = record (event 7 0 active) {
  event_signals = (record sample_signal { current_value = some (pos 1000) }) ∷ [];
  targets = none;
  targets_by_type = some ((1, single_text 10) ∷ []);
  active_period = record ramped_period { duration = pos 5 };
  response_required = none;
}

abbrev sent : EventData
sent = record given {
  event_signals = (record sample_signal { current_value = some (pos 0) }) ∷ [];
  active_period = record ramped_period { duration = pos 10000000 };
  targets = some (((1, some 10) ∷ []) ∷ []);
  response_required = some "always";
  event_descriptor = record given.event_descriptor { created_date_time = some (pos 3) };
}

-- The event as a dict that has no targets, only groups.
abbrev message : EventDict
message = record { has_targets = false; has_targets_by_type = true; event = given }

abbrev sent_message : EventDict
sent_message = record { has_targets = true; has_targets_by_type = true; event = sent }

given_is_sent : preflight (pos 3) (message ∷ []) ≡ ok (sent_message ∷ [])
given_is_sent =
    unfold preflight adjust_duration total ◌+ℤ◌ check_levels correct_current add_namespaces add_ns
      correct_members correct_required check_targets ungroup_targets_by_type in
    refl

preflight-IsSendable_example : All IsSendable (sent_message ∷ [])
preflight-IsSendable_example =
    preflight-IsSendable (pos 3) (message ∷ []) (sent_message ∷ [])
      ((((10, [], refl), refl, tt), tt)) given_is_sent
