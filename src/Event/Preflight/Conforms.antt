-- ===== src/Event/Preflight/Conforms.antt =====
-- What the events of a message conform to once they have passed the checks.
use openleadr_python.Base.{◌≡◌, sym, subst, List, map, All, true}
use openleadr_python.Base.Exec.{Result, ok}
use openleadr_python.Event.{Instant, Event}
use openleadr_python.Event.Objects.Consistent.{GivenGroups}
use openleadr_python.Event.Preflight.{
  EventDict, each, on_event, set_event, change_event, adjust_duration, check_levels,
  correct_currents, add_namespaces, correct_members, check_targets, last_checks, value_checks,
  level_checks, preflight,
}
use openleadr_python.Event.Preflight.Loops.{and_then_ok, ok-inj, each-All, map-All}
use openleadr_python.Event.Preflight.Rules.{
  lasts, lasts-adjust_duration, HasLevels, HasLevels-check_levels, HasValues,
  HasValues-correct_currents, HasNames, HasNames-add_namespaces, HasMembers,
  HasMembers-correct_members, HasGroups, IsSendable,
}
use openleadr_python.Event.Preflight.Groups.{
  KeepsGroups, adjust_duration-KeepsGroups, check_levels-KeepsGroups, add_namespaces-KeepsGroups,
}
use openleadr_python.Event.Preflight.Forms.{IsSendable-check_targets}

-- What an event is known to keep to, beside its groups.
abbrev With : (Event → Type 0) → EventDict → Type 0
With P s = P s.event × HasGroups s

-- A pass over the events brings about its rule and keeps the groups.
on_event-With :
    (P Q : Event → Type 0) (f : Event → Result Event)
    → ((x y : Event) → P x → f x ≡ ok y → Q y)
    → ((x y : Event) → f x ≡ ok y → KeepsGroups x y)
    → (s t : EventDict) → With P s
    → on_event f s ≡ ok t
    → With Q t
on_event-With P Q f step keeps s t (p, g) h =
    let (e, he, made) = and_then_ok (f s.event) (set_event s) t h in
    subst (With Q) (ok-inj made)
      (step s.event e p he, subst GivenGroups (sym (keeps s.event e he)) g)

-- A message with events that passes the checks sends only events that keep the rules: the active
-- period lasts as long as the intervals of each signal; the values of a signal SIMPLE are levels
-- from 0 to 3, and its current value is 0, which includes the signals of active events; a response
-- is required always or never; there is a time of creation; a measurement has the namespace of
-- power if it is of energy, of power or of voltage, and that of OpenADR otherwise; and an event with
-- groups of targets has the targets too, with the same types of targets and the same values. The
-- groups that were given have different keys, and each is a list that is not empty or a single text.
pub preflight-IsSendable :
    (now : Instant) (l m : List EventDict)
    → All HasGroups l
    → preflight now l ≡ ok m
    → All IsSendable m
unfolding preflight
preflight-IsSendable now l m g h =
    let (a, ha, rest) = and_then_ok (each (on_event adjust_duration) l) (level_checks now) m h in
    let (b, hb, rest2) = and_then_ok (each (on_event check_levels) a) (value_checks now) m rest in
    let (c, hc, rest3) =
      and_then_ok (each (on_event add_namespaces) (map (change_event correct_currents) b))
        (last_checks now) m rest2 in
    let lasting =
      each-All HasGroups (With (λ e. lasts e ≡ true)) (on_event adjust_duration)
        (λ s t k.
          on_event-With (λ _. Unit {0}) (λ e. lasts e ≡ true) adjust_duration lasts-adjust_duration
            adjust_duration-KeepsGroups s t (tt, k))
        l a g ha in
    let levelled =
      each-All (With (λ e. lasts e ≡ true)) (With HasLevels) (on_event check_levels)
        (on_event-With (λ e. lasts e ≡ true) HasLevels check_levels HasLevels-check_levels
          check_levels-KeepsGroups)
        a b lasting hb in
    let valued =
      map-All (With HasLevels) (With HasValues) (change_event correct_currents)
        (λ s p. (HasValues-correct_currents s.event p.0, p.1)) b levelled in
    let named =
      each-All (With HasValues) (With HasNames) (on_event add_namespaces)
        (on_event-With HasValues HasNames add_namespaces HasNames-add_namespaces
          add_namespaces-KeepsGroups)
        (map (change_event correct_currents) b) c valued hc in
    each-All (With HasMembers) IsSendable check_targets IsSendable-check_targets
      (map (change_event (correct_members now)) c) m
      (map-All (With HasNames) (With HasMembers) (change_event (correct_members now))
        (λ s p. (HasMembers-correct_members now s.event p.0, p.1)) c named)
      rest3
