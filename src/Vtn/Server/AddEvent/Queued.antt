-- ===== src/Vtn/Server/AddEvent/Queued.antt =====
-- What `add_event` leaves in the queue.
use text.Mathlib.Text.{starts_with}
use openleadr_python.Base.{
  ℕ, ◌≡◌, refl, sym, ap, subst, ◌∙◌, Bool, true, false, not, ◌&&◌, ◌||◌, Option, some, List, [],
  ◌∷◌, map, arith, if◌then◌else◌,
}
use openleadr_python.Base.Exec.{Result, ok, raise, value_error, continue, pure}
use openleadr_python.Base.Int.{◌-ℤ◌}
use openleadr_python.Event.{Instant, Event, EventSignal, Interval, event_id}
use openleadr_python.Event.Period.{
  Span, span_end, span_of_interval, get_active_period_from_intervals,
}
use openleadr_python.Event.Targets.{group_targets_by_type}
use openleadr_python.Event.Objects.{
  is_member, same_text, signal_names, signal_types, make_event_signal, make_event_descriptor,
  make_event, event_with, both_targets,
}
use openleadr_python.Vtn.EventService.{internal}
use openleadr_python.Vtn.Server.{
  Server, add_raw_event, check_callback, period_of_signals, signal_periods,
}
use openleadr_python.Vtn.Server.Queue.{added, Adds, added-Adds}
use openleadr_python.Vtn.Server.AddEvent.{
  Arguments, id_of, targets_or, is_empty, is_accepted, signal_of, period_of, arguments_of, event_of,
  queue_event, check_arguments, add_event_by, add_event,
}

-- The event of the arguments is queued for its VEN.
pub record IsQueued (a : Arguments) (s : Server) (t : Result (Option ℕ) × Server) : Type 0 where
  pub event : Event
  pub period : Span
  pub returns : t.0 ≡ ok (some (id_of a))
  pub id : event_id event ≡ id_of a
  pub signals : event.event_signals ≡ signal_of a ∷ []
  pub required : event.response_required ≡ some a.response_required
  pub adds : Adds a.ven_id event period s t.1

period_of_nonempty :
    (l : List Interval)
    → is_empty l ≡ false
    → (p : Span) × (get_active_period_from_intervals (map span_of_interval l) ≡ ok p)
unfolding get_active_period_from_intervals
period_of_nonempty [] h = absurd (ground (arith, h))
period_of_nonempty (i ∷ l) h = (_, refl)

abbrev one_span : Result Span → Result (List Span)
one_span r = elim r [ raise e ↦ raise e | ok p ↦ ok (p ∷ []) ]

span_of_spans : Result (List Span) → Result Span
unfolding get_active_period_from_intervals
span_of_spans r = elim r [ raise e ↦ raise e | ok l ↦ get_active_period_from_intervals l ]

period_of_one :
    (g : EventSignal) (p : Span)
    → get_active_period_from_intervals (map span_of_interval g.intervals) ≡ ok p
    → (q : Span) × (period_of_signals (g ∷ []) ≡ ok q)
unfolding period_of_signals signal_periods span_of_spans
period_of_one g p h = (
  record { dtstart = p.dtstart; duration = span_end p -ℤ p.dtstart },
  ap (λ z. span_of_spans (one_span z)) h,
)

and_true : (b c : Bool) → (b && c) ≡ true → (b ≡ true) × (c ≡ true)
and_true b c h = ground (arith, h)

false_of_not : (b : Bool) → not b ≡ true → b ≡ false
false_of_not b h = ground (arith, h)

abbrev required_known : Arguments → Bool
required_known a = same_text a.response_required "always" || same_text a.response_required "never"

abbrev type_known : Arguments → Bool
type_known a = is_member a.signal_type signal_types

abbrev name_known : Arguments → Bool
name_known a = is_member a.signal_name signal_names || starts_with a.signal_name "x-"

abbrev has_intervals : Arguments → Bool
has_intervals a = not (is_empty a.intervals)

module _ (now : Instant) (a : Arguments) (accepted : is_accepted a ≡ true) where
  all_known : (type_known a ≡ true) × (name_known a ≡ true) × (is_empty a.intervals ≡ false)
  unfolding is_accepted
  all_known =
      let first =
        and_true (required_known a) (type_known a && (name_known a && has_intervals a)) accepted in
      let second = and_true (type_known a) (name_known a && has_intervals a) (first.1) in
      let third = and_true (name_known a) (has_intervals a) (second.1) in
      (second.0, third.0, false_of_not (is_empty a.intervals) (third.1))

  abbrev if_known : Bool → Bool → Result EventSignal
  if_known b c =
      if b then (if c then ok (signal_of a) else raise value_error) else raise value_error

  signal_accepted : make_event_signal (signal_of a) ≡ ok (signal_of a)
  unfolding make_event_signal
  signal_accepted =
      ap (λ b. if_known b (name_known a)) (all_known.0) ∙ ap (if_known true) (all_known.1)

  -- The event that is made
  abbrev made : Span → Event
  made p =
      let q = period_of a p in
      let l = targets_or a.ven_id a.targets a.targets_by_type a.target in
      event_with now (arguments_of now a (signal_of a) p) q (l, group_targets_by_type l)

  event_of-eq :
      (p : Span)
      → get_active_period_from_intervals (map span_of_interval a.intervals) ≡ ok p
      → event_of now a ≡ ok (made p)
  unfolding event_of make_event both_targets
  event_of-eq p h =
      ap
        (λ z. elim z [
          | raise e ↦ raise e
          | ok g ↦ elim (get_active_period_from_intervals (map span_of_interval a.intervals)) [
            | raise e ↦ raise e
            | ok p ↦ make_event now (arguments_of now a g p)
          ]
        ])
        signal_accepted
      ∙ ap
          (λ z. elim z [
            | raise e ↦ raise e
            | ok p ↦ make_event now (arguments_of now a (signal_of a) p)
          ])
          h

  add_raw_event-made :
      (p q : Span) (s : Server)
      → check_callback a.response_required a.callback ≡ ok tt
      → period_of_signals (signal_of a ∷ []) ≡ ok q
      → add_raw_event a.ven_id (made p) a.callback a.delivery_callback s
        ≡ (ok (id_of a), added a.ven_id (made p) a.callback a.delivery_callback q s)
  unfolding add_raw_event make_event_descriptor
  add_raw_event-made p q s c h = rw (c, h) refl

  id-made : (p : Span) → event_id (made p) ≡ id_of a
  unfolding make_event_descriptor
  id-made p = refl

  IsQueued-check_arguments :
      (s : Server)
      → check_callback a.response_required a.callback ≡ ok tt
      → IsQueued a s (check_arguments now a s)
  IsQueued-check_arguments s c =
      let (p, hp) = period_of_nonempty a.intervals (all_known.2) in
      let (q, hq) = period_of_one (signal_of a) p hp in
      subst (IsQueued a s)
        (sym (
          ap (λ b. if b then queue_event a (event_of now a) s else (raise value_error, s)) accepted
          ∙ ap (λ r. queue_event a r s) (event_of-eq p hp)
          ∙ ap (λ x. continue x (λ _. pure (some (id_of a)))) (add_raw_event-made p q s c hq)))
        (record {
          event = made p;
          period = q;
          returns = refl;
          id = id-made p;
          signals = refl;
          required = refl;
          adds = added-Adds a.ven_id (made p) a.callback a.delivery_callback q s;
        })

-- With the server's own queues: arguments that pass the checks, with a fit callback, make an event
-- with one signal and the given or a new id, which add_event returns, and the event is at the end
-- of the queue of its VEN, which is flagged for its next poll. With other arguments it is a
-- ValueError, and the server stays as it was.
pub add_event-IsQueued :
    (now : Instant) (a : Arguments) (s : Server)
    → s.event_service.polling_method ≡ internal
    → check_callback a.response_required a.callback ≡ ok tt
    → (is_accepted a ≡ true → IsQueued a s (add_event now a s))
      × (is_accepted a ≡ false → add_event now a s ≡ (raise value_error, s))
unfolding add_event
add_event-IsQueued now a s i c = (
  λ h.
      subst (λ m. IsQueued a s (add_event_by m now a s)) (sym i)
        (IsQueued-check_arguments now a h s c),
  λ h.
      ap (λ m. add_event_by m now a s) i
      ∙ ap (λ b. if b then queue_event a (event_of now a) s else (raise value_error, s)) h,
)
