-- ===== src/Vtn/Server/Mailbox.antt =====
-- What the event queue of openleadr/server.py promises one VEN: a box of notices, of which the
-- answers, the polls and the user's calls are the only operations. Nothing here knows of statuses
-- that go stale, of dicts, or of the order of delivery.
pub mod Notices
pub mod Steps
pub mod Polls
pub mod Answers
pub mod Runs
use mathlib.Core.List.{Perm}
use openleadr_python.Base.{
  ℕ, suc, Bool, true, false, not, ◌&&◌, Option, none, some, List, [], ◌∷◌, ◌++◌, map, select, find,
  remove_first, is_some, ◌==◌, if◌then◌else◌,
}
use openleadr_python.Base.Exec.{ok, raise}
use openleadr_python.Base.Dict.{lookup_or}
use openleadr_python.Event.{
  Instant, EventStatus, cancelled, ActivePeriod, Event, event_id, event_status, is_cancelled,
  is_completed,
}
use openleadr_python.Event.Status.{determine_event_status}
use openleadr_python.Vtn.EventService.{
  EventService, Callback, EventResponse, empty_response, distribute_event, queue,
}
use openleadr_python.Vtn.Server.{
  Server, Reply, reply, check_callback, period_of_signals, with_defaults,
}

-- An event as the user has asked for it.
pub record Notice : Type 0 where
  pub event_id : ℕ
  pub modification_number : ℕ
  pub revoked : Bool
  pub active_period : ActivePeriod

pub record Mailbox : Type 0 where
  pub notices : List Notice
  pub pending : Bool

-- The status of a notice is not kept: it is read off the clock.
unfoldable pub shown : Instant → Notice → EventStatus
shown now n = if n.revoked then cancelled else determine_event_status now n.active_period

abbrev pub is_over : Instant → Notice → Bool
is_over now n = is_completed (shown now n)

abbrev pub current : Instant → List Notice → List Notice
current now = select (λ n. not (is_over now n))

-- A notice with the status that it is shown with.
abbrev pub Shown : Type 0
Shown = Notice × EventStatus

abbrev pub show : Instant → Notice → Shown
show now n = (n, shown now n)

-- A last notice that is over is taken away unseen.
abbrev pub brought : Instant → List Notice → List Notice
brought now (n ∷ []) = current now (n ∷ [])
brought now l = l

abbrev pub post : Notice → Mailbox → Mailbox
post n m = record { notices = m.notices ++ n ∷ []; pending = true }

abbrev pub notice_has_id : ℕ → Notice → Bool
notice_has_id k n = n.event_id == k

abbrev pub revoke_notice : Notice → Notice
revoke_notice n = record n { revoked = true; modification_number = suc n.modification_number }

unfoldable pub revoke_first : ℕ → List Notice → List Notice
revoke_first k [] = []
revoke_first k (n ∷ l) = if notice_has_id k n then revoke_notice n ∷ l else n ∷ revoke_first k l

unfoldable pub revoke : ℕ → Mailbox → Mailbox
unfolding revoke_first
revoke k m =
    if is_some (find (notice_has_id k) m.notices)
    then (record { notices = revoke_first k m.notices; pending = true })
    else m

-- What a poll brings, if anything is pending, and what is left.
abbrev pub collected : Instant → Mailbox → Option (List Notice)
collected now m =
    if m.pending then elim m.notices [ [] ↦ none | n ∷ l ↦ some (brought now (n ∷ l)) ] else none

abbrev pub told : Instant → Mailbox → Option (List Shown)
told now m = elim (collected now m) [ none ↦ none | some l ↦ some (map (show now) l) ]

abbrev pub collect : Instant → Mailbox → Mailbox
collect now m =
    if m.pending then (record { notices = current now m.notices; pending = false }) else m

-- An answer speaks of a notice by its id and its modification number. One that speaks of a
-- revoked notice takes it away.
abbrev pub speaks_of : EventResponse → Notice → Bool
speaks_of r n = n.event_id == r.event_id && n.modification_number == r.modification_number

abbrev pub acknowledge : EventResponse → Notice → Mailbox → Mailbox
acknowledge r n m =
    if n.revoked
    then (record m { notices = remove_first (notice_has_id r.event_id) m.notices })
    else m

unfoldable pub confirm : EventResponse → Mailbox → Mailbox
confirm r m = elim (find (speaks_of r) m.notices) [ none ↦ m | some n ↦ acknowledge r n m ]

-- The answers after one that speaks of no notice are not read.
unfoldable pub confirm_all : List EventResponse → Mailbox → Mailbox
unfolding confirm
confirm_all [] m = m
confirm_all (r ∷ l) m =
    let rest = confirm_all l (confirm r m) in
    if is_some (find (speaks_of r) m.notices) then rest else m

-- The abstraction: what the server keeps for the VEN, less what the clock makes of it.
abbrev pub notice_of : Event → Notice
notice_of e = record {
  event_id = event_id e;
  modification_number = e.event_descriptor.modification_number;
  revoked = is_cancelled (event_status e);
  active_period = e.active_period;
}

-- What a call of `add_raw_event` posts, if it is not refused.
unfoldable pub posted : Event → Option Callback → Option Notice
posted e c = elim e.response_required [
  | none ↦ none
  | some required ↦ elim (check_callback required c) [
    | raise _ ↦ none
    | ok _ ↦ elim (period_of_signals e.event_signals) [
      | raise _ ↦ none
      | ok p ↦ some (notice_of (with_defaults p e))
    ]
  ]
]

abbrev pub post_if : Option Notice → Mailbox → Mailbox
post_if none m = m
post_if (some n) m = post n m

abbrev pub show_event : Event → Shown
show_event e = (notice_of e, event_status e)

abbrev pub boxed : List Notice → Bool → Mailbox
boxed notices pending = record { notices = notices; pending = pending }

abbrev pub box : ℕ → Bool → EventService → Mailbox
box v pending s = boxed (map notice_of (queue v s)) pending

abbrev pub mailbox : ℕ → Server → Mailbox
mailbox v s = box v (lookup_or v false s.poll_service.events_updated) s.event_service

-- The reply to a poll tells what the mailbox brings, in any order.
pub data Tells : Reply → Option (List Shown) → Type 0 where
  nothing_new : Tells (reply empty_response) none
  told_of :
      (sent : List Event) (l : List Shown)
      → Perm (map show_event sent) l
      → Tells (reply (distribute_event sent)) (some l)
