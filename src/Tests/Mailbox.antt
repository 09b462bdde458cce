-- ===== src/Tests/Mailbox.antt =====
-- The promise to each VEN at a concrete run.
use openleadr_python.Base.{ℕ, ◌≡◌, refl, none, List, [], ◌∷◌}
use openleadr_python.Base.Int.{pos}
use openleadr_python.Event.{far}
use openleadr_python.Event.Order.{Given, nothing}
use openleadr_python.Vtn.EventService.{EventResponse, opt_in}
use openleadr_python.Vtn.Server
use openleadr_python.Vtn.Server.{PollResult}
use openleadr_python.Vtn.Server.Mailbox.{Tells, mailbox}
use openleadr_python.Vtn.Server.Mailbox.Runs.{
  Op, adding, cancelling, polling, answering, effects, tellings, run, replies, Pairwise,
  run-effects,
}
use openleadr_python.Tests.{event}

abbrev no_request : ℕ → Given
no_request _ = nothing

abbrev no_poll : ℕ → PollResult
no_poll _ = PollResult.nothing

abbrev answer_5 : EventResponse
answer_5 = record { event_id = 5; modification_number = 1; opt_type = opt_in }

-- Two events for the VEN 1, one of them cancelled, and one for the VEN 2.
abbrev ops : List Op
ops =
    adding 1 (event 5 0 far) none none
    ∷ adding 2 (event 6 0 far) none none
    ∷ polling (pos 97000000) 1
    ∷ adding 1 (event 7 0 far) none none
    ∷ cancelling 1 5
    ∷ polling (pos 98000000) 1
    ∷ answering 1 (answer_5 ∷ [])
    ∷ polling (pos 120000000) 1
    ∷ []

run-effects_example :
    (mailbox 1 (run no_request no_poll ops Server.init) ≡ effects 1 ops (mailbox 1 Server.init))
    × Pairwise Tells
        (replies no_request no_poll 1 ops Server.init)
        (tellings 1 ops (mailbox 1 Server.init))
run-effects_example = run-effects no_request no_poll 1 ops Server.init (refl, refl)
