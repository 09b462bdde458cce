-- ===== src/Ven/Polling/Keeps.antt =====
-- What polling leaves alone.
use openleadr_python.Base.{
  ℕ, ◌≡◌, refl, Bool, true, false, Option, none, some, List, [], ◌∷◌, ◌++◌, arith,
}
use openleadr_python.Base.Exec.{Result, ok, raise, continue, Keeps, bind-Keeps, pure}
use openleadr_python.Event.{Event}
use openleadr_python.Ven.Transport.{Performed, nothing, no_message, received}
use openleadr_python.Ven.Events.{CreatedEvent, on_event}
use openleadr_python.Ven.Reports as Reports
use openleadr_python.Ven.Reports.Create.{ReportRequest, answered_id}
use openleadr_python.Ven.Reports.Cancel.{Payload as Cancellation}
use openleadr_python.Ven.Registration.{
  unpack, post, ask, none_accepted, answer_none, to_create, take_requests_as, take_requests,
  send_created, answered_request, take_any_events, take_events_of,
}
use openleadr_python.Ven.Registration.State.{
  MessageType, response, request_reregistration, distribute_event, update_report, create_report,
  register_report, cancel_party_registration, cancel_report, created_party_registration,
  registered_report, canceled_party_registration, other_type, Payload, Message, Request,
  OpenAdrClient, World, oadr_poll,
}
use openleadr_python.Ven.Polling.{take_cancellation, decline_reports, dispatch, dispatch_any, poll}

-- The registration of the client is as it was.
abbrev pub KeepsRegistration : OpenAdrClient → OpenAdrClient → Type 0
KeepsRegistration s t =
    (t.ven_id ≡ s.ven_id)
    × (t.registration_id ≡ s.registration_id)
    × (t.poll_frequency ≡ s.poll_frequency)

-- The types that have to do with the registration
abbrev pub changes_registration : MessageType → Bool
changes_registration request_reregistration = true
changes_registration cancel_party_registration = true
changes_registration _ = false

-- The VTN's answer has to do with the registration.
abbrev pub any_changes : Option MessageType → Bool
any_changes none = false
any_changes (some t) = changes_registration t

abbrev pub answer_changes : Performed Message → Bool
answer_changes nothing = false
answer_changes no_message = false
answer_changes (received m) = any_changes m.message_type

module _ (w : World) (o : OpenAdrClient) where
  abbrev Kept : OpenAdrClient → Type 0
  Kept = KeepsRegistration o

  unpack-Kept : (x : Performed Message) → Keeps Kept (unpack x)
  unfolding unpack
  unpack-Kept nothing s h = h
  unpack-Kept no_message s h = h
  unpack-Kept (received m) s h = h

  ask-Kept : (m : Request) → Keeps Kept (ask w m)
  ask-Kept m = bind-Keeps Kept (post w m) unpack (λ s h. h) unpack-Kept

  take_requests_as-Kept :
      (p : Payload) (rs : List ReportRequest) (r : Option Reports.Client)
      → Keeps Kept (take_requests_as w p rs r)
  take_requests_as-Kept p rs none s h =
      answered (none_accepted w 200 rs) (answered_id (to_create w p rs))
    where
      answered : (code i : Result ℕ) → Kept (answer_none w rs code i s).1
      answered (raise e) i = h
      answered (ok code) (raise e) = h
      answered (ok code) (ok i) = h
  take_requests_as-Kept p rs (some r) s h = h

  take_requests-Kept :
      (p : Payload) (rs : Option (List ReportRequest)) → Keeps Kept (take_requests w p rs)
  unfolding take_requests
  take_requests-Kept p none s h = h
  take_requests-Kept p (some rs) s h = take_requests_as-Kept p rs s.reports s h

  send_created-Kept : (k : Option ℕ) (m : Option CreatedEvent) → Keeps Kept (send_created w k m)
  send_created-Kept k none s h = h
  send_created-Kept none (some m) s h = h
  send_created-Kept (some k) (some m) s h = h

  take_any_events-Kept :
      (p : Payload) (l : Option (List Event)) → Keeps Kept (take_any_events w p l)
  unfolding take_events_of
  take_any_events-Kept p none s h = h
  take_any_events-Kept p (some []) s h = h
  take_any_events-Kept p (some (e ∷ l)) s h =
      let r = on_event w.handlers w.now (answered_request w p.request_id) (e ∷ l) s.events in
      send_created-Kept p.request_id r.0 (record s { events = r.1 }) h

  take_cancellation-Kept :
      (x : Option Cancellation) (r : Option Reports.Client) → Keeps Kept (take_cancellation w x r)
  unfolding take_cancellation
  take_cancellation-Kept none r s h = h
  take_cancellation-Kept (some x) none s h = h
  take_cancellation-Kept (some x) (some r) s h = h

  decline_reports-Kept : (i : Option ℕ) → Keeps Kept (decline_reports w i)
  unfolding decline_reports
  decline_reports-Kept none s h = h
  decline_reports-Kept (some i) s h =
      bind-Keeps Kept (ask w (registered_report i)) (λ _. pure tt) (ask-Kept (registered_report i))
        (λ _ t k. k) s h

  dispatch-Kept :
      (t : MessageType) (p : Payload) → changes_registration t ≡ false → Keeps Kept (dispatch w t p)
  unfolding dispatch
  dispatch-Kept request_reregistration p q = absurd (ground (arith, q))
  dispatch-Kept cancel_party_registration p q = absurd (ground (arith, q))
  dispatch-Kept distribute_event p q = take_any_events-Kept p p.events
  dispatch-Kept create_report p q = take_requests-Kept p p.report_requests
  dispatch-Kept register_report p q = decline_reports-Kept p.request_id
  dispatch-Kept cancel_report p q = λ s. take_cancellation-Kept p.cancellation s.reports s
  dispatch-Kept update_report p q = λ s h. h
  dispatch-Kept response p q = λ s h. h
  dispatch-Kept created_party_registration p q = λ s h. h
  dispatch-Kept registered_report p q = λ s h. h
  dispatch-Kept canceled_party_registration p q = λ s h. h
  dispatch-Kept other_type p q = λ s h. h

  dispatch_any-Kept :
      (t : Option MessageType) (p : Payload)
      → any_changes t ≡ false
      → Keeps Kept (dispatch_any w t p)
  dispatch_any-Kept none p q = λ s h. h
  dispatch_any-Kept (some t) p q = dispatch-Kept t p q

  after_unpack-Kept :
      (x : Performed Message) (s : OpenAdrClient)
      → answer_changes x ≡ false
      → Kept s
      → Kept (continue (unpack x s) (λ m. dispatch_any w (Message.message_type m) m.payload)).1
  unfolding unpack
  after_unpack-Kept nothing s q h = h
  after_unpack-Kept no_message s q h = h
  after_unpack-Kept (received m) s q h = dispatch_any-Kept m.message_type m.payload q s h

module _ (w : World) (s : OpenAdrClient) where
  abbrev pub poll_answer : Performed Message
  poll_answer = w.vtn (s.outbox ++ oadr_poll s.ven_id ∷ [])

  -- Unless the VTN answers a poll with a request to register again or with a cancelling of the
  -- registration, polling leaves the ids and the polling frequency of the client as they are,
  -- whatever the handlers and callbacks do, and also when it raises.
  pub poll-KeepsRegistration : answer_changes poll_answer ≡ false → KeepsRegistration s (poll w s).1
  unfolding poll
  poll-KeepsRegistration q =
      after_unpack-Kept w s poll_answer (record s { outbox = s.outbox ++ oadr_poll s.ven_id ∷ [] })
        q (refl, refl, refl)
