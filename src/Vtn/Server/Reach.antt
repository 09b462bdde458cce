-- ===== src/Vtn/Server/Reach.antt =====
-- The states that a server which keeps its own queues can come to, by additions, cancellations,
-- polls, requests and answers in any order.
use openleadr_python.Base.{
  ℕ, ◌≡◌, refl, ap, subst, ◌∙◌, inl, inr, false, Option, none, some, List, [], ◌∷◌, ◌++◌, All,
  All-append, remove_first, Bool-cases,
}
use openleadr_python.Base.Exec.{pure, for_each, bind-Keeps, for_each-Keeps}
use openleadr_python.Base.Dict.{lookup_or, contains}
use openleadr_python.Event.{Instant, Event, event_id, event_status, is_cancelled}
use openleadr_python.Event.Order.{Given}
use openleadr_python.Vtn.EventService.{
  EventService, Callback, internal, empty_response, distribute_event, EventResponse, queue,
  request_event, answer, created_event, confirm_cancelled, has_id,
}
use openleadr_python.Vtn.EventService.Answers.{answer_cases, events-use_callback}
use openleadr_python.Vtn.Server.{
  Server, PollResult, Reply, reply, bare_list, unknown, init, append_event, add_callback,
  add_delivery, poll, add_raw_event, cancel, cancel_event, update_first, open_queue, with_defaults,
}
use openleadr_python.Vtn.Server.Keeps.{remove_first_keeps, update_first_keeps}
use openleadr_python.Vtn.Server.Queue.{add_raw_event_cases}
use openleadr_python.Vtn.Server.Isolation.{Owned, AllOwned, Brings, store_keeps, request_keeps}
use openleadr_python.Vtn.Server.Cancel.{cancel_cases}
use openleadr_python.Vtn.Server.Methods.{method-request, method-answer, created_event_internal}

module _ (Granted : ℕ → ℕ → Type 0) where
  -- Every queue is owned, and the service keeps to its queues.
  pub record IsOwned (s : EventService) : Type 0 where
    pub owned : AllOwned Granted s
    pub queues : s.polling_method ≡ internal

  request-IsOwned :
      (h : ℕ → Given) (now : Instant) (v : ℕ) (s : EventService)
      → IsOwned s
      → IsOwned (request_event h now v s).1
  request-IsOwned h now v s o = record {
    owned = (request_keeps Granted h now v s o.queues o.owned).1;
    queues = method-request h now v s o.queues;
  }

  confirm-owned :
      (v : ℕ) (r : EventResponse) (e : Event) (s : EventService)
      → AllOwned Granted s
      → AllOwned Granted (confirm_cancelled v r e s)
  unfolding confirm_cancelled
  confirm-owned v r e s all = elim (Bool-cases (is_cancelled (event_status e))) [
    | inl k ↦ rw k (
        store_keeps Granted v (remove_first (has_id r.event_id) (queue v s)) s
          (remove_first_keeps (λ x. Granted v (event_id x)) (has_id r.event_id) (queue v s) (all v))
          all)
    | inr k ↦ rw k all
  ]

  answer-IsOwned :
      (v : ℕ) (r : EventResponse) (s : EventService) → IsOwned s → IsOwned (answer v r s).1
  answer-IsOwned v r s o = elim (answer_cases v r s) [
    | inl (_, k) ↦ rw k o
    | inr (e, k) ↦ rw k (record {
      owned = λ w.
          rw (ap (lookup_or w []) (events-use_callback v r (confirm_cancelled v r e s)))
            (confirm-owned v r e s o.owned w);
      queues = method-answer v r e s ∙ o.queues;
    })
  ]

  pub created-IsOwned :
      (v : ℕ) (l : List EventResponse) (s : EventService)
      → IsOwned s
      → IsOwned (created_event v l s).1
  created-IsOwned v l s o = rw (created_event_internal v l s o.queues) (
      bind-Keeps IsOwned (for_each (answer v) l) (λ _. pure empty_response)
        (for_each-Keeps IsOwned (answer v) l (λ r t. answer-IsOwned v r t)) (λ _ _ h. h) s o)

  pub cancel-IsOwned :
      (v k : ℕ) (s : Server) → IsOwned s.event_service → IsOwned (cancel_event v k s).event_service
  cancel-IsOwned v k s o = elim (cancel_cases v k s) [
    | inl same ↦ rw same o
    | inr (l, known, done) ↦ rw done (record {
      owned =
          store_keeps Granted v (update_first (has_id k) cancel l) s.event_service
            (update_first_keeps (λ x. Granted v (event_id x)) (λ _ g. g) (has_id k) l
              (subst (Owned Granted v) (ap (λ m. elim m [ none ↦ [] | some q ↦ q ]) known)
                (o.owned v)))
            o.owned;
      queues = o.queues;
    })
  ]

  open-IsOwned : (v : ℕ) (s : EventService) → IsOwned s → IsOwned (open_queue v s)
  open-IsOwned v s o = elim (Bool-cases (contains v s.events)) [
    | inl k ↦ rw k o
    | inr k ↦ rw k (record { owned = store_keeps Granted v [] s tt o.owned; queues = o.queues })
  ]

  abbrev ServerIsOwned : Server → Type 0
  ServerIsOwned s = IsOwned s.event_service

  append-IsOwned :
      (v : ℕ) (e : Event) (s : EventService)
      → Granted v (event_id e)
      → IsOwned s
      → IsOwned (append_event v e s)
  append-IsOwned v e s g o = record {
    owned =
        store_keeps Granted v (queue v s ++ e ∷ []) s
          (All-append (λ x. Granted v (event_id x)) (queue v s) (e ∷ []) (o.owned v) (g, tt))
          o.owned;
    queues = o.queues;
  }

  callback-IsOwned :
      (k : ℕ) (c : Option Callback) (s : EventService) → IsOwned s → IsOwned (add_callback k c s)
  callback-IsOwned k none s o = o
  callback-IsOwned k (some c) s o = record { owned = o.owned; queues = o.queues }

  delivery-IsOwned :
      (k : ℕ) (d : Option ℕ) (s : EventService) → IsOwned s → IsOwned (add_delivery k d s)
  delivery-IsOwned k none s o = o
  delivery-IsOwned k (some d) s o = record { owned = o.owned; queues = o.queues }

  pub add-IsOwned :
      (v : ℕ) (e : Event) (c : Option Callback) (d : Option ℕ) (s : Server)
      → Granted v (event_id e)
      → ServerIsOwned s
      → ServerIsOwned (add_raw_event v e c d s).1
  add-IsOwned v e c d s g o = elim (add_raw_event_cases v e c d s) [
    | inl same ↦ rw same o
    | inr (inl opened) ↦ rw opened (open-IsOwned v s.event_service o)
    | inr (inr (p, done)) ↦ rw done (
        delivery-IsOwned (event_id e) d _ (
          callback-IsOwned (event_id e) c _
            (append-IsOwned v (with_defaults p e) _ g (open-IsOwned v s.event_service o))))
  ]

  -- The poll service is polled as before.
  pub add-method :
      (v : ℕ) (e : Event) (c : Option Callback) (d : Option ℕ) (s : Server)
      → (add_raw_event v e c d s).1.poll_service.polling_method ≡ s.poll_service.polling_method
  add-method v e c d s = elim (add_raw_event_cases v e c d s) [
    | inl same ↦ rw same refl
    | inr (inl opened) ↦ rw opened refl
    | inr (inr (p, done)) ↦ rw done refl
  ]

  pub cancel-method :
      (v k : ℕ) (s : Server)
      → (cancel_event v k s).poll_service.polling_method ≡ s.poll_service.polling_method
  cancel-method v k s = elim (cancel_cases v k s) [
    | inl same ↦ rw same refl
    | inr (l, known, done) ↦ rw done refl
  ]

module _ (on_request_event : ℕ → Given) (on_poll : ℕ → PollResult) (Granted : ℕ → ℕ → Type 0) where
  -- `Granted v k`: the user may add an event with the id `k` for the VEN `v`.
  pub data Reach : Server → Type 0 where
    start : Reach init
    add :
        {s : Server} (v : ℕ) (e : Event) (c : Option Callback) (d : Option ℕ)
        → Granted v (event_id e)
        → Reach s
        → Reach (add_raw_event v e c d s).1
    cancelling : {s : Server} (v k : ℕ) → Reach s → Reach (cancel_event v k s)
    polling :
        {s : Server} (now : Instant) (v : ℕ)
        → Reach s
        → Reach (poll on_request_event on_poll now v s).1
    answering :
        {s : Server} (v : ℕ) (l : List EventResponse)
        → Reach s
        → Reach (record s { event_service = (created_event v l s.event_service).1 })

module _ (h : ℕ → Given) (p : ℕ → PollResult) (Granted : ℕ → ℕ → Type 0) where
  abbrev Poll : Instant → ℕ → Server → Reply × Server
  Poll = poll h p

  -- What a reply to a poll brings is owned, and so are the queues after it.
  abbrev ReplyBrings : ℕ → Reply → Type 0
  ReplyBrings v (reply r) = Brings Granted v r
  ReplyBrings v (bare_list l) = Owned Granted v l
  ReplyBrings v unknown = Unit

  pub poll_keeps :
      (now : Instant) (v : ℕ) (s : Server)
      → IsOwned Granted s.event_service
      → s.poll_service.polling_method ≡ internal
      → ReplyBrings v (Poll now v s).0
        × IsOwned Granted (Poll now v s).1.event_service
        × ((Poll now v s).1.poll_service.polling_method ≡ internal)
  unfolding poll
  poll_keeps now v s o i = elim (Bool-cases (lookup_or v false s.poll_service.events_updated)) [
    | inl k ↦
        rw (i, k)
          (
            (request_keeps Granted h now v s.event_service o.queues o.owned).0,
            request-IsOwned Granted h now v s.event_service o,
            refl,
          )
    | inr k ↦ rw (i, k) (tt, o, refl)
  ]

  -- The invariant of a server that keeps its own queues.
  Reach-IsOwned :
      {s : Server}
      → Reach h p Granted s
      → IsOwned Granted s.event_service × (s.poll_service.polling_method ≡ internal)
  Reach-IsOwned start = (record { owned = λ v. tt; queues = refl }, refl)
  Reach-IsOwned (add {s} v e c d g r) =
      let o = Reach-IsOwned r in
      (add-IsOwned Granted v e c d s g o.0, add-method Granted v e c d s ∙ o.1)
  Reach-IsOwned (cancelling {s} v k r) =
      let o = Reach-IsOwned r in
      (cancel-IsOwned Granted v k s o.0, cancel-method Granted v k s ∙ o.1)
  Reach-IsOwned (polling {s} now v r) =
      let o = Reach-IsOwned r in let k = poll_keeps now v s o.0 o.1 in (k.1, k.2)
  Reach-IsOwned (answering {s} v l r) =
      let o = Reach-IsOwned r in (created-IsOwned Granted v l s.event_service o.0, o.1)

  -- Whatever additions, cancellations, polls and answers came before, a poll brings a VEN no
  -- event but those whose ids the user has added for that VEN.
  pub poll_brings_own_events :
      {s : Server} (now : Instant) (v : ℕ) (sent : List Event)
      → Reach h p Granted s
      → (poll h p now v s).0 ≡ reply (distribute_event sent)
      → All (λ e. Granted v (event_id e)) sent
  poll_brings_own_events {s} now v sent r e =
      let o = Reach-IsOwned r in subst (ReplyBrings v) e (poll_keeps now v s o.0 o.1).0
