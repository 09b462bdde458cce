-- ===== src/Vtn/Handler.antt =====
-- openleadr/service/vtn_service.py: `VTNService.handler`, the way of a request through the checks to
-- the handler of its message, and what is answered to each exception.
pub mod Guards
use openleadr_python.Base.{
  ℕ, Bool, true, false, not, ◌&&◌, Option, none, some, is_some, ◌==◌, if◌then◌else◌,
}
use openleadr_python.Base.Exec.{
  Exec, Result, Error, ok, raise, invalid_id, not_registered, fingerprint_mismatch,
  invalid_signature,
}
use openleadr_python.Messaging.Replay.{NonceCache, Clock}
use openleadr_python.Messaging.Authenticate.{VenInfo, Incoming, Lookups, authenticate_message}

-- The types of the messages that the handler tells apart, and of those that it answers with.
pub data MessageType : Type 0 where
  create_party_registration query_registration request_event response : MessageType
  other_message : ℕ → MessageType

pub data ResponseType : Type 0 where
  distribute_event plain_response : ResponseType
  other_response : ℕ → ResponseType

-- A request, as it is after parsing: whether its content type is that of XML, whether it fits the
-- schema, and what the message says.
pub record Request : Type 0 where
  pub is_xml : Bool
  pub fits_schema : Bool
  pub message_type : MessageType
  pub vtn_id : Option ℕ
  pub message : Incoming

-- What a message's handler returns: a type, and the VEN that it names, if any.
pub record Reply : Type 0 where
  pub response_type : ResponseType
  pub ven_id : Option ℕ

-- What is sent: a message with its response code, a request to register again, an empty text, or a
-- text with an HTTP status.
pub data HttpResponse : Type 0 where
  oadr_message : ResponseType → ℕ → Option ℕ → HttpResponse
  request_reregistration : ℕ → HttpResponse
  empty_text : HttpResponse
  http_status : ℕ → HttpResponse

-- `error_response`: the first test is overtaken by the second one's else.
unfoldable pub error_response : MessageType → ResponseType
error_response request_event = distribute_event
error_response _ = plain_response

-- The `except` clauses. A protocol error is a message; every other exception is a status.
unfoldable pub answer_error : MessageType → Error → HttpResponse
unfolding error_response
answer_error m invalid_id = oadr_message (error_response m) 452 none
answer_error m not_registered = oadr_message (error_response m) 463 none
answer_error m fingerprint_mismatch = http_status 403
answer_error m invalid_signature = http_status 403
answer_error m _ = http_status 500

-- What the service is set up with: its own id, the user's lookups, whether signatures are verified,
-- and its handlers by message type.
pub record Service {ℓ} (S : Type ℓ) : Type ℓ where
  pub vtn_id : ℕ
  pub lookups : Lookups
  pub verify_message_signatures : Bool
  pub handlers : MessageType → Option (Incoming → Exec S (Option Reply))

abbrev pub or_else : Option ℕ → Option ℕ → Option ℕ
or_else none k = k
or_else (some v) k = some v

-- The reply of a handler; without one it is an empty `oadrResponse`.
abbrev pub reply_message : Incoming → Option Reply → HttpResponse
reply_message m none = oadr_message plain_response 200 m.ven_id
reply_message m (some r) = oadr_message r.response_type 200 (or_else r.ven_id m.ven_id)

abbrev pub is_registration : MessageType → Bool
is_registration create_party_registration = true
is_registration query_registration = true
is_registration _ = false

abbrev pub has_registration : Option VenInfo → Bool
has_registration none = false
has_registration (some i) = is_some i.registration_id

-- Whether the VEN has to register first.
abbrev pub is_known : Lookups → MessageType → Option ℕ → Bool
is_known k m none = true
is_known k m (some v) = elim k.ven_lookup [
  | none ↦ true
  | some f ↦ if is_registration m then true else has_registration (f v)
]

abbrev pub is_other_vtn : ℕ → Option ℕ → Bool
is_other_vtn v none = false
is_other_vtn v (some w) = not (w == v)

abbrev pub is_response : MessageType → Bool
is_response response = true
is_response _ = false

-- `authenticate_message` with the one lookup that is used, or not at all if there is none.
unfoldable pub authenticate : Bool → Clock → Lookups → Incoming → Exec NonceCache (Unit {0})
authenticate verify clock k m c = elim k.fingerprint_lookup [
  | some f ↦
      authenticate_message verify clock (record { fingerprint_lookup = some f; ven_lookup = none })
        m c
  | none ↦ elim k.ven_lookup [
    | some f ↦
        authenticate_message verify clock
          (record { fingerprint_lookup = none; ven_lookup = some f }) m c
    | none ↦ (ok tt, c)
  ]
]

abbrev pub reregister_or : Option ℕ → HttpResponse
reregister_or none = http_status 500
reregister_or (some v) = request_reregistration v

module _ {ℓ} {S : Type ℓ} where
  abbrev pub answer_result : MessageType → Incoming → Result (Option Reply) × S → HttpResponse × S
  answer_result t m (ok r, s) = (reply_message m r, s)
  answer_result t m (raise e, s) = (answer_error t e, s)

  -- `handle_message`; a type without a handler is a compliance error, which is no exception.
  unfoldable pub handle_message : Service S → Request → S → HttpResponse × S
  unfolding answer_error
  handle_message v r s = elim (v.handlers r.message_type) [
    | none ↦ (oadr_message plain_response 459 r.message.ven_id, s)
    | some f ↦ answer_result r.message_type r.message (f r.message s)
  ]

  abbrev pub with_cache : NonceCache → HttpResponse × S → HttpResponse × NonceCache × S
  with_cache c (h, s) = (h, c, s)

  abbrev pub after_authentication :
      Service S → Request → Result (Unit {0}) × NonceCache → S → HttpResponse × NonceCache × S
  after_authentication v r (raise e, c) s = (answer_error r.message_type e, c, s)
  after_authentication v r (ok _, c) s = with_cache c (handle_message v r s)

  -- `HTTPError` has no parameters `response_code` and `response_description`, so a wrong content type
  -- raises a TypeError in its place.
  unfoldable pub handler :
      Service S → Clock → Request → NonceCache → S → HttpResponse × NonceCache × S
  unfolding authenticate handle_message
  handler v clock r c s =
      if not r.is_xml
      then (http_status 500, c, s)
      else if not r.fits_schema
      then (http_status 400, c, s)
      else if is_response r.message_type
      then (empty_text, c, s)
      else if is_other_vtn v.vtn_id r.vtn_id
      then (answer_error r.message_type invalid_id, c, s)
      else if not (is_known v.lookups r.message_type r.message.ven_id)
      then (reregister_or r.message.ven_id, c, s)
      else after_authentication v r
          (authenticate v.verify_message_signatures clock v.lookups r.message c) s
