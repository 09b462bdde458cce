-- ===== src/Vtn/RegistrationService.antt =====
-- openleadr/service/registration_service.py: the registration of VENs. What the user's handlers
-- return is a parameter; the default handlers reject.
use openleadr_python.Base.{ℕ, Option, none, some}
use openleadr_python.Event.{Duration}

pub record RegistrationService : Type 0 where
  pub poll_freq : Duration

-- What `on_create_party_registration` returns: False or None, a pair of a VEN's id and a
-- registration's, or something of another length.
pub data Verdict : Type 0 where
  rejected : Verdict
  accepted : (ven_id registration_id : ℕ) → Verdict
  malformed : Verdict

-- The dict of an oadrCreatedPartyRegistration message, as far as the client reads it.
pub record Reply : Type 0 where
  pub request_id : Option ℕ
  pub ven_id : Option ℕ
  pub registration_id : Option ℕ
  pub requested_oadr_poll_freq : Option Duration

abbrev pub empty_reply : Reply
empty_reply = record {
  request_id = none;
  ven_id = none;
  registration_id = none;
  requested_oadr_poll_freq = none;
}

-- The placeholder `on_create_party_registration` of the service
abbrev pub on_create_party_registration : Verdict
on_create_party_registration = rejected

unfoldable pub query_registration : Option (ℕ → Reply) → ℕ → RegistrationService → Reply
query_registration (some on_query_registration) request_id s = on_query_registration request_id
query_registration none request_id s = record empty_reply {
  request_id = some request_id;
  requested_oadr_poll_freq = some s.poll_freq;
}

unfoldable pub create_party_registration : Verdict → RegistrationService → Reply
create_party_registration rejected s = record empty_reply {
  requested_oadr_poll_freq = some s.poll_freq;
}
create_party_registration (accepted ven_id registration_id) s = record empty_reply {
  ven_id = some ven_id;
  registration_id = some registration_id;
  requested_oadr_poll_freq = some s.poll_freq;
}
create_party_registration malformed s = empty_reply
