-- ===== src/Journey/Registered.antt =====
-- The registration of a client at the server.
use openleadr_python.Base.{ℕ, ◌≡◌, refl, ap, ◌∙◌, Option, none, some, [], ◌∷◌, ◌++◌}
use openleadr_python.Base.Exec.{ok, continue}
use openleadr_python.Ven.Transport.{received}
use openleadr_python.Ven.Registration.{unpack, settle_registration, create_party_registration}
use openleadr_python.Ven.Registration.State.{
  created_party_registration, empty_payload, Message, create_party, OpenAdrClient, World,
}
use openleadr_python.Vtn.RegistrationService as Vtn
use openleadr_python.Vtn.RegistrationService.{
  RegistrationService, Verdict, rejected, accepted, malformed,
}

-- The message with the reply, which the server's handler gives the code 200. A member that is not
-- in the reply is not in the message.
abbrev pub given : Option ℕ → Option (Option ℕ)
given none = none
given (some k) = some (some k)

abbrev pub registration_message : ℕ → Vtn.Reply → Message
registration_message request_id r = record {
  message_type = some created_party_registration;
  payload = record empty_payload {
    response = some (record { response_code = 200; request_id = some request_id });
    registration_id = given r.registration_id;
    ven_id = r.ven_id;
    requested_oadr_poll_freq = r.requested_oadr_poll_freq;
  };
}

-- What a client is once it has been told the verdict: registered under the ids of the server's
-- user, to poll as often as the server wants; or without a registration, and otherwise as it was.
abbrev pub told : Verdict → RegistrationService → OpenAdrClient → OpenAdrClient
told (accepted v r) service s = record s {
  ven_id = some v;
  registration_id = some r;
  poll_frequency = some (RegistrationService.poll_freq service);
}
told rejected service s = record s { registration_id = none }
told malformed service s = record s { registration_id = none }

settles :
    (i : ℕ) (verdict : Verdict) (service : RegistrationService) (s : OpenAdrClient)
    → settle_registration (registration_message i (Vtn.create_party_registration verdict service)) s
      ≡ (ok tt, told verdict service s)
unfolding settle_registration Vtn.create_party_registration
settles i rejected service s = refl
settles i (accepted v r) service s = refl
settles i malformed service s = refl

module _ (w : World) (request_id registration_id : Option ℕ) (s : OpenAdrClient) where
  abbrev pub asked : OpenAdrClient
  asked = record s { outbox = s.outbox ++ create_party request_id s.ven_id registration_id ∷ [] }

  -- When a client asks for a registration and the server answers it by the verdict of its user, the
  -- client is told it: an accepted one has the ids and the polling frequency of the server, and a
  -- rejected one has no registration, whatever it had before. Nothing raises.
  pub registration_told :
      (i : ℕ) (verdict : Verdict) (service : RegistrationService)
      → w.vtn asked.outbox
        ≡ received (registration_message i (Vtn.create_party_registration verdict service))
      → create_party_registration w request_id registration_id s
        ≡ (ok tt, told verdict service asked)
  unfolding create_party_registration unpack
  registration_told i verdict service h =
      ap (λ x. continue (unpack x asked) settle_registration) h ∙ settles i verdict service asked
