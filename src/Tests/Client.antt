-- ===== src/Tests/Client.antt =====
-- The theorems on the client's registration and polling at concrete inputs.
use openleadr_python.Base.{ℕ, ◌≡◌, ◌≢◌, refl, true, false, none, some, []}
use openleadr_python.Base.Int.{pos, ◌-ℤ◌}
use openleadr_python.Base.Exec.{ok}
use openleadr_python.Messaging.Replay.{
  Clock, at_time, verify_replay_protect, check_pair, is_expired,
}
use openleadr_python.Messaging.Signature.{Signed, validate_xml_signature}
use openleadr_python.Ven.Transport.{
  Posted, answered, received, check_content, perform_request, IsGenuine, perform_request-IsGenuine,
}
use openleadr_python.Ven.Registration.{
  unpack, settle_registration, create_party_registration, register_reports,
  create_party_reregistration,
}
use openleadr_python.Ven.Registration.State.{
  created_party_registration, Payload, empty_payload, Message, OpenAdrClient, World,
}
use openleadr_python.Ven.Registration.Unregister.{
  on_cancel_party_registration, create_party_reregistration_stuck, Cancels,
  on_cancel_party_registration-Cancels,
}
use openleadr_python.Ven.Polling.{poll, run}
use openleadr_python.Ven.Polling.Running.{Starts, run-Starts}
use openleadr_python.Ven.Polling.Keeps.{KeepsRegistration, poll-KeepsRegistration}
use openleadr_python.Vtn.RegistrationService as Vtn
use openleadr_python.Vtn.RegistrationService.{RegistrationService, accepted}
use openleadr_python.Journey.Registered.{registration_message, told, asked, registration_told}
use openleadr_python.Tests.Samples.{new_client, single}
use openleadr_python.Tests.Ven.{handlers, client}

abbrev clock : Clock
clock _ = pos 101000000

abbrev signed : Signed
signed = record {
  message_fingerprint = some 9;
  signature_valid = true;
  timestamp = at_time (pos 100000000);
  nonce = some 5;
}

abbrev posted : Posted ℕ
posted = answered 200 (some (record { schema_valid = true; signed = signed; parsed = ok 3 }))

is_received : (perform_request (some 9) clock posted []).0 ≡ received 3
is_received =
    unfold perform_request check_content validate_xml_signature verify_replay_protect check_pair
      is_expired ◌-ℤ◌ in
    refl

perform_request-IsGenuine_example : IsGenuine clock 9 3 posted []
perform_request-IsGenuine_example = perform_request-IsGenuine clock 9 [] posted 3 is_received

-- A VTN that answers everything with a granted registration.
abbrev granted : Message
granted = record {
  message_type = some created_party_registration;
  payload = record empty_payload {
    response = some (record { response_code = 200; request_id = some 2 });
    registration_id = some (some 7);
    ven_id = some 1;
    requested_oadr_poll_freq = some (pos 100000000000);
  };
}

abbrev world : World
world = record {
  vtn = λ _. received granted;
  now = pos 97000000;
  handlers = handlers;
  callbacks = single;
  names_invalid = λ _. false;
}

abbrev ven : OpenAdrClient
ven = record {
  ven_id = none;
  registration_id = some 6;
  poll_frequency = none;
  events = client;
  reports = some new_client;
  report_queue_task = false;
  scheduled = [];
  stopped = false;
  outbox = [];
}

abbrev left : OpenAdrClient
left = record ven { registration_id = none; reports = none }

left_registers : (create_party_reregistration world left).1.registration_id ≡ some 7
left_registers =
    unfold create_party_reregistration create_party_registration unpack settle_registration
      register_reports in
    refl

create_party_reregistration_stuck_example : (create_party_reregistration world left).0 ≢ ok tt
create_party_reregistration_stuck_example =
    create_party_reregistration_stuck world left 7 refl left_registers

abbrev cancelling : Payload
cancelling = record empty_payload { registration_id = some (some 5); request_id = some 30 }

on_cancel_party_registration-Cancels_example :
    Cancels 6 (some 5) 30 ven (on_cancel_party_registration world cancelling ven)
on_cancel_party_registration-Cancels_example =
    on_cancel_party_registration-Cancels world cancelling 6 30 (some 5) ven refl refl refl

run-Starts_example : Starts (run world left)
run-Starts_example = run-Starts world left

poll-KeepsRegistration_example : KeepsRegistration ven (poll world ven).1
poll-KeepsRegistration_example = poll-KeepsRegistration world ven refl

abbrev service : RegistrationService
service = record { poll_freq = pos 100000000000 }

-- A VTN whose user accepts every VEN.
abbrev accepting : World
accepting = record world {
  vtn =
      λ _. received (registration_message 2 (Vtn.create_party_registration (accepted 1 7) service));
}

registration_told_example :
    create_party_registration accepting (some 2) none ven
    ≡ (ok tt, told (accepted 1 7) service (asked accepting (some 2) none ven))
registration_told_example =
    registration_told accepting (some 2) none ven 2 (accepted 1 7) service refl
