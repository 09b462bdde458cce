-- ===== src/Tests/Handler.antt =====
-- The way of a request at a concrete input.
use openleadr_python.Base.{ℕ, suc, ◌≡◌, ◌≢◌, refl, true, false, none, some, [], arith}
use openleadr_python.Base.Int.{pos}
use openleadr_python.Base.Exec.{ok}
use openleadr_python.Messaging.Replay.{Clock, at_time}
use openleadr_python.Messaging.Authenticate.{Incoming, VenInfo, authenticate_message}
use openleadr_python.Vtn.Handler.{
  Request, Service, request_event, distribute_event, handler, handle_message, authenticate,
  with_cache,
}
use openleadr_python.Vtn.Handler.Guards.{Passes, handler-Passes}

abbrev clock : Clock
clock _ = pos 101000000

-- A message of the VEN 1 over a connection that is not secure.
abbrev incoming : Incoming
incoming = record {
  secure = false;
  ven_id = some 1;
  connection_fingerprint = none;
  message_fingerprint = none;
  signature_valid = false;
  timestamp = at_time (pos 100000000);
  nonce = some 5;
}

abbrev request : Request
request = record {
  is_xml = true;
  fits_schema = true;
  message_type = request_event;
  vtn_id = some 3;
  message = incoming;
}

abbrev known : VenInfo
known = record { fingerprint = some 9; registration_id = some 4 }

-- A service that counts its messages.
abbrev service : Service ℕ
service = record {
  vtn_id = 3;
  lookups = record { fingerprint_lookup = none; ven_lookup = some (λ _. some known) };
  verify_message_signatures = true;
  handlers = λ _.
      some (λ m s. (ok (some (record { response_type = distribute_event; ven_id = none })), suc s));
}

counts : (handler service clock request [] 0).2 ≡ 1
counts = unfold handler authenticate authenticate_message handle_message in refl

changes : (handler service clock request [] 0).2 ≢ 0
changes h = ground (arith, counts, h)

handler-Passes_example :
    Passes service clock request [] 0
    × (handler service clock request [] 0
        ≡ with_cache
            (authenticate service.verify_message_signatures clock service.lookups request.message
              []).1
            (handle_message service request 0))
handler-Passes_example = handler-Passes service clock request [] 0 changes
