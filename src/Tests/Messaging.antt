-- ===== src/Tests/Messaging.antt =====
-- The theorems on authentication and replay protection at concrete inputs.
use openleadr_python.Base.{ℕ, ◌≡◌, ◌⊎◌, refl, true, false, none, some, [], ◌∷◌, arith}
use openleadr_python.Base.Int.{pos, ◌-ℤ◌}
use openleadr_python.Base.Exec.{ok, raise, value_error}
use openleadr_python.Event.{Instant}
use openleadr_python.Messaging.Replay.{
  Clock, at_time, verify_replay_protect, check_pair, is_expired,
}
use openleadr_python.Messaging.Replay.Once.{Attempt, attempt, run, verify_replay_protect_once}
use openleadr_python.Messaging.Authenticate.{
  Incoming, Lookups, authenticate_message, check_connection, check_signature,
  authenticate_message_sound, expected_fingerprint, IsSigned,
}

-- A message that was signed at second 100, checked at a time when all readings agree.
abbrev attempt_at : Instant → ℕ → Attempt
attempt_at t n = record {
  clock = λ _. t;
  timestamp = at_time (pos 100000000);
  nonce = some n;
  began = t;
  ended = t;
  after_began = λ _. omega arith;
  before_ended = λ _. omega arith;
}

first_is_accepted : (attempt (attempt_at (pos 101000000) 5) []).0 ≡ ok tt
first_is_accepted = unfold verify_replay_protect check_pair is_expired ◌-ℤ◌ in refl

verify_replay_protect_once_example :
    (attempt
      (attempt_at (pos 103000000) 5)
      (run (attempt_at (pos 102000000) 6 ∷ []) (attempt (attempt_at (pos 101000000) 5) []).1)).0
    ≡ raise value_error
verify_replay_protect_once_example =
    verify_replay_protect_once (pos 100000000) 5 (attempt_at (pos 101000000) 5)
      (attempt_at (pos 103000000) 5) (attempt_at (pos 102000000) 6 ∷ []) [] refl refl refl refl
      (omega arith, tt) (omega arith) first_is_accepted

abbrev clock : Clock
clock _ = pos 101000000

abbrev lookups : Lookups
lookups = record { fingerprint_lookup = some (λ _. some 9); ven_lookup = none }

abbrev incoming : Incoming
incoming = record {
  secure = true;
  ven_id = some 1;
  connection_fingerprint = some 9;
  message_fingerprint = some 9;
  signature_valid = true;
  timestamp = at_time (pos 100000000);
  nonce = some 5;
}

is_authentic : (authenticate_message true clock lookups incoming []).0 ≡ ok tt
is_authentic =
    unfold authenticate_message check_connection expected_fingerprint check_signature
      verify_replay_protect check_pair is_expired ◌-ℤ◌ in
    refl

authenticate_message_sound_example :
    (f : ℕ) × (expected_fingerprint lookups 1 ≡ ok (some f))
    × (some 9 ≡ some f)
    × ((true ≡ false) ⊎ IsSigned clock f incoming [])
authenticate_message_sound_example =
    authenticate_message_sound true clock lookups incoming [] 1 refl refl is_authentic
