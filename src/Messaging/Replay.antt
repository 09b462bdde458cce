-- ===== src/Messaging/Replay.antt =====
-- The replay protection of openleadr/messaging.py: `_verify_replay_protect` and
-- `_update_nonce_cache`.
pub mod Once
use openleadr_python.Base.{
  ℕ, zero, suc, ◌+◌, Bool, true, false, ◌&&◌, ◌||◌, Option, none, some, List, [], ◌∷◌, any, ◌==◌,
  if◌then◌else◌,
}
use openleadr_python.Base.Int.{ℤ, pos, ◌-ℤ◌, ltb_ℤ, pos_part, neg_part}
use openleadr_python.Base.Exec.{Exec, Result, ok, raise, value_error, type_error}
use openleadr_python.Event.{Instant, Duration}

-- REPLAY_PROTECT_MAX_TIME_DELTA: five seconds, in microseconds
abbrev pub max_time_delta : Duration
max_time_delta = pos 5000000

-- NONCE_CACHE: pairs of a timestamp and a nonce. The set holds a pair once.
abbrev pub NonceCache : Type 0
NonceCache = List (Instant × ℕ)

-- The timestamp element: absent, a text in no known format, or a point in time.
pub data Timestamp : Type 0 where
  absent malformed : Timestamp
  at_time : Instant → Timestamp

-- Each reading of the clock has its own value, numbered in the order of the readings.
abbrev pub Clock : Type 0
Clock = ℕ → Instant

unfoldable pub same_instant : Instant → Instant → Bool
same_instant a b = pos_part a == pos_part b && neg_part a == neg_part b

abbrev pub same_pair : Instant → ℕ → Instant × ℕ → Bool
same_pair t n (u, m) = same_instant t u && n == m

unfoldable pub is_expired : Instant → Instant → Bool
is_expired now t = ltb_ℤ t (now -ℤ max_time_delta)

-- The loop over a copy of the cache, whose round `i` makes the reading `i` of the clock.
unfoldable pub purge : Clock → ℕ → NonceCache → NonceCache
purge clock i [] = []
purge clock i ((t, n) ∷ c) =
    let rest = purge clock (suc i) c in if is_expired (clock i) t then rest else (t, n) ∷ rest

unfoldable pub update_nonce_cache : Clock → Instant → ℕ → NonceCache → NonceCache
update_nonce_cache clock t n c = purge clock 1 ((t, n) ∷ c)

-- The reading 0 of the clock is the one that the timestamp is held against.
unfoldable pub check_pair : Clock → Instant → ℕ → Exec NonceCache (Unit {0})
check_pair clock t n c =
    if is_expired (clock 0) t
    then (raise value_error, c)
    else if any (same_pair t n) c
    then (raise value_error, c)
    else (ok tt, update_nonce_cache clock t n c)

-- A text in no known format comes back from `parse_datetime` as it is, and cannot be compared
-- with a time.
unfoldable pub verify_replay_protect : Clock → Timestamp → Option ℕ → Exec NonceCache (Unit {0})
verify_replay_protect clock absent _ c = (raise value_error, c)
verify_replay_protect clock malformed none c = (raise value_error, c)
verify_replay_protect clock malformed (some n) c = (raise type_error, c)
verify_replay_protect clock (at_time t) none c = (raise value_error, c)
verify_replay_protect clock (at_time t) (some n) c = check_pair clock t n c
