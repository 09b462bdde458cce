-- ===== src/Messaging/Replay/Once.antt =====
-- A timestamp and a nonce are accepted at most once, however the checks of other messages and
-- the purges of the cache fall between.
use openleadr_python.Base.{
  ℕ, suc, ◌≡◌, refl, ◌⊎◌, inl, inr, Bool, true, false, Option, none, some, List, [], ◌∷◌, arith,
  any, Bool-cases, if◌then◌else◌,
}
use openleadr_python.Base.Int.{◌≤ℤ◌, -ℤ_parts}
use openleadr_python.Base.Exec.{Result, ok, raise, value_error}
use openleadr_python.Event.{Instant}
use openleadr_python.Messaging.Replay.{
  NonceCache, Timestamp, absent, malformed, at_time, Clock, max_time_delta, same_instant, same_pair,
  is_expired, purge, update_nonce_cache, check_pair, verify_replay_protect,
}

-- One check: its clock readings lie between two points in time.
pub record Attempt : Type 0 where
  pub clock : Clock
  pub timestamp : Timestamp
  pub nonce : Option ℕ
  pub began : Instant
  pub ended : Instant
  pub after_began : (i : ℕ) → began ≤ℤ clock i
  pub before_ended : (i : ℕ) → clock i ≤ℤ ended

abbrev pub attempt : Attempt → NonceCache → Result (Unit {0}) × NonceCache
attempt a = verify_replay_protect a.clock a.timestamp a.nonce

-- The checks are made one after another, none before `t`.
abbrev pub InOrder : Instant → List Attempt → Type 0
InOrder t [] = Unit
InOrder t (a ∷ l) = (t ≤ℤ a.began) × InOrder a.ended l

abbrev pub run : List Attempt → NonceCache → NonceCache
run [] c = c
run (a ∷ l) c = run l (attempt a c).1

-- The end of the last check.
abbrev pub last_end : Instant → List Attempt → Instant
last_end t [] = t
last_end t (a ∷ l) = last_end a.ended l

module _ (t : Instant) (n : ℕ) where
  -- The pair is in the cache, or by the time `u` it is too old to be accepted.
  abbrev IsSpent : Instant → NonceCache → Type 0
  IsSpent u c =
      (any (same_pair t n) c ≡ true) ⊎ ((now : Instant) × (now ≤ℤ u) × (is_expired now t ≡ true))

  expired_later :
      (now later : Instant) → now ≤ℤ later → is_expired now t ≡ true → is_expired later t ≡ true
  unfolding is_expired
  expired_later now later le e =
      ground (arith, -ℤ_parts now max_time_delta, -ℤ_parts later max_time_delta)

  IsSpent-later : (u w : Instant) (c : NonceCache) → u ≤ℤ w → IsSpent u c → IsSpent w c
  IsSpent-later u w c le (inl h) = inl h
  IsSpent-later u w c le (inr (now, before, e)) = inr (now, omega (arith, before), e)

  same_instant_lem : (u : Instant) → same_instant t u ≡ true → t ≡ u
  unfolding same_instant
  same_instant_lem u h = ground arith

  -- A purge keeps the pair unless it is too old at one of the readings.
  purge-IsSpent :
      (clock : Clock) (u : Instant) (i : ℕ) (c : NonceCache)
      → ((j : ℕ) → clock j ≤ℤ u)
      → any (same_pair t n) c ≡ true
      → IsSpent u (purge clock i c)
  unfolding purge
  purge-IsSpent clock u i [] le h = cc
  purge-IsSpent clock u i ((v, m) ∷ c) le h = elim (Bool-cases (same_pair t n (v, m))) [
    | inl k ↦ elim (Bool-cases (is_expired (clock i) v)) [
      | inl e ↦ inr (clock i, le i, rw (same_instant_lem v (ground arith)) e)
      | inr e ↦ inl (rw (e, k) refl)
    ]
    | inr k ↦ kept (is_expired (clock i) v) (purge-IsSpent clock u (suc i) c le (rw k at h))
  ]
    where
      kept :
          (b : Bool)
          → IsSpent u (purge clock (suc i) c)
          → IsSpent u (if b then purge clock (suc i) c else (v, m) ∷ purge clock (suc i) c)
      kept true s = s
      kept false (inl s) = inl (ground arith)
      kept false (inr s) = inr s

  -- Checking any pair leaves this one spent.
  check_pair-IsSpent :
      (clock : Clock) (u w : Instant) (v : Instant) (m : ℕ) (c : NonceCache)
      → ((j : ℕ) → clock j ≤ℤ w)
      → u ≤ℤ w
      → IsSpent u c
      → IsSpent w (check_pair clock v m c).1
  unfolding check_pair update_nonce_cache
  check_pair-IsSpent clock u w v m c le uw h = elim (Bool-cases (is_expired (clock 0) v)) [
    | inl k ↦ rw k (IsSpent-later u w c uw h)
    | inr k ↦ elim (Bool-cases (any (same_pair v m) c)) [
      | inl l ↦ rw (k, l) (IsSpent-later u w c uw h)
      | inr l ↦ rw (k, l) (purged h)
    ]
  ]
    where
      purged : IsSpent u c → IsSpent w (purge clock 1 ((v, m) ∷ c))
      purged (inl s) = purge-IsSpent clock w 1 ((v, m) ∷ c) le (ground arith)
      purged (inr (now, before, e)) = inr (now, omega arith, e)

  attempt-IsSpent :
      (a : Attempt) (u : Instant) (c : NonceCache)
      → u ≤ℤ a.ended
      → IsSpent u c
      → IsSpent a.ended (attempt a c).1
  attempt-IsSpent a u c le h = go a.timestamp a.nonce
    where
      go : (s : Timestamp) (m : Option ℕ) → IsSpent a.ended (verify_replay_protect a.clock s m c).1
      go absent m = unfold verify_replay_protect in IsSpent-later u a.ended c le h
      go malformed none = unfold verify_replay_protect in IsSpent-later u a.ended c le h
      go malformed (some m) = unfold verify_replay_protect in IsSpent-later u a.ended c le h
      go (at_time s) none = unfold verify_replay_protect in IsSpent-later u a.ended c le h
      go (at_time s) (some m) =
          unfold verify_replay_protect in
          check_pair-IsSpent a.clock u a.ended s m c a.before_ended le h

  run-IsSpent :
      (l : List Attempt) (u : Instant) (c : NonceCache)
      → InOrder u l
      → IsSpent u c
      → IsSpent (last_end u l) (run l c)
  run-IsSpent [] u c o h = h
  run-IsSpent (a ∷ l) u c o h =
      run-IsSpent l a.ended (attempt a c).1 o.1
        (attempt-IsSpent a u c (omega (arith, o.0, a.after_began 0, a.before_ended 0)) h)

  accepted-IsSpent :
      (clock : Clock) (u : Instant) (c : NonceCache)
      → ((j : ℕ) → clock j ≤ℤ u)
      → (check_pair clock t n c).0 ≡ ok tt
      → IsSpent u (check_pair clock t n c).1
  unfolding check_pair update_nonce_cache
  accepted-IsSpent clock u c le h = elim (Bool-cases (is_expired (clock 0) t)) [
    | inl k ↦ absurd (ground arith)
    | inr k ↦ elim (Bool-cases (any (same_pair t n) c)) [
      | inl l ↦ absurd (ground arith)
      | inr l ↦
          rw (k, l) (purge-IsSpent clock u 1 ((t, n) ∷ c) le (unfold same_instant in ground arith))
    ]
  ]

  spent_is_refused :
      (clock : Clock) (u : Instant) (c : NonceCache)
      → u ≤ℤ clock 0
      → IsSpent u c
      → (check_pair clock t n c).0 ≡ raise value_error
  unfolding check_pair
  spent_is_refused clock u c le (inl h) = ground arith
  spent_is_refused clock u c le (inr (now, before, e)) =
      rw (expired_later now (clock 0) (omega (arith, before)) e) refl

attempt-eq :
    (t : Instant) (n : ℕ) (a : Attempt) (c : NonceCache)
    → a.timestamp ≡ at_time t
    → a.nonce ≡ some n
    → attempt a c ≡ check_pair a.clock t n c
unfolding verify_replay_protect
attempt-eq t n a c at an = cc

last_end_after : (u : Instant) (l : List Attempt) → InOrder u l → u ≤ℤ last_end u l
last_end_after u [] o = omega arith
last_end_after u (a ∷ l) o =
    omega (arith, o.0, a.after_began 0, a.before_ended 0, last_end_after a.ended l o.1)

-- Once a timestamp and a nonce have been accepted, every later check of the same two is refused,
-- whatever checks of other messages fall between, as long as the clock does not go back from one
-- check to the next.
pub verify_replay_protect_once :
    (t : Instant) (n : ℕ) (a b : Attempt) (l : List Attempt) (c : NonceCache)
    → a.timestamp ≡ at_time t
    → a.nonce ≡ some n
    → b.timestamp ≡ at_time t
    → b.nonce ≡ some n
    → InOrder a.ended l
    → last_end a.ended l ≤ℤ b.began
    → (attempt a c).0 ≡ ok tt
    → (attempt b (run l (attempt a c).1)).0 ≡ raise value_error
verify_replay_protect_once t n a b l c at an bt bn order last accepted =
    rw (attempt-eq t n b (run l (attempt a c).1) bt bn) (
      spent_is_refused t n b.clock (last_end a.ended l) (run l (attempt a c).1)
        (omega (arith, last, b.after_began 0))
        (run-IsSpent t n l a.ended (attempt a c).1 order (
          rw (attempt-eq t n a c at an) (
            accepted-IsSpent t n a.clock a.ended c a.before_ended
              (rw (attempt-eq t n a c at an) at accepted)))))
