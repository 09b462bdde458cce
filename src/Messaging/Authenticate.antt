-- ===== src/Messaging/Authenticate.antt =====
-- openleadr/messaging.py: `authenticate_message`, which holds the certificates of a connection and
-- of a message against the fingerprint that the server knows for a VEN.
use openleadr_python.Base.{
  ℕ, ◌≡◌, ◌⊎◌, refl, inl, inr, Bool, true, false, Option, none, some, arith, Bool-cases,
  Option-cases, ◌==◌, ==_iff, ap, ◌∙◌, if◌then◌else◌,
}
use openleadr_python.Base.Exec.{
  Exec, Result, ok, raise, not_registered, invalid_signature, attribute_error, value_error,
  name_error, Error,
}
use openleadr_python.Messaging.Replay.{NonceCache, Clock, Timestamp, verify_replay_protect}

-- What `ven_lookup` returns of a VEN that it knows; what is missing is None.
pub record VenInfo : Type 0 where
  pub fingerprint : Option ℕ
  pub registration_id : Option ℕ

-- The request and its message. A fingerprint is taken from a certificate by code outside of the
-- repository, so is the verification of the signature.
pub record Incoming : Type 0 where
  pub secure : Bool
  pub ven_id : Option ℕ
  pub connection_fingerprint : Option ℕ
  pub message_fingerprint : Option ℕ
  pub signature_valid : Bool
  pub timestamp : Timestamp
  pub nonce : Option ℕ

-- The handlers that the user has set; the first is used when both are set. An empty answer of
-- either means that the VEN is not known.
pub record Lookups : Type 0 where
  pub fingerprint_lookup : Option (ℕ → Option ℕ)
  pub ven_lookup : Option (ℕ → Option VenInfo)

-- `ven_info.get('fingerprint')` of a VEN that is known
abbrev pub info_fingerprint : Option VenInfo → Result (Option ℕ)
info_fingerprint none = raise not_registered
info_fingerprint (some i) = ok i.fingerprint

abbrev pub known_fingerprint : Option ℕ → Result (Option ℕ)
known_fingerprint none = raise not_registered
known_fingerprint (some f) = ok (some f)

-- With neither handler the variable is never assigned, which is a NameError.
unfoldable pub expected_fingerprint : Lookups → ℕ → Result (Option ℕ)
expected_fingerprint k ven_id = elim k.fingerprint_lookup [
  | some f ↦ known_fingerprint (f ven_id)
  | none ↦ elim k.ven_lookup [ some g ↦ info_fingerprint (g ven_id) | none ↦ raise name_error ]
]

-- A ValueError means that the message is not authorized; another exception is passed on.
unfoldable pub unauthorized : Error → Error
unauthorized value_error = not_registered
unauthorized e = e

abbrev pub as_unauthorized : Result (Unit {0}) × NonceCache → Result (Unit {0}) × NonceCache
as_unauthorized (ok u, c) = (ok u, c)
as_unauthorized (raise e, c) = (raise (unauthorized e), c)

-- `verify_message_signature`: a message without a certificate is an AttributeError.
unfoldable pub check_signature : Clock → ℕ → Incoming → Exec NonceCache (Unit {0})
unfolding unauthorized
check_signature clock expected m c = elim m.message_fingerprint [
  | none ↦ (raise attribute_error, c)
  | some f ↦
      if f == expected
      then if m.signature_valid
        then as_unauthorized (verify_replay_protect clock m.timestamp m.nonce c)
        else (raise invalid_signature, c)
      else (raise not_registered, c)
]

abbrev pub check_fingerprints :
    Bool → Clock → ℕ → Result (Option ℕ) → Incoming → Exec NonceCache (Unit {0})
check_fingerprints verify clock connection (raise e) m c = (raise e, c)
check_fingerprints verify clock connection (ok none) m c = (raise not_registered, c)
check_fingerprints verify clock connection (ok (some expected)) m c =
    if connection == expected
    then if verify then check_signature clock expected m c else (ok tt, c)
    else (raise not_registered, c)

unfoldable pub check_connection : Bool → Clock → Lookups → ℕ → Incoming → Exec NonceCache (Unit {0})
unfolding expected_fingerprint check_signature
check_connection verify clock k ven_id m c = elim m.connection_fingerprint [
  | none ↦ (raise not_registered, c)
  | some f ↦ check_fingerprints verify clock f (expected_fingerprint k ven_id) m c
]

unfoldable pub authenticate_message : Bool → Clock → Lookups → Incoming → Exec NonceCache (Unit {0})
unfolding check_connection
authenticate_message verify clock k m c = elim m.ven_id [
  | none ↦ (ok tt, c)
  | some ven_id ↦ if m.secure then check_connection verify clock k ven_id m c else (ok tt, c)
]

as_unauthorized_ok :
    (x : Result (Unit {0}) × NonceCache) → (as_unauthorized x).0 ≡ ok tt → x.0 ≡ ok tt
as_unauthorized_ok (ok u, c) h = refl
as_unauthorized_ok (raise e, c) h = absurd (ground arith)

-- The message is signed with the certificate that is expected, its signature holds, and it is not
-- a replay.
abbrev pub IsSigned : Clock → ℕ → Incoming → NonceCache → Type 0
IsSigned clock f m c =
    (m.message_fingerprint ≡ some f)
    × (m.signature_valid ≡ true)
    × ((verify_replay_protect clock m.timestamp m.nonce c).0 ≡ ok tt)

check_signature_ok :
    (clock : Clock) (f : ℕ) (m : Incoming) (c : NonceCache)
    → (check_signature clock f m c).0 ≡ ok tt
    → IsSigned clock f m c
unfolding check_signature
check_signature_ok clock f m c h = elim (Option-cases m.message_fingerprint) [
  | inl k ↦ absurd (ground arith)
  | inr (g, k) ↦ elim (Bool-cases (g == f)) [
    | inl l ↦ elim (Bool-cases m.signature_valid) [
      | inl w ↦ (
        k ∙ ap some ((==_iff g f).0 l),
        w,
        as_unauthorized_ok (verify_replay_protect clock m.timestamp m.nonce c) (rw (k, l, w) at h),
      )
      | inr w ↦ absurd (ground arith)
    ]
    | inr l ↦ absurd (ground arith)
  ]
]

check_fingerprints_ok :
    (verify : Bool) (clock : Clock) (g : ℕ) (r : Result (Option ℕ)) (m : Incoming) (c : NonceCache)
    → (check_fingerprints verify clock g r m c).0 ≡ ok tt
    → (r ≡ ok (some g)) × ((verify ≡ false) ⊎ IsSigned clock g m c)
check_fingerprints_ok verify clock g (raise e) m c h = absurd (ground arith)
check_fingerprints_ok verify clock g (ok none) m c h = absurd (ground arith)
check_fingerprints_ok verify clock g (ok (some f)) m c h = elim (Bool-cases (g == f)) [
  | inl k ↦ let signed_by = signed verify (rw k at h) in rw ((==_iff g f).0 k) (refl, signed_by)
  | inr k ↦ absurd (ground arith)
]
  where
    signed :
        (b : Bool)
        → (if b then check_signature clock f m c else (ok tt, c)).0 ≡ ok tt
        → (b ≡ false) ⊎ IsSigned clock f m c
    signed false h = inl refl
    signed true h = inr (check_signature_ok clock f m c h)

authenticate_message-eq :
    (verify : Bool) (clock : Clock) (k : Lookups) (m : Incoming) (c : NonceCache) (v g : ℕ)
    → m.secure ≡ true
    → m.ven_id ≡ some v
    → m.connection_fingerprint ≡ some g
    → authenticate_message verify clock k m c
      ≡ check_fingerprints verify clock g (expected_fingerprint k v) m c
unfolding authenticate_message check_connection
authenticate_message-eq verify clock k m c v g hs hv hg = ground arith

-- A message that names a VEN over a secure connection is let through only if the server knows a
-- fingerprint for the VEN, the connection's certificate has that fingerprint, and, when signatures
-- are verified, the message is signed with the same certificate, its signature holds and it is not
-- a replay.
pub authenticate_message_sound :
    (verify : Bool) (clock : Clock) (k : Lookups) (m : Incoming) (c : NonceCache) (v : ℕ)
    → m.secure ≡ true
    → m.ven_id ≡ some v
    → (authenticate_message verify clock k m c).0 ≡ ok tt
    → (f : ℕ) × (expected_fingerprint k v ≡ ok (some f))
      × (m.connection_fingerprint ≡ some f)
      × ((verify ≡ false) ⊎ IsSigned clock f m c)
unfolding authenticate_message check_connection
authenticate_message_sound verify clock k m c v hs hv h =
    elim (Option-cases m.connection_fingerprint) [
      | inl n ↦ absurd (ground arith)
      | inr (g, n) ↦
          let found =
            check_fingerprints_ok verify clock g (expected_fingerprint k v) m c
              (rw (authenticate_message-eq verify clock k m c v g hs hv n) at h) in
          (g, found.0, n, found.1)
    ]
