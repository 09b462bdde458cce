-- ===== src/Messaging/Signature.antt =====
-- openleadr/messaging.py: `validate_xml_signature`, the check of a signed message.
use openleadr_python.Base.{
  ℕ, ◌≡◌, inl, inr, Bool, true, Option, none, some, arith, Bool-cases, Option-cases, ◌==◌, ==_iff,
  ap, ◌∙◌, if◌then◌else◌,
}
use openleadr_python.Base.Exec.{
  Exec, ok, raise, invalid_signature, attribute_error, fingerprint_mismatch,
}
use openleadr_python.Messaging.Replay.{NonceCache, Clock, Timestamp, verify_replay_protect}

-- A message, as far as its signature goes. The fingerprint of its certificate and the validity of
-- the signature are found by code outside of the repository.
pub record Signed : Type 0 where
  pub message_fingerprint : Option ℕ
  pub signature_valid : Bool
  pub timestamp : Timestamp
  pub nonce : Option ℕ

abbrev pub verify : Clock → Signed → Exec NonceCache (Unit {0})
verify clock m c =
    if m.signature_valid
    then verify_replay_protect clock m.timestamp m.nonce c
    else (raise invalid_signature, c)

-- A message without a certificate is an AttributeError. Without a fingerprint to compare with, any
-- certificate is good.
unfoldable pub validate_xml_signature : Clock → Option ℕ → Signed → Exec NonceCache (Unit {0})
validate_xml_signature clock expected m c = elim m.message_fingerprint [
  | none ↦ (raise attribute_error, c)
  | some f ↦ elim expected [
    | none ↦ verify clock m c
    | some e ↦ if f == e then verify clock m c else (raise fingerprint_mismatch, c)
  ]
]

-- The message is signed with this certificate, its signature holds, and it is not a replay.
pub record IsSigned (clock : Clock) (f : ℕ) (m : Signed) (c : NonceCache) : Type 0 where
  pub certificate : m.message_fingerprint ≡ some f
  pub holds : m.signature_valid ≡ true
  pub fresh : (verify_replay_protect clock m.timestamp m.nonce c).0 ≡ ok tt

pub validate_xml_signature_ok :
    (clock : Clock) (f : ℕ) (m : Signed) (c : NonceCache)
    → (validate_xml_signature clock (some f) m c).0 ≡ ok tt
    → IsSigned clock f m c
unfolding validate_xml_signature
validate_xml_signature_ok clock f m c h = elim (Option-cases m.message_fingerprint) [
  | inl k ↦ absurd (ground (arith, k, h))
  | inr (g, k) ↦ elim (Bool-cases (g == f)) [
    | inl l ↦ elim (Bool-cases m.signature_valid) [
      | inl w ↦ record {
        certificate = k ∙ ap some ((==_iff g f).0 l);
        holds = w;
        fresh = ground (arith, k, l, w, h);
      }
      | inr w ↦ absurd (ground (arith, k, l, w, h))
    ]
    | inr l ↦ absurd (ground (arith, k, l, h))
  ]
]
