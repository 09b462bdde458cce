-- ===== src/Vtn/Handler/Guards.antt =====
-- A message reaches its handler only past all checks.
use openleadr_python.Base.{
  ℕ, ◌≡◌, ◌≢◌, ◌⊎◌, refl, ap, ◌∙◌, inl, inr, Bool, true, false, none, some, is_some, ◌||◌, arith,
  Bool-cases, Option-cases,
}
use openleadr_python.Messaging.Authenticate.{
  Lookups, expected_fingerprint, IsSigned, authenticate_message_sound,
}
use openleadr_python.Base.Exec.{Result, Result-cases, Error, ok, raise}
use openleadr_python.Messaging.Replay.{NonceCache, Clock}
use openleadr_python.Vtn.Handler.{
  Request, Service, is_known, is_response, with_cache, is_other_vtn, authenticate, handle_message,
  after_authentication, handler,
}

-- Whether the user has set a lookup.
abbrev pub has_lookup : Lookups → Bool
has_lookup k = is_some k.fingerprint_lookup || is_some k.ven_lookup

module _ {ℓ} {S : Type ℓ} (v : Service S) (clock : Clock) (r : Request) (c : NonceCache)
    (s : S) where
  -- The certificates that the lookups of the service ask of a message of the VEN `n`.
  abbrev pub IsGenuine : ℕ → Type 0
  IsGenuine n =
      (f : ℕ) × (expected_fingerprint v.lookups n ≡ ok (some f))
      × (r.message.connection_fingerprint ≡ some f)
      × ((v.verify_message_signatures ≡ false) ⊎ IsSigned clock f r.message c)

  -- The request has passed every check. The certificates are only looked at when the connection is
  -- secure, the message names a VEN, and the service has a lookup.
  pub record Passes : Type 0 where
    pub is_xml : r.is_xml ≡ true
    pub fits_schema : r.fits_schema ≡ true
    pub for_us : is_other_vtn v.vtn_id r.vtn_id ≡ false
    pub is_registered : is_known v.lookups r.message_type r.message.ven_id ≡ true
    pub is_genuine :
        (n : ℕ)
        → r.message.secure ≡ true
        → r.message.ven_id ≡ some n
        → has_lookup v.lookups ≡ true
        → IsGenuine n

  authenticate-IsGenuine :
      (n : ℕ)
      → r.message.secure ≡ true
      → r.message.ven_id ≡ some n
      → has_lookup v.lookups ≡ true
      → (authenticate v.verify_message_signatures clock v.lookups r.message c).0 ≡ ok tt
      → IsGenuine n
  unfolding authenticate expected_fingerprint
  authenticate-IsGenuine n secure named l h = elim (Option-cases v.lookups.fingerprint_lookup) [
    | inr (f, k) ↦
        let (g, known, rest, signed) =
          authenticate_message_sound v.verify_message_signatures clock
            (record { fingerprint_lookup = some f; ven_lookup = none }) r.message c n secure named
            (rw k at h) in
        (g, rw k known, rest, signed)
    | inl k ↦ elim (Option-cases v.lookups.ven_lookup) [
      | inr (f, m) ↦
          let (g, known, rest, signed) =
            authenticate_message_sound v.verify_message_signatures clock
              (record { fingerprint_lookup = none; ven_lookup = some f }) r.message c n secure named
              (rw (k, m) at h) in
          (g, rw (k, m) known, rest, signed)
      | inl m ↦ absurd (ground arith)
    ]
  ]

  abbrev authenticated : Result (Unit {0}) × NonceCache
  authenticated = authenticate v.verify_message_signatures clock v.lookups r.message c

  after_authentication_raises :
      (x : Result (Unit {0}) × NonceCache) (e : Error)
      → x.0 ≡ raise e
      → (after_authentication v r x s).2 ≡ s
  after_authentication_raises (ok u, d) e h = absurd (ground arith)
  after_authentication_raises (raise y, d) e h = refl

  after_authentication_ok :
      (x : Result (Unit {0}) × NonceCache)
      → x.0 ≡ ok tt
      → after_authentication v r x s ≡ with_cache x.1 (handle_message v r s)
  after_authentication_ok (ok u, d) h = refl
  after_authentication_ok (raise y, d) h = absurd (ground arith)

  handler-passed :
      r.is_xml ≡ true
      → r.fits_schema ≡ true
      → is_response r.message_type ≡ false
      → is_other_vtn v.vtn_id r.vtn_id ≡ false
      → is_known v.lookups r.message_type r.message.ven_id ≡ true
      → handler v clock r c s ≡ after_authentication v r authenticated s
  unfolding handler
  handler-passed a b d e f = rw (handler, a, b, d, e, f) refl

  -- A request that changes the state of a service has the content type of XML, fits the schema, is
  -- not for another VTN and comes from a VEN that need not register first. If it came over a secure
  -- connection and names a VEN, and the service has a lookup, then the lookup knows a fingerprint
  -- for the VEN, the connection's certificate has it, and, when signatures are verified, the message
  -- is signed with that certificate, validly, and is not a replay. What is done and answered is what
  -- the handler of its message does and answers.
  pub handler-Passes :
      (handler v clock r c s).2 ≢ s
      → Passes
        × (handler v clock r c s
            ≡ with_cache
                (authenticate v.verify_message_signatures clock v.lookups r.message c).1
                (handle_message v r s))
  unfolding handler
  handler-Passes changed = elim (Bool-cases r.is_xml) [
    | inr a ↦ absurd (changed (rw (handler, a) refl))
    | inl a ↦ elim (Bool-cases r.fits_schema) [
      | inr b ↦ absurd (changed (rw (handler, a, b) refl))
      | inl b ↦ elim (Bool-cases (is_response r.message_type)) [
        | inl d ↦ absurd (changed (rw (handler, a, b, d) refl))
        | inr d ↦ elim (Bool-cases (is_other_vtn v.vtn_id r.vtn_id)) [
          | inl e ↦ absurd (changed (rw (handler, a, b, d, e) refl))
          | inr e ↦ elim (Bool-cases (is_known v.lookups r.message_type r.message.ven_id)) [
            | inr f ↦ absurd (changed (rw (handler, a, b, d, e, f) refl))
            | inl f ↦ elim (Result-cases authenticated.0) [
              | inr (y, g) ↦ absurd (
                  changed (
                    ap (λ x. x.2) (handler-passed a b d e f)
                    ∙ after_authentication_raises authenticated y g))
              | inl (u, g) ↦ (
                record {
                  is_xml = a;
                  fits_schema = b;
                  for_us = e;
                  is_registered = f;
                  is_genuine =
                      λ n secure named lookup. authenticate-IsGenuine n secure named lookup g;
                },
                handler-passed a b d e f ∙ after_authentication_ok authenticated g,
              )
            ]
          ]
        ]
      ]
    ]
  ]
