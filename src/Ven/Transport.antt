-- ===== src/Ven/Transport.antt =====
-- openleadr/client.py: `_perform_request`, which sends a message to the VTN and checks what comes
-- back.
use openleadr_python.Base.{
  ℕ, ◌≡◌, inl, inr, sym, ap, ◌∙◌, Bool, true, Option, none, some, arith, Bool-cases, ◌==◌, ==_iff,
  if◌then◌else◌,
}
use openleadr_python.Base.Exec.{Result, ok, raise}
use openleadr_python.Messaging.Replay.{NonceCache, Clock}
use openleadr_python.Messaging.Signature.{
  Signed, validate_xml_signature, IsSigned, validate_xml_signature_ok,
}

-- What an incoming content is to the schema, the signature and the parser; the first and the last
-- are of other packages and of the templates.
pub record Content (R : Type 0) : Type 0 where
  pub schema_valid : Bool
  pub signed : Signed
  pub parsed : Result R

-- A request over HTTP: it fails, or there is an answer with a status, that may be empty.
pub data Posted (R : Type 0) : Type 0 where
  failed : Posted R
  answered : ℕ → Option (Content R) → Posted R

-- What the method returns: None, the pair `None, {}`, or a message.
pub data Performed (R : Type 0) : Type 0 where
  nothing : Performed R
  no_message : Performed R
  received : R → Performed R

module _ {R : Type 0} where
  abbrev pub to_performed : Result R → Performed R
  to_performed (raise e) = no_message
  to_performed (ok r) = received r

  abbrev pub if_signed : Result R → Result (Unit {0}) × NonceCache → Performed R × NonceCache
  if_signed r (raise e, c) = (no_message, c)
  if_signed r (ok _, c) = (to_performed r, c)

  -- The signature is looked at only if a fingerprint is configured.
  unfoldable pub check_content :
      Option ℕ → Clock → Content R → NonceCache → Performed R × NonceCache
  unfolding validate_xml_signature
  check_content none clock x c =
      if x.schema_valid then (to_performed x.parsed, c) else (no_message, c)
  check_content (some f) clock x c =
      if x.schema_valid
      then if_signed x.parsed (validate_xml_signature clock (some f) x.signed c)
      else (no_message, c)

  abbrev pub check_body :
      Option ℕ → Clock → Option (Content R) → NonceCache → Performed R × NonceCache
  check_body f clock none c = (nothing, c)
  check_body f clock (some x) c = check_content f clock x c

  unfoldable pub perform_request :
      Option ℕ → Clock → Posted R → NonceCache → Performed R × NonceCache
  unfolding check_content
  perform_request f clock failed c = (no_message, c)
  perform_request f clock (answered status body) c =
      if status == 200 then check_body f clock body c else (no_message, c)

  -- The content is valid, and signed with this certificate, and parses to the message.
  pub record IsGenuine (clock : Clock) (f : ℕ) (r : R) (p : Posted R) (c : NonceCache)
      : Type 0 where
    pub content : Content R
    pub posted : p ≡ answered 200 (some content)
    pub valid : content.schema_valid ≡ true
    pub signature : IsSigned clock f content.signed c
    pub message : content.parsed ≡ ok r

module _ {R : Type 0} (clock : Clock) (f : ℕ) (c : NonceCache) where
  if_signed_received :
      (x : Result R) (v : Result (Unit {0}) × NonceCache) (r : R)
      → (if_signed x v).0 ≡ received r
      → (v.0 ≡ ok tt) × (x ≡ ok r)
  if_signed_received (ok y) (ok _, d) r h = ground (arith, h)
  if_signed_received (raise e) (ok _, d) r h = absurd (ground (arith, h))
  if_signed_received x (raise e, d) r h = absurd (ground (arith, h))

  check_content_received :
      (x : Content R) (r : R)
      → (check_content (some f) clock x c).0 ≡ received r
      → (x.schema_valid ≡ true) × IsSigned clock f x.signed c × (x.parsed ≡ ok r)
  unfolding check_content
  check_content_received x r h = elim (Bool-cases x.schema_valid) [
    | inl k ↦
        let both =
          if_signed_received x.parsed (validate_xml_signature clock (some f) x.signed c) r (
            ap
              (λ b.
                (if b
                  then if_signed x.parsed (validate_xml_signature clock (some f) x.signed c)
                  else (no_message, c)).0)
              (sym k)
            ∙ h) in
        (k, validate_xml_signature_ok clock f x.signed c (both.0), both.1)
    | inr k ↦ absurd (ground (arith, k, h))
  ]

  -- A client with the fingerprint of its VTN takes in a message only if the answer has the status
  -- 200, its content passes the schema, is signed with the certificate of that fingerprint and no
  -- replay, and parses to the message.
  pub perform_request-IsGenuine :
      (p : Posted R) (r : R)
      → (perform_request (some f) clock p c).0 ≡ received r
      → IsGenuine clock f r p c
  unfolding perform_request
  perform_request-IsGenuine failed r h = absurd (ground (arith, h))
  perform_request-IsGenuine (answered status none) r h = absurd (ground (arith, h))
  perform_request-IsGenuine (answered status (some x)) r h = elim (Bool-cases (status == 200)) [
    | inl k ↦
        let checked = check_content_received x r (
          ap (λ b. (if b then check_content (some f) clock x c else (no_message, c)).0) (sym k)
          ∙ h) in
        record {
          content = x;
          posted = ap (λ n. answered n (some x)) ((==_iff status 200).0 k);
          valid = checked.0;
          signature = checked.1;
          message = checked.2;
        }
    | inr k ↦ absurd (ground (arith, k, h))
  ]
