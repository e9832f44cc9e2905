-- ===== src/Credentials/Validate.antt =====
-- auth_bridge/credentials.py: validate_age_bracket_vc. The look into the registry of revocations is
-- left out: whatever it raises is caught there and forgotten.
use iyou_idp.Prelude.{
  ℕ, suc, ◌+◌, ◌-◌, String, Bool, true, false, not, ◌&&◌, ◌||◌, Option, none, some, List, [], ◌∷◌,
  if◌then◌else◌, ◌==◌, any, leb,
}
use iyou_idp.Prelude.Int.{ℤ, pos, negsuc}
use iyou_idp.Json.{Json, str, arr, obj, Props, get, get_or, truthy, or, items, is_text, is_true}
use iyou_idp.Crypto.{Crypto, Bytes}
use iyou_idp.Credentials.{
  Readers, find_pii_fields, get_session_permission_tier, parse_timestamp, is_jwt_string,
  pubkey_from_did_key, verify_signature_with_did_rust,
}

-- The dictionary that validate_age_bracket_vc returns; wot_distance is 1 and revoked is False.
pub record Validated : Type 0 where
  pub issuer : Json
  pub subject_id : String
  pub age_bracket : String
  pub permission_tier : Props
  pub credential : Props
  pub raw_payload : Json
  pub issued_at : ℤ
  pub expires_at : ℤ

-- What it returns, the CredentialValidationError (without the values in its message), or another
-- exception.
pub data Validation : Type 0 where
  valid : Validated → Validation
  invalid : (message : String) → Validation
  crashed : Validation

-- value if isinstance(value, list) else [value], of a list or a text
abbrev listed : Json → Option (List Json)
listed (str s) = some (str s ∷ [])
listed (arr vs) = some (items vs)
listed _ = none

abbrev pub context_uris : Option (List Json) → Option String
context_uris none = some "'@context' must be a list or string."
context_uris (some vs) =
    if not (any (is_text "https://www.w3.org/2018/credentials/v1") vs)
    then some "'@context' must contain W3C credentials context."
    else if not (any (is_text "https://iyou.me/credentials/age-bracket/v1") vs)
    then some "'@context' must contain Age-Bracket schema context."
    else none

abbrev pub context_error : Json → Option String
context_error v =
    if truthy v then context_uris (listed v) else some "Credential is missing '@context'."

abbrev pub type_names : Option (List Json) → Option String
type_names none = some "'type' must be a list or string."
type_names (some vs) =
    if any (is_text "AgeBracketCredential") vs
    then none
    else some "Credential type must contain 'AgeBracketCredential'."

abbrev pub type_error : Json → Option String
type_error v = if truthy v then type_names (listed v) else some "Credential is missing 'type'."

abbrev pub first_error : Option String → Option String → Option String
first_error (some e) later = some e
first_error none later = later

abbrev pub structure_error : Props → Option String
structure_error vc = first_error (context_error (get "@context" vc)) (type_error (get "type" vc))

abbrev or_now : (now : ℕ) → Option ℤ → ℤ
or_now now none = pos now
or_now now (some t) = t

abbrev plus : ℤ → ℕ → ℤ
plus (pos n) k = pos (n + k)
plus (negsuc n) k = if leb (suc n) k then pos (k - suc n) else negsuc (n - k)

-- expires_at <= now
abbrev pub has_expired : (now : ℕ) → ℤ → Bool
has_expired now (pos n) = leb n now
has_expired now (negsuc n) = true

module _ (c : Crypto) (readers : Readers) (now : ℕ) where
  abbrev pub issued_at_of : (vc subject : Props) → ℤ
  issued_at_of vc subject = or_now now (
      parse_timestamp readers (
        or (get "issuanceDate" vc) (
          or (get "issued_at" vc)
            (or (get "validFrom" vc) (or (get "iat" vc) (get "issued_at" subject))))))

  abbrev pub expires_raw : (vc subject : Props) → Json
  expires_raw vc subject = or (get "expirationDate" vc) (
      or (get "expires_at" vc)
        (or (get "validUntil" vc) (or (get "exp" vc) (get "expires_at" subject))))

  abbrev pub is_revoked : (vc subject : Props) → Bool
  is_revoked vc subject = is_true (get "revoked" vc) || is_true (get "revoked" subject)

  module _ (raw : Json) (vc subject : Props) (subject_id age_bracket : String)
      (permission_tier : Props) where
    abbrev pub result : (expires_at : ℤ) → Validated
    result expires_at = record {
      issuer = get "issuer" vc;
      subject_id = subject_id;
      age_bracket = age_bracket;
      permission_tier = permission_tier;
      credential = vc;
      raw_payload = raw;
      issued_at = issued_at_of vc subject;
      expires_at = expires_at;
    }

    abbrev pub unless_revoked : (expires_at : ℤ) → Validation
    unless_revoked expires_at =
        if is_revoked vc subject
        then invalid "Credential has been revoked."
        else valid (result expires_at)

    -- A credential without an expiry has a year from its issuance, which may be over.
    abbrev pub dated : Option ℤ → Validation
    dated none = unless_revoked (plus (issued_at_of vc subject) 31536000)
    dated (some t) =
        if has_expired now t then invalid "Credential has expired." else unless_revoked t

    abbrev pub signed : (jwt_verified : Bool) → Validation
    signed jwt_verified =
        if not jwt_verified && not (verify_signature_with_did_rust c readers vc)
        then invalid "Invalid parent DID signature"
        else dated (parse_timestamp readers (expires_raw vc subject))

  abbrev pub tiered :
      (raw : Json) (jwt_verified : Bool) (vc subject : Props) (id bracket : String)
      → Option Props
      → Validation
  tiered raw jwt_verified vc subject id bracket none = invalid "Unsupported ageBracket"
  tiered raw jwt_verified vc subject id bracket (some tier) =
      signed raw vc subject id bracket tier jwt_verified

  abbrev pub bracketed :
      (raw : Json) (jwt_verified : Bool) (vc subject : Props) (id : String) → Json → Validation
  bracketed raw jwt_verified vc subject id (str bracket) =
      if bracket == ""
      then invalid "credentialSubject is missing required 'ageBracket'."
      else tiered raw jwt_verified vc subject id bracket (get_session_permission_tier bracket)
  bracketed raw jwt_verified vc subject id _ =
      invalid "credentialSubject is missing required 'ageBracket'."

  abbrev pub identified :
      (raw : Json) (jwt_verified : Bool) (vc subject : Props) → Json → Validation
  identified raw jwt_verified vc subject (str id) =
      if id == ""
      then invalid "credentialSubject is missing valid 'id' DID."
      else bracketed raw jwt_verified vc subject id (get "ageBracket" subject)
  identified raw jwt_verified vc subject _ = invalid "credentialSubject is missing valid 'id' DID."

  abbrev pub with_subject : (raw : Json) (jwt_verified : Bool) (vc : Props) → Json → Validation
  with_subject raw jwt_verified vc (obj subject) =
      identified raw jwt_verified vc subject (get "id" subject)
  with_subject raw jwt_verified vc _ = invalid "Missing or invalid 'credentialSubject' object."

  abbrev pub structured : (raw : Json) (jwt_verified : Bool) → Props → Option String → Validation
  structured raw jwt_verified vc (some error) = invalid error
  structured raw jwt_verified vc none =
      with_subject raw jwt_verified vc (get "credentialSubject" vc)

  abbrev pub without_pii : (raw : Json) (jwt_verified : Bool) → Json → List String → Validation
  without_pii raw jwt_verified vc (k ∷ found) =
      invalid "Zero-PII violation: cleartext PII field(s) detected in credential payload"
  without_pii raw jwt_verified (obj vc) [] = structured raw jwt_verified vc (structure_error vc)
  without_pii raw jwt_verified _ [] = crashed

  abbrev pub checked : (raw : Json) (jwt_verified : Bool) → Json → Validation
  checked raw jwt_verified vc = without_pii raw jwt_verified vc (find_pii_fields vc)

  abbrev pub jwt_with : (token : String) → (vc : Json) → Option Bytes → Validation
  jwt_with token vc none = invalid "Cannot extract Ed25519 public key from issuer DID"
  jwt_with token vc (some key) =
      if c.ed25519_public_key key && readers.decode_verified key token
      then checked (str token) true vc
      else invalid "Invalid parent DID signature: JWT verification failed"

  abbrev pub jwt_key : (token : String) → (vc issuer : Json) → Validation
  jwt_key token vc (str did) = jwt_with token vc (pubkey_from_did_key c readers did)
  jwt_key token vc _ = crashed

  abbrev pub issuer_of : (token : String) → (vc : Json) → Validation
  issuer_of token (obj ps) =
      if truthy (get "issuer" ps)
      then jwt_key token (obj ps) (get "issuer" ps)
      else invalid "JWT is missing required issuer DID."
  issuer_of token _ = crashed

  abbrev pub jwt_issuer : (token : String) → (vc iss : Json) → Validation
  jwt_issuer token vc iss = if truthy iss then jwt_key token vc iss else issuer_of token vc

  abbrev pub jwt_claims : (token : String) → Option Props → Validation
  jwt_claims token none = invalid "Invalid JWT payload"
  jwt_claims token (some claims) =
      jwt_issuer token (get_or (obj claims) "vc" claims) (get "iss" claims)

  abbrev pub from_text : (text : String) → Option Json → Validation
  from_text text none = invalid "Invalid JSON payload"
  from_text text (some vc) = checked (str text) false vc

  -- validate_age_bracket_vc, which validate_age_bracket_credential calls
  unfoldable pub validate_age_bracket_vc : (payload : Json) → Validation
  unfolding find_pii_fields parse_timestamp verify_signature_with_did_rust pubkey_from_did_key
  validate_age_bracket_vc (str text) =
      if is_jwt_string text
      then jwt_claims text (readers.decode_unverified text)
      else from_text text (readers.loads text)
  validate_age_bracket_vc (obj vc) = checked (obj vc) false (obj vc)
  validate_age_bracket_vc _ = invalid "Expected dict or JSON string payload"
