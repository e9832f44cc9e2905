-- ===== src/Credentials/Laws.antt =====
-- A credential that validate_age_bracket_vc of auth_bridge/credentials.py accepts has passed its checks.
use iyou_idp.Prelude.{
  ℕ, String, ◌≡◌, refl, ◌⊎◌, inl, inr, Bool, true, false, ◌&&◌, Option, none, some, List, [], ◌∷◌,
  if_both, if_split, subst,
}
use iyou_idp.Json.{Json, null, bool, int, float, str, arr, obj, Props, get, get_or, truthy}
use iyou_idp.Crypto.{Crypto, Bytes}
use iyou_idp.Credentials.{Readers, find_pii_fields, is_jwt_string, pubkey_from_did_key}
use iyou_idp.Credentials.Validate.{
  Validated, valid, structure_error, with_subject, structured, without_pii, jwt_with, jwt_key,
  issuer_of, jwt_claims, from_text, validate_age_bracket_vc,
}
use iyou_idp.Credentials.Sound.{SignedToken, Sound, Says, identified-Says, structure_error-none}

module _ (c : Crypto) (readers : Readers) (now : ℕ) (payload : Json) where
  module _ (raw : Json) (jwt : Bool) where
    module _ (vc : Props) (token : jwt ≡ true → SignedToken c readers now payload (obj vc))
        (clean : find_pii_fields (obj vc) ≡ []) where
      with_subject-Says :
          (v : Json)
          → structure_error vc ≡ none
          → get "credentialSubject" vc ≡ v
          → Says c readers now payload (with_subject c readers now raw jwt vc v)
      with_subject-Says (obj subject) shaped e =
          identified-Says c readers now payload raw jwt vc token clean
            (structure_error-none vc shaped) subject e _ refl
      with_subject-Says null shaped e = tt
      with_subject-Says (bool b) shaped e = tt
      with_subject-Says (int n) shaped e = tt
      with_subject-Says (float r n) shaped e = tt
      with_subject-Says (str s) shaped e = tt
      with_subject-Says (arr vs) shaped e = tt

      structured-Says :
          (o : Option String)
          → structure_error vc ≡ o
          → Says c readers now payload (structured c readers now raw jwt vc o)
      structured-Says none e = with_subject-Says _ e refl
      structured-Says (some error) e = tt

    without_pii-Says :
        (vc : Json) (found : List String)
        → (jwt ≡ true → SignedToken c readers now payload vc)
        → find_pii_fields vc ≡ found
        → Says c readers now payload (without_pii c readers now raw jwt vc found)
    without_pii-Says vc (k ∷ found) token e = tt
    without_pii-Says (obj vc) [] token e = structured-Says vc token e _ refl
    without_pii-Says null [] token e = tt
    without_pii-Says (bool b) [] token e = tt
    without_pii-Says (int n) [] token e = tt
    without_pii-Says (float r n) [] token e = tt
    without_pii-Says (str s) [] token e = tt
    without_pii-Says (arr vs) [] token e = tt

  module _ (token : String) (text : payload ≡ str token) (claims : Props)
      (decoded : readers.decode_unverified token ≡ some claims) (vc : Json)
      (holds : get_or (obj claims) "vc" claims ≡ vc) where
    abbrev Issued : String → Type 0
    Issued did =
        (get "iss" claims ≡ str did) ⊎ ((ps : Props) × (vc ≡ obj ps) × (get "issuer" ps ≡ str did))

    jwt_with-Says :
        (did : String) (o : Option Bytes)
        → Issued did
        → pubkey_from_did_key c readers did ≡ o
        → Says c readers now payload (jwt_with c readers now token vc o)
    jwt_with-Says did none issued e = tt
    jwt_with-Says did (some key) issued e =
        if_split (Says c readers now payload)
          (c.ed25519_public_key key && readers.decode_verified key token) _ _
          (λ passed.
            without_pii-Says (str token) true vc _
              (λ h. record {
                token = token;
                text = text;
                claims = claims;
                decoded = decoded;
                holds = holds;
                did = did;
                issued = issued;
                key = key;
                key_of = e;
                verified = second _ _ passed;
              })
              refl)
          (λ refused. tt)
      where
        second : (a b : Bool) → (a && b) ≡ true → b ≡ true
        second true b h = h
        second false b h = absurd (cc)

    jwt_key-Says :
        (issuer : Json)
        → ((did : String) → issuer ≡ str did → Issued did)
        → Says c readers now payload (jwt_key c readers now token vc issuer)
    jwt_key-Says (str did) issued = jwt_with-Says did _ (issued did refl) refl
    jwt_key-Says null issued = tt
    jwt_key-Says (bool b) issued = tt
    jwt_key-Says (int n) issued = tt
    jwt_key-Says (float r n) issued = tt
    jwt_key-Says (arr vs) issued = tt
    jwt_key-Says (obj ps) issued = tt

  issuer_of-Says :
      (token : String)
      → payload ≡ str token
      → (claims : Props) → readers.decode_unverified token ≡ some claims
      → (vc : Json) → get_or (obj claims) "vc" claims ≡ vc
      → Says c readers now payload (issuer_of c readers now token vc)
  issuer_of-Says token text claims decoded (obj ps) holds =
      if_both (Says c readers now payload) (truthy (get "issuer" ps)) _ _
        (jwt_key-Says token text claims decoded (obj ps) holds (get "issuer" ps)
          (λ did e. inr (ps, refl, e)))
        tt
  issuer_of-Says token text claims decoded null holds = tt
  issuer_of-Says token text claims decoded (bool b) holds = tt
  issuer_of-Says token text claims decoded (int n) holds = tt
  issuer_of-Says token text claims decoded (float r n) holds = tt
  issuer_of-Says token text claims decoded (str s) holds = tt
  issuer_of-Says token text claims decoded (arr vs) holds = tt

  jwt_claims-Says :
      (token : String) (o : Option Props)
      → payload ≡ str token
      → readers.decode_unverified token ≡ o
      → Says c readers now payload (jwt_claims c readers now token o)
  jwt_claims-Says token none text e = tt
  jwt_claims-Says token (some claims) text e =
      if_both (Says c readers now payload) (truthy (get "iss" claims)) _ _
        (jwt_key-Says token text claims e _ refl (get "iss" claims) (λ did h. inl h))
        (issuer_of-Says token text claims e _ refl)

  from_text-Says :
      (text : String) (o : Option Json)
      → Says c readers now payload (from_text c readers now text o)
  from_text-Says text none = tt
  from_text-Says text (some vc) = without_pii-Says (str text) false vc _ (λ h. absurd (cc (h))) refl

module _ (c : Crypto) (readers : Readers) (now : ℕ) where
  validate-Says :
      (payload : Json) → Says c readers now payload (validate_age_bracket_vc c readers now payload)
  unfolding validate_age_bracket_vc
  validate-Says (str text) =
      if_both (Says c readers now (str text)) (is_jwt_string text) _ _
        (jwt_claims-Says c readers now (str text) text _ refl refl)
        (from_text-Says c readers now (str text) text (readers.loads text))
  validate-Says (obj vc) =
      without_pii-Says c readers now (obj vc) (obj vc) false (obj vc) _ (λ h. absurd (cc (h))) refl
  validate-Says null = tt
  validate-Says (bool b) = tt
  validate-Says (int n) = tt
  validate-Says (float r n) = tt
  validate-Says (arr vs) = tt

  pub validate_age_bracket_vc-Sound :
      (payload : Json) (v : Validated)
      → validate_age_bracket_vc c readers now payload ≡ valid v
      → Sound c readers now payload v
  validate_age_bracket_vc-Sound payload v h =
      subst (Says c readers now payload) h (validate-Says payload)
