-- ===== src/Credentials.antt =====
-- auth_bridge/credentials.py: the search for personal data, the tiers, the signature and the times.
-- Credentials/Validate has validate_age_bracket_vc.
pub mod Personal
pub mod Validate
pub mod Proofs
pub mod Sound
pub mod Laws
pub mod Examples
use Prim.Native.String.{◌++◌}
use text.Mathlib.Text.{starts_with}
use iyou_idp.Prelude.{
  ℕ, suc, ◌+◌, ◌-◌, String, Bool, true, false, not, ◌&&◌, ◌||◌, Char, code, Option, none, some,
  List, [], ◌∷◌, ◌++◌ as ◌++ₗ◌, if◌then◌else◌, ◌==◌, any, member, leb, ltb, eqb, length,
}
use iyou_idp.Prelude.Int.{ℤ, pos, negsuc}
use iyou_idp.Text.{strip, lower, translate, drop}
use iyou_idp.Json.{
  Json, null, bool, int, float, str, arr, obj, Items, nil, cons, Props, end, prop, get, get_or,
  truthy, or, without,
}
use iyou_idp.Json.Dumps.{dumps, canonical_ascii, in_order_ascii}
use iyou_idp.Crypto.{Crypto, Bytes, ed25519_multicodec}

-- What the module calls of PyJWT, json, datetime and the Rust bridge; `none` where the call raises.
-- `timestamp_of` is the reading of a text that is no blank as an int, a float or an ISO 8601 time.
pub record Readers : Type 0 where
  pub decode_unverified : String → Option Props
  pub decode_verified : (key : Bytes) → String → Bool
  pub loads : String → Option Json
  pub rust_verify_vc : Option (String → Option Json)
  pub timestamp_of : String → Option ℤ

abbrev pub disallowed_pii_fields : List String
disallowed_pii_fields =
    "birth_date" ∷ "dob" ∷ "full_name" ∷ "date_of_birth" ∷ "birthdate" ∷ "first_name" ∷ "last_name"
    ∷ "ssn" ∷ []

-- s.replace("-", "_")
abbrev underscored : String → String
underscored String.[] = ""
underscored (String.◌∷◌ c s) = String.◌∷◌ (translate "-" "_" c) (underscored s)

unfoldable pub is_pii : (key : String) → Bool
is_pii key = member (underscored (lower (strip key))) disallowed_pii_fields

unfoldable mutual
  -- _find_pii_fields
  pub find_pii_fields : Json → List String
  find_pii_fields (obj ps) = pii_of_props ps
  find_pii_fields (arr vs) = pii_of_items vs
  find_pii_fields _ = []

  pub pii_of_items : Items → List String
  pii_of_items nil = []
  pii_of_items (cons v vs) = find_pii_fields v ++ₗ pii_of_items vs

  pub pii_of_props : Props → List String
  pii_of_props end = []
  pii_of_props (prop k v ps) =
      (if is_pii k then k ∷ [] else []) ++ₗ (find_pii_fields v ++ₗ pii_of_props ps)

abbrev tier :
    (bracket : String) (stage : ℕ) (name : String) (restricted persona : Bool)
    (description : String)
    → Props
tier bracket stage name restricted persona description = prop "bracket" (str bracket) (
    prop "stage" (int (pos stage)) (
      prop "stage_name" (str name) (
        prop "restricted_kinds" (bool restricted) (
          prop "relay_allowlist" (bool restricted) (
            prop "l2_contextual_derivation_permitted" (bool persona) (
              prop "l2_derivation_permitted" (bool persona) (
                prop "autonomous_persona" (bool persona)
                  (prop "description" (str description) end))))))))

-- PERMISSION_TIERS
unfoldable pub permission_tiers : (age_bracket : String) → Option Props
permission_tiers age_bracket =
    if age_bracket == "U14"
    then some (
        tier "U14" 1 "Stage 1 Guided Delegation" true false
          "Stage 1 Guided Delegation (restricted kinds, relay allowlist)")
    else if age_bracket == "U14-U18"
    then some (
        tier "U14-U18" 2 "Stage 2 Autonomous Persona" false true
          "Stage 2 Autonomous Persona (L2 contextual derivation permitted)")
    else if age_bracket == "U18"
    then some (
        tier "U18" 3 "Stage 3 Sovereign Pending" false true
          "Stage 3 Sovereign Pending (graduation ceremony eligible)")
    else none

-- get_session_permission_tier; none where it raises
abbrev pub get_session_permission_tier : (age_bracket : String) → Option Props
get_session_permission_tier age_bracket = permission_tiers age_bracket

-- _parse_timestamp; a bool is an int
unfoldable pub parse_timestamp : Readers → Json → Option ℤ
parse_timestamp readers (bool true) = some (pos 1)
parse_timestamp readers (bool false) = some (pos 0)
parse_timestamp readers (int n) = some n
parse_timestamp readers (float repr n) = some n
parse_timestamp readers (str s) = if strip s == "" then none else readers.timestamp_of (strip s)
parse_timestamp readers _ = none

abbrev dot_counts : (empty seen : Bool) → (dots : ℕ) → String → Bool
dot_counts empty seen dots String.[] = eqb dots 2 && not empty && not seen
dot_counts empty seen dots (String.◌∷◌ c s) =
    if eqb (code c) 46
    then dot_counts true (seen || empty) (suc dots) s
    else dot_counts false seen dots s

-- _is_jwt_string of a text: three parts between dots, none of them empty
unfoldable pub is_jwt_string : String → Bool
is_jwt_string s = dot_counts true false 0 (strip s)

module _ (c : Crypto) (readers : Readers) where
  -- _pubkey_from_did_key
  unfoldable pub pubkey_from_did_key : String → Option Bytes
  pubkey_from_did_key did =
      if starts_with did "did:key:" && starts_with (drop 8 did) "z"
      then ed25519_multicodec (c.b58decode (drop 9 did))
      else none

  abbrev pub verifies : (key signature : Bytes) → Props → Bool
  verifies key signature vc =
      let payload = obj (without "proof" vc) in
      c.ed25519_public_key key
      && (c.ed25519_verify key signature (c.encode_utf8 (dumps canonical_ascii payload))
          || c.ed25519_verify key signature (c.encode_utf8 (dumps in_order_ascii payload)))

  abbrev pub with_signature : Props → Option Bytes → (signature : Option Bytes) → Bool
  with_signature vc none signature = false
  with_signature vc (some key) none = false
  with_signature vc (some key) (some signature) =
      if eqb (length signature) 64 then verifies key signature vc else false

  abbrev pub with_hex : Props → (issuer : String) → Json → Bool
  with_hex vc issuer (str hex) =
      if hex == "" then false else with_signature vc (pubkey_from_did_key issuer) (c.fromhex hex)
  with_hex vc issuer _ = false

  -- _verify_vc_signature_python
  unfoldable pub verify_vc_signature_python : Props → (issuer_did : String) → Bool
  unfolding pubkey_from_did_key
  verify_vc_signature_python vc issuer = elim (get "proof" vc) [
    | obj proof ↦ with_hex vc issuer (or (get "proofValue" proof) (get "signatureValue" proof))
    | _ ↦ false
  ]

  -- What the bridge says of a document; none where the fallback is tried.
  abbrev pub bridge_says : Option Json → Option Bool
  bridge_says (some (obj reply)) = some (truthy (get_or (bool false) "valid" reply))
  bridge_says _ = none

  abbrev pub by_bridge : Props → (issuer : String) → Option Bool → Bool
  by_bridge vc issuer (some valid) = valid
  by_bridge vc issuer none = verify_vc_signature_python vc issuer

  abbrev pub by_issuer : Props → (issuer : String) → Option (String → Option Json) → Bool
  by_issuer vc issuer none = verify_vc_signature_python vc issuer
  by_issuer vc issuer (some verify_vc) =
      by_bridge vc issuer (bridge_says (verify_vc (dumps in_order_ascii (obj vc))))

  abbrev pub issued_by : Props → (issuer : Json) → Bool
  issued_by vc (str issuer) =
      if issuer == "" then false else by_issuer vc issuer readers.rust_verify_vc
  issued_by vc _ = false

  -- verify_signature_with_did_rust; false where it raises
  unfoldable pub verify_signature_with_did_rust : Props → Bool
  unfolding verify_vc_signature_python
  verify_signature_with_did_rust vc = issued_by vc (get "issuer" vc)
