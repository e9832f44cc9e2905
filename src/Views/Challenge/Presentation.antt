-- ===== src/Views/Challenge/Presentation.antt =====
-- auth_bridge/views.py: the checks of a Verifiable Presentation that verify_signature and
-- mobile_verify_signature both make.
use text.Mathlib.Text.{starts_with}
use iyou_idp.Prelude.{
  ℕ, String, Bool, true, false, not, ◌&&◌, ◌||◌, Option, none, some, List, [], ◌∷◌, length, eqb,
  any, is_some, if◌then◌else◌, ◌==◌,
}
use iyou_idp.Text.{strip, drop, contains}
use iyou_idp.Crypto.{Crypto, Bytes, ed25519_multicodec}
use iyou_idp.Json.{
  Json, arr, nil, str, obj, Props, prop, end, get?, get_or, get, put, without, or, truthy, is_text,
  is_null, items,
}
use iyou_idp.Json.Dumps.{dumps, canonical_ascii, in_order_ascii}

-- How the checks end. `crashed` is the `except Exception` that answers 500.
pub data Check : Type 0 where
  refused : (status : ℕ) → (error : Json) → Check
  crashed : Check
  proven : (did : String) → Check
  unproven : (did : String) → Check
  bridged : (did : String) → Check

-- `name in value`, for a list, a text or a dict
abbrev pub name_in : String → Json → Option Bool
name_in name (arr vs) = some (any (is_text name) (items vs))
name_in name (str s) = some (contains name s)
name_in name (obj ps) = some (is_some (get? name ps))
name_in name _ = none

-- value.strip() of a text; `none` where the value has no `strip`
abbrev pub stripped : Json → Option String
stripped (str s) = some (strip s)
stripped _ = none

-- The payload without its proof, with the holder for its issuer where it names none.
abbrev pub payload_dict : String → Props → Props
payload_dict holder vp =
    let payload = without "proof" vp in
    if is_some (get? "issuer" payload) then payload else put "issuer" (str holder) payload

abbrev pub legacy_payload : String → Props → Props
legacy_payload holder vp = prop "@context" (get_or (arr nil) "@context" vp) (
    prop "type" (get_or (arr nil) "type" vp) (
      prop "holder" (get_or (str "") "holder" vp) (
        prop "challenge" (get_or (str "") "challenge" vp) (
          prop "verifiableCredential" (get_or (arr nil) "verifiableCredential" vp)
            (prop "issuer" (get_or (str holder) "issuer" vp) end)))))

unfoldable pub candidate_payloads : String → Props → List String
candidate_payloads holder vp =
    dumps canonical_ascii (obj (payload_dict holder vp))
    ∷ dumps canonical_ascii (obj (legacy_payload holder vp))
    ∷ dumps in_order_ascii (obj (legacy_payload holder vp))
    ∷ dumps in_order_ascii (obj (payload_dict holder vp))
    ∷ []

abbrev issuer_and_proof : Json → Option Json → Props
issuer_and_proof proof none = prop "proof" proof end
issuer_and_proof proof (some i) = prop "issuer" i (prop "proof" proof end)

-- The rebuilt presentation for the Rust bridge; only verify_signature asks it here.
abbrev exact_vp : Props → Props
exact_vp vp = prop "@context" (get "@context" vp) (
    prop "type" (get "type" vp) (
      prop "holder" (get "holder" vp) (
        prop "challenge" (get "challenge" vp) (
          prop "verifiableCredential" (get_or (arr nil) "verifiableCredential" vp)
            (issuer_and_proof (get "proof" vp) (get? "issuer" vp))))))

module _ (c : Crypto) where
  -- _pubkey_from_did
  unfoldable pub pubkey_from_did : String → Option Bytes
  pubkey_from_did did =
      let trimmed = strip did in
      if starts_with trimmed "did:key:" && starts_with (drop 8 trimmed) "z"
      then ed25519_multicodec (c.b58decode (drop 9 trimmed))
      else none

  abbrev long_enough : Option Bytes → Option Bytes → Option Bytes
  long_enough none next = next
  long_enough (some sig) next = if eqb (length sig) 64 then some sig else next

  -- hex, then base58 behind a multibase z, then plain base58
  abbrev decode_text : String → Option Bytes
  decode_text s =
      let plain = long_enough (c.b58decode s) none in
      let multibase =
        if starts_with s "z" then long_enough (c.b58decode (drop 1 s)) plain else plain in
      long_enough (c.fromhex s) multibase

  unfoldable pub decode_signature_bytes : Json → Option Bytes
  decode_signature_bytes (str s) = if s == "" then none else decode_text (strip s)
  decode_signature_bytes _ = none

  -- The diagnostic serialisations, which are accepted too; a challenge that is no text has none.
  abbrev diagnostics : Json → List Bytes
  diagnostics (str challenge) =
      c.encode_utf8 challenge
      ∷ c.sha256 (c.encode_utf8 challenge)
      ∷ c.sha512 (c.encode_utf8 challenge)
      ∷ []
  diagnostics _ = []

  abbrev pub verifies : Bytes → Bytes → String → Props → Bool
  verifies key sig holder vp =
      any (λ text. c.ed25519_verify key sig (c.encode_utf8 text)) (candidate_payloads holder vp)
      || any (λ message. c.ed25519_verify key sig message)
          (diagnostics (get_or (str "") "challenge" vp))

  abbrev pub with_signature : Option Bytes → Option Bytes → String → Props → Bool
  with_signature none sig holder vp = false
  with_signature (some key) none holder vp = false
  with_signature (some key) (some sig) holder vp =
      c.ed25519_public_key key && verifies key sig holder vp

  -- `direct_valid` after the primary verification
  unfoldable pub direct_valid : String → (proof vp : Props) → Bool
  direct_valid holder proof vp =
      with_signature (pubkey_from_did holder)
        (decode_signature_bytes
          (or (get "proofValue" proof) (get_or (str "") "signatureValue" proof)))
        holder vp

  abbrev bridge_reply : Option Json → Option Bool
  bridge_reply (some (obj ps)) = some (truthy (get "valid" ps))
  bridge_reply _ = none

  -- result.get('error', 'Verification failed')
  abbrev reply_error : Option Json → Json
  reply_error (some (obj ps)) = get_or (str "Verification failed") "error" ps
  reply_error _ = str "Verification failed"

  abbrev second_opinion : Bool → String → Option Bool → Check
  second_opinion direct did none = crashed
  second_opinion direct did (some true) = proven did
  second_opinion direct did (some false) = unproven did

  -- The root flow: the presentation holds no credential.
  unfoldable pub check_root : (ask_bridge : Bool) → (proof vp : Props) → Check
  unfolding direct_valid
  check_root ask_bridge proof vp = elim (stripped (get_or (str "") "holder" vp)) [
    | none ↦ crashed
    | some did ↦
        if did == ""
        then refused 400 (str "No DID found in verifiable presentation")
        else if direct_valid did proof vp
        then proven did
        else if ask_bridge && not (is_null (get "verifiableCredential" vp))
        then second_opinion false did (bridge_reply (c.verify_vp (obj (exact_vp vp))))
        else unproven did
  ]

  abbrev bridged_holder : Option String → Check
  bridged_holder none = crashed
  bridged_holder (some did) =
      if did == "" then refused 400 (str "No DID found in verifiable presentation") else bridged did

  unfoldable pub check_bridge : Props → Check
  check_bridge vp = elim (bridge_reply (c.verify_vp (obj vp))) [
    | none ↦ crashed
    | some false ↦ refused 401 (reply_error (c.verify_vp (obj vp)))
    | some true ↦ bridged_holder (stripped (get_or (str "") "holder" vp))
  ]

  abbrev mismatch : Json → String → Bool
  mismatch v challenge = truthy v && not (is_text challenge v)

  -- The proof envelope, and the nonce under either place.
  unfoldable pub check_envelope :
      (ask_bridge : Bool) → (challenge : String) → (proof vp : Props) → Check
  unfolding check_root check_bridge
  check_envelope ask_bridge challenge proof vp =
      let proof_challenge = get "challenge" proof in
      let vp_challenge = get "challenge" vp in
      if not (truthy (or (get "signatureValue" proof) (get "proofValue" proof)))
      then refused 401 (str "VP proof missing signatureValue")
      else if mismatch proof_challenge challenge
      then refused 401 (str "Challenge nonce mismatch")
      else if mismatch vp_challenge challenge
      then refused 401 (str "Challenge nonce mismatch")
      else if not (truthy proof_challenge) && not (truthy vp_challenge)
      then refused 401 (str "Challenge nonce missing in VP")
      else if truthy (get "verifiableCredential" vp)
      then check_bridge vp
      else check_root ask_bridge proof vp

  abbrev with_proof : Bool → String → Props → Json → Check
  with_proof ask_bridge challenge vp (obj proof) = check_envelope ask_bridge challenge proof vp
  with_proof ask_bridge challenge vp _ = crashed

  unfoldable pub check_presentation : (ask_bridge : Bool) → (challenge : String) → Json → Check
  unfolding check_envelope
  check_presentation ask_bridge challenge (obj vp) =
      elim (name_in "VerifiablePresentation" (get_or (arr nil) "type" vp)) [
        | none ↦ crashed
        | some true ↦ with_proof ask_bridge challenge vp (get_or (obj end) "proof" vp)
        | some false ↦ check_bridge vp
      ]
  check_presentation ask_bridge challenge _ = crashed
