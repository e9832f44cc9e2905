-- ===== src/Invite.antt =====
-- auth_bridge/invite_tokens.py: RFC-002 invite capability tokens.
pub mod Schema
pub mod Inversion
pub mod Examples
pub mod Admission
use Prim.Native.String.{◌++◌}
use text.Mathlib.Text.{starts_with}
use iyou_idp.Prelude.{
  ℕ, zero, suc, ◌+◌, ◌-◌, ◌%◌, String, Bool, true, false, not, ◌&&◌, Option, none, some, List, [],
  ◌∷◌, length, eqb, is_some, if◌then◌else◌, ◌==◌,
}
use iyou_idp.Text.{strip, drop, len}
use iyou_idp.Crypto.{Crypto, Bytes, ed25519_multicodec}
use iyou_idp.Json.{Json, null, str, obj, Props, end, prop, get?, get_or, get}
use iyou_idp.Json.Dumps.{dumps, canonical}

-- One constructor for each `raise InviteTokenError`.
pub data Reason : Type 0 where
  unsupported_version missing_issuer bad_nonce bad_max_uses unknown_tier bad_scope : Reason
  bad_numeric missing_signature lifetime_too_long : Reason
  expired : Reason
  signature_not_base58 signature_length issuer_not_did_key verification_failed bad_public_key :
      Reason
  unauthorized : Reason
  exceeds_ceiling : Reason
  read_only_tier : Reason
  not_recorded exhausted : Reason
  not_recognizable : Reason

-- The wire denial codes.
pub data Denial : Type 0 where
  invite_invalid invite_expired invite_unauthorized invite_scope invite_used : Denial

unfoldable pub denial : Reason → Denial
denial expired = invite_expired
denial unauthorized = invite_unauthorized
denial read_only_tier = invite_scope
denial not_recorded = invite_used
denial exhausted = invite_used
denial _ = invite_invalid

-- How a step ends: with a value, or with the InviteTokenError it raised.
pub data Verdict {ℓ} (V : Type ℓ) : Type ℓ where
  raised : (why : Reason) → Verdict V
  granted : (value : V) → Verdict V

-- The next statement runs where nothing was raised.
infixl 5 ◌>>◌ ◌>>=◌
abbrev pub ◌>>◌ {κ} : {W : Type κ} → Verdict (Unit {0}) → Verdict W → Verdict W
raised why >> next = raised why
granted done >> next = next

abbrev pub ◌>>=◌ {ℓ κ} : {V : Type ℓ} {W : Type κ} → Verdict V → (V → Verdict W) → Verdict W
raised why >>= next = raised why
granted value >>= next = next value

-- `if not test: raise InviteTokenError(reason)`
abbrev pub require : Bool → Reason → Verdict (Unit {0})
require true e = granted tt
require false e = raised e

-- `if not value or not isinstance(value, str): raise InviteTokenError(reason)`
abbrev pub nonempty_text : Json → Reason → Verdict String
nonempty_text (str s) e = if s == "" then raised e else granted s
nonempty_text _ e = raised e

abbrev pub some_or : {A : Type 0} → Option A → Reason → Verdict A
some_or none e = raised e
some_or (some a) e = granted a

abbrev pub rfc002_signed_fields : List String
rfc002_signed_fields =
    "v" ∷ "issuer_did" ∷ "satellite_id" ∷ "nonce" ∷ "max_uses" ∷ "uses_count" ∷ "tier"
    ∷ "created_at" ∷ "expires_at" ∷ "scope" ∷ []

abbrev pub signed_default : String → Json
signed_default field = if field == "satellite_id" then str "" else null

abbrev pub signed_part : Props → List String → Props
signed_part token [] = end
signed_part token (field ∷ fields) =
    prop field (get_or (signed_default field) field token) (signed_part token fields)

-- The text that `canonical_payload` encodes.
unfoldable pub canonical_payload : Props → String
canonical_payload token = dumps canonical (obj (signed_part token rfc002_signed_fields))

abbrev pub padding : ℕ → String
padding n =
    if eqb (n % 4) 0
    then ""
    else if eqb (n % 4) 1
    then "==="
    else if eqb (n % 4) 2
    then "=="
    else "="

module _ (c : Crypto) where
  unfoldable pub b64url_decode : String → Option Bytes
  b64url_decode raw = c.urlsafe_b64decode (raw ++ padding (len raw))

  abbrev token_object : Option Json → Option Props
  token_object (some (obj ps)) = if is_some (get? "signature" ps) then some ps else none
  token_object _ = none

  unfoldable pub decode_token_object : Bytes → Option Props
  decode_token_object blob = token_object (c.json_loads blob)

  -- the first blob that decodes wins
  abbrev first_token : List Bytes → Option Props
  first_token [] = none
  first_token (blob ∷ blobs) = elim (decode_token_object blob) [
    | some ps ↦ some ps
    | none ↦ first_token blobs
  ]

  abbrev with_blob : Option Bytes → List Bytes → List Bytes
  with_blob none blobs = blobs
  with_blob (some b) blobs = b ∷ blobs

  unfoldable pub parse_token_input : String → Option Props
  unfolding decode_token_object b64url_decode
  parse_token_input raw =
      let candidate = strip raw in
      if candidate == ""
      then none
      else if starts_with candidate "{"
      then first_token (c.encode_utf8 candidate ∷ [])
      else first_token (with_blob (b64url_decode candidate) (with_blob (c.b58decode candidate) []))

  unfoldable pub token_digest : Props → Bytes
  unfolding canonical_payload
  token_digest token = c.sha256 (c.encode_utf8 (canonical_payload token))

  -- on a text; the empty one fails at the prefix test
  unfoldable pub ed25519_pubkey_from_did : String → Option Bytes
  ed25519_pubkey_from_did did =
      if starts_with did "did:key:" && starts_with (drop 8 did) "z"
      then ed25519_multicodec (c.b58decode (drop 9 did))
      else none

  -- The loop over the candidates, with `last_raw` set or not.
  abbrev signature_from : List String → Bool → Verdict Bytes
  signature_from [] true = raised signature_length
  signature_from [] false = raised signature_not_base58
  signature_from (b58 ∷ rest) seen = elim (c.b58decode b58) [
    | some raw ↦ if eqb (length raw) 64 then granted raw else signature_from rest true
    | none ↦ signature_from rest seen
  ]

  unfoldable pub decode_signature : String → Verdict Bytes
  decode_signature signature =
      let trimmed = strip signature in
      if starts_with trimmed "z"
      then signature_from (drop 1 trimmed ∷ trimmed ∷ []) false
      else signature_from (trimmed ∷ []) false

  abbrev pubkey_of : Json → Option Bytes
  pubkey_of (str did) = ed25519_pubkey_from_did did
  pubkey_of _ = none

  unfoldable pub verify_token_signature : Props → Verdict (Unit {0})
  unfolding token_digest
  verify_token_signature token = do
    signature ← nonempty_text (get "signature" token) missing_signature
    key ← some_or (pubkey_of (get "issuer_did" token)) issuer_not_did_key
    require (c.ed25519_public_key key) bad_public_key
    raw ← decode_signature signature
    require (c.ed25519_verify key raw (token_digest token)) verification_failed
