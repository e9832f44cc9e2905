-- ===== src/Invite/Schema.antt =====
-- auth_bridge/invite_tokens.py: validate_schema and the checks after it.
use iyou_idp.Prelude.{
  ℕ, ◌+◌, ◌*◌, String, Bool, true, false, not, ◌&&◌, List, [], ◌∷◌, ltb, leb, eqb, all, member,
  is_some, if◌then◌else◌, ◌==◌,
}
use iyou_idp.Prelude.Int.{ℤ, pos, pos_part, neg_part, leb_ℤ}
use iyou_idp.Text.{len, all_chars, hex_digit}
use iyou_idp.Crypto.{Crypto}
use iyou_idp.Settings.{Settings}
use iyou_idp.Json.{Json, bool, int, float, str, arr, Props, get, truthy, is_str, items}
use iyou_idp.Invite.{
  Verdict, granted, raised, ◌>>◌, require, unsupported_version, missing_issuer, bad_nonce,
  bad_max_uses, unknown_tier, bad_scope, bad_numeric, missing_signature, lifetime_too_long, expired,
  unauthorized, exceeds_ceiling, ed25519_pubkey_from_did,
}

abbrev pub rfc002_max_uses_per_token : ℕ
rfc002_max_uses_per_token = 4

abbrev pub rfc002_community_max_uses : ℕ
rfc002_community_max_uses = 100

abbrev pub rfc002_max_validity_seconds : ℕ
rfc002_max_validity_seconds = 90 * 86400

-- `v != RFC002_TOKEN_VERSION`, negated: Python's True and 1.0 are equal to 1
abbrev pub is_one : Json → Bool
is_one (int (pos n)) = eqb n 1
is_one (bool b) = b
is_one (float repr whole) = repr == "1.0"
is_one _ = false

abbrev pub is_nonce : Json → Bool
is_nonce (str s) = not (s == "") && (leb 32 (len s) && all_chars hex_digit s)
is_nonce _ = false

-- an int in [1, 100] that is not a bool
abbrev pub is_use_budget : Json → Bool
is_use_budget (int (pos n)) = leb 1 n && leb n rfc002_community_max_uses
is_use_budget _ = false

abbrev pub is_one_of : List String → Json → Bool
is_one_of names (str s) = member s names
is_one_of names _ = false

abbrev pub is_text_list : Json → Bool
is_text_list (arr xs) = all is_str (items xs)
is_text_list _ = false

-- a non-negative int that is not a bool
abbrev pub is_count : Json → Bool
is_count (int (pos n)) = true
is_count _ = false

-- The value of a field that the schema has shown to be an int; 0 for another value.
abbrev pub int_of : Json → ℤ
int_of (int n) = n
int_of _ = pos 0

-- The same for a text.
abbrev pub text_of : Json → String
text_of (str s) = s
text_of _ = ""

-- expires_at - created_at > RFC002_MAX_VALIDITY_SECONDS
abbrev pub lives_too_long : ℤ → ℤ → Bool
lives_too_long created expires =
    ltb (pos_part created + neg_part expires + rfc002_max_validity_seconds)
      (pos_part expires + neg_part created)

module _ (c : Crypto) where
  abbrev pub is_issuer : Json → Bool
  is_issuer (str did) = not (did == "") && is_some (ed25519_pubkey_from_did c did)
  is_issuer _ = false

  unfoldable pub validate_schema : Props → Verdict (Unit {0})
  validate_schema token = do
    require (is_one (get "v" token)) unsupported_version
    require (is_issuer (get "issuer_did" token)) missing_issuer
    require (is_nonce (get "nonce" token)) bad_nonce
    require (is_use_budget (get "max_uses" token)) bad_max_uses
    require (is_one_of ("admin" ∷ "member" ∷ "guest" ∷ []) (get "tier" token)) unknown_tier
    require (is_text_list (get "scope" token)) bad_scope
    require (is_count (get "created_at" token)) bad_numeric
    require (is_count (get "expires_at" token)) bad_numeric
    require (is_count (get "uses_count" token)) bad_numeric
    require (truthy (get "signature" token)) missing_signature
    require
        (not (lives_too_long (int_of (get "created_at" token)) (int_of (get "expires_at" token))))
        lifetime_too_long

unfoldable pub validate_expiry : Props → (now : ℕ) → Verdict (Unit {0})
validate_expiry token now =
    require (not (leb_ℤ (int_of (get "expires_at" token)) (pos now))) expired

module _ (settings : Settings) where
  unfoldable pub issuer_may_mint_community_invites : String → Bool
  issuer_may_mint_community_invites issuer_did =
      if issuer_did == settings.admin_did
      then true
      else member issuer_did settings.beta_access_allowlist

  unfoldable pub validate_authorization : Props → Verdict (Unit {0})
  validate_authorization token =
      let issuer_did = text_of (get "issuer_did" token) in
      if issuer_did == settings.admin_did
      then granted tt
      else if member issuer_did settings.beta_access_allowlist
      then granted tt
      else raised unauthorized

  abbrev ceiling : Props → ℕ
  ceiling token =
      if issuer_may_mint_community_invites (text_of (get "issuer_did" token))
      then rfc002_community_max_uses
      else rfc002_max_uses_per_token

  unfoldable pub validate_use_ceiling : Props → Verdict (Unit {0})
  unfolding issuer_may_mint_community_invites
  validate_use_ceiling token =
      require (leb_ℤ (int_of (get "max_uses" token)) (pos (ceiling token))) exceeds_ceiling
