-- ===== src/Invite/Admission.antt =====
-- auth_bridge/invite_tokens.py: consume_use and verify_invite_token.
pub mod Sound
pub mod Keys
pub mod Schedule
pub mod Spends
pub mod Budget
use Prim.Native.String.{◌++◌}
use iyou_idp.Prelude.{
  ℕ, zero, suc, ◌-◌, max, String, Bool, Option, none, some, List, [], ◌∷◌, leb, if◌then◌else◌,
}
use iyou_idp.Prelude.Int.{ℤ, pos, pos_part}
use iyou_idp.Crypto.{Crypto}
use iyou_idp.Settings.{Settings}
use iyou_idp.Cache.{Backend, Caches, claim_unit}
use iyou_idp.Json.{Props, get}
use iyou_idp.Invite.{
  Verdict, granted, raised, ◌>>=◌, ◌>>◌, require, not_recorded, exhausted, read_only_tier,
  not_recognizable, parse_token_input, verify_token_signature,
}
use iyou_idp.Invite.Schema.{
  int_of, text_of, is_one_of, validate_schema, validate_expiry, validate_authorization,
  validate_use_ceiling,
}

abbrev pub uses_cache_key : String → String
uses_cache_key nonce = "airlock:nonce:" ++ nonce ++ ":uses"

-- What consume_use reads off a token.
abbrev pub claim_key : Props → String
claim_key token = uses_cache_key (text_of (get "nonce" token))

abbrev pub cap : Props → ℕ
cap token = pos_part (int_of (get "max_uses" token))

abbrev pub floor : Props → ℕ
floor token = pos_part (int_of (get "uses_count" token))

abbrev pub ttl : Props → (now : ℕ) → ℕ
ttl token now = max (pos_part (int_of (get "expires_at" token)) - now) 60

-- The test of the claimed count against the budget.
abbrev pub counted : Option ℕ → ℕ → Verdict ℕ
counted none most = raised not_recorded
counted (some n) most = if leb n most then granted n else raised exhausted

module _ (P F : Backend) where
  unfoldable pub consume_use : Props → (now : ℕ) → Caches P F → Caches P F × Verdict ℕ
  consume_use token now s =
      let (s', count) = claim_unit P F now (claim_key token) (floor token) (ttl token now) s in
      (s', counted count (cap token))

module _ (c : Crypto) (settings : Settings) where
  -- verify_invite_token up to consume_use; the source makes the ceiling check twice
  unfoldable pub check_token : Props → (now : ℕ) → Verdict (Unit {0})
  check_token token now = do
    validate_schema c token
    validate_expiry token now
    verify_token_signature c token
    validate_authorization settings token
    validate_use_ceiling settings token
    validate_use_ceiling settings token
    require (is_one_of ("admin" ∷ "member" ∷ []) (get "tier" token)) read_only_tier

  module _ (P F : Backend) where
    abbrev admit : Props → (now : ℕ) → Caches P F → Verdict (Unit {0}) → Caches P F × Verdict Props
    admit token now s (raised e) = (s, raised e)
    admit token now s (granted _) =
        let (s', n) = consume_use P F token now s in (s', n >>= λ _. granted token)

    abbrev verify_parsed : (now : ℕ) → Caches P F → Option Props → Caches P F × Verdict Props
    verify_parsed now s none = (s, raised not_recognizable)
    verify_parsed now s (some token) = admit token now s (check_token token now)

    unfoldable pub verify_invite_token :
        String → (now : ℕ) → Caches P F → Caches P F × Verdict Props
    verify_invite_token raw now s = verify_parsed now s (parse_token_input c raw)
