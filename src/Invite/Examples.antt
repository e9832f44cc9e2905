-- ===== src/Invite/Examples.antt =====
-- A token, a key and a cache at which the theorems on invite tokens apply.
use iyou_idp.Prelude.{
  ℕ, zero, suc, ◌≤◌, String, ◌≡◌, ◌≢◌, refl, Bool, true, false, none, some, List, [], ◌∷◌, inl,
  arith, ◌==◌, if◌then◌else◌, All,
}
use iyou_idp.Prelude.Int.{pos}
use iyou_idp.Crypto.{Crypto, Bytes}
use iyou_idp.Settings.{Settings}
use iyou_idp.Cache.{Caches, claim_unit}
use iyou_idp.Cache.Memory.{Memory, memory, steady_memory}
use iyou_idp.Cache.Memory.Lawful.{memory-IsLawful}
use iyou_idp.Json.{str, int, arr, nil, obj, Props, end, prop}
use iyou_idp.Json.Dumps.{dumps}
use iyou_idp.Text.{strip}
use iyou_idp.Invite.{
  granted, raised, parse_token_input, verify_token_signature, denial, invite_used, expired,
  decode_token_object, ed25519_pubkey_from_did, decode_signature,
}
use iyou_idp.Invite.Schema.{
  validate_schema, validate_expiry, validate_authorization, validate_use_ceiling,
}
use iyou_idp.Invite.Admission.{claim_key, verify_invite_token, consume_use, check_token}
use iyou_idp.Invite.Admission.Schedule.{Event, submit, wait, IsSeparate, admitted, nonce_of}
use iyou_idp.Invite.Admission.Sound.{
  verify_invite_token-IsAdmissible, IsAdmissible, refused_unspent,
}
use iyou_idp.Invite.Admission.Budget.{admitted-le-budget}

abbrev pub issuer : String
issuer = "did:key:z6Mk"

abbrev token : Props
token = prop "v" (int (pos 1)) (
    prop "issuer_did" (str issuer) (
      prop "nonce" (str "0123456789abcdef0123456789abcdef") (
        prop "max_uses" (int (pos 2)) (
          prop "uses_count" (int (pos 0)) (
            prop "tier" (str "member") (
              prop "created_at" (int (pos 1000)) (
                prop "expires_at" (int (pos 5000))
                  (prop "scope" (arr nil) (prop "signature" (str "zsig") end)))))))))

abbrev zeros : ℕ → Bytes
zeros zero = []
zeros (suc n) = 0 ∷ zeros n

-- Every text decodes to the one token; the issuer's key is 32 zeros, and every signature holds.
abbrev pub crypto : Crypto
crypto = record {
  b58decode = λ s. if s == "6Mk" then some (0xed ∷ 0x01 ∷ zeros 32) else some (zeros 64);
  urlsafe_b64decode = λ s. none;
  fromhex = λ s. none;
  sha256 = λ b. b;
  sha512 = λ b. b;
  rust_bridge = false;
  verify_vp = λ s. none;
  encode_utf8 = λ s. [];
  json_loads = λ b. some (obj token);
  ed25519_public_key = λ k. true;
  ed25519_verify = λ k s m. true;
}

abbrev pub settings : Settings
settings = record {
  system_gate_enabled = true;
  admin_did = issuer;
  beta_access_allowlist = [];
  beta_invite_keys = [];
  idp_wun_url = "https://wun.iyou.me";
  debug = false;
  enable_dev_auth_bypass = false;
  allow_emergency_bypass = false;
}

abbrev store : Bool → Memory
store up = record { up = up; entries = [] }

abbrev caches : Caches memory memory
caches = record { primary = store true; fallback = store true }

opened : Unit {0}
unfolding parse_token_input check_token validate_schema validate_expiry verify_token_signature
    validate_authorization validate_use_ceiling verify_invite_token consume_use claim_unit dumps
    strip admitted ed25519_pubkey_from_did decode_signature
opened = tt

admits : (verify_invite_token crypto settings memory memory "{}" 2000 caches).1 ≡ granted token
unfolding opened
admits = refl

verify_invite_token-IsAdmissible_example :
    (parse_token_input crypto "{}" ≡ some token)
    × IsAdmissible crypto settings token 2000
    × ((n : ℕ) × ((claim_unit memory memory 2000 (claim_key token) 0 3000 caches).1 ≡ some n)
        × (n ≤ 2))
verify_invite_token-IsAdmissible_example =
    verify_invite_token-IsAdmissible crypto settings memory memory "{}" 2000 caches token admits

expires_in_time :
    (verify_invite_token crypto settings memory memory "{}" 5000 caches).1 ≡ raised expired
unfolding opened
expires_in_time = refl

expired-ne-used : denial expired ≢ invite_used
unfolding denial
expired-ne-used h = cc

refused_unspent_example :
    (verify_invite_token crypto settings memory memory "{}" 5000 caches).0 ≡ caches
refused_unspent_example =
    refused_unspent crypto settings memory memory "{}" 5000 caches expired expires_in_time
      expired-ne-used

-- Three submissions of the one token, with a pause; the third finds the budget spent.
abbrev schedule : List Event
schedule = submit "{}" ∷ wait 100 ∷ submit "{}" ∷ submit "{}" ∷ []

admits_twice : admitted crypto settings memory memory (nonce_of token) schedule 2000 caches ≡ 2
unfolding opened
admits_twice = refl

submission-IsSeparate : (raw : String) → IsSeparate crypto settings token (submit raw)
unfolding parse_token_input decode_token_object
submission-IsSeparate raw t h = inl (ground arith)

schedule-IsSeparate : All (IsSeparate crypto settings token) schedule
schedule-IsSeparate = (
  submission-IsSeparate "{}",
  (tt, (submission-IsSeparate "{}", (submission-IsSeparate "{}", tt))),
)

abbrev steady_caches : Caches steady_memory memory
steady_caches = record { primary = store true; fallback = store true }

admitted-le-budget_example :
    admitted crypto settings steady_memory memory (nonce_of token) schedule 2000 steady_caches ≤ 2
admitted-le-budget_example =
    admitted-le-budget crypto settings steady_memory memory (memory-IsLawful true)
      (memory-IsLawful false) token schedule 2000 steady_caches (λ now k v t s. refl)
      schedule-IsSeparate refl refl
