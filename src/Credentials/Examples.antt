-- ===== src/Credentials/Examples.antt =====
-- Credentials at which the theorems on their validation apply.
use iyou_idp.Prelude.{String, ◌≡◌, refl, true, false, none, some, [], ◌∷◌}
use iyou_idp.Prelude.Int.{pos}
use iyou_idp.Text.{lower, strip}
use iyou_idp.Json.{Json, int, str, arr, obj, nil, cons, Props, end, prop}
use iyou_idp.Invite.Examples.{crypto, issuer}
use iyou_idp.Credentials.{
  Readers, is_pii, find_pii_fields, permission_tiers, parse_timestamp, is_jwt_string,
  pubkey_from_did_key, verify_signature_with_did_rust,
}
use iyou_idp.Credentials.Personal.{key, reach, find_pii_fields-nil}
use iyou_idp.Credentials.Validate.{Validated, valid, validate_age_bracket_vc}
use iyou_idp.Credentials.Sound.{Sound}

abbrev parent : String
parent = "did:key:zParent"

abbrev subject : Props
subject = prop "id" (str "did:key:zChild") (prop "ageBracket" (str "U14") end)

-- A credential that names the parent as its issuer and has no proof.
abbrev unsigned : Props
unsigned =
    prop "@context"
      (arr (
        cons (str "https://www.w3.org/2018/credentials/v1")
          (cons (str "https://iyou.me/credentials/age-bracket/v1") nil)))
      (prop "type" (arr (cons (str "AgeBracketCredential") nil)) (
        prop "issuer" (str parent)
          (prop "issuanceDate" (int (pos 1000)) (prop "credentialSubject" (obj subject) end))))

-- A token of another issuer, whose key is known to `crypto`.
abbrev pub readers : Readers
readers = record {
  decode_unverified = λ token. some (prop "iss" (str issuer) (prop "vc" (obj unsigned) end));
  decode_verified = λ key token. true;
  loads = λ text. none;
  rust_verify_vc = none;
  timestamp_of = λ text. none;
}

credentials : Unit {0}
unfolding validate_age_bracket_vc find_pii_fields is_pii permission_tiers parse_timestamp
    is_jwt_string pubkey_from_did_key verify_signature_with_did_rust lower strip
credentials = tt

abbrev tier : Props
tier = prop "bracket" (str "U14") (
    prop "stage" (int (pos 1)) (
      prop "stage_name" (str "Stage 1 Guided Delegation") (
        prop "restricted_kinds" (Json.bool true) (
          prop "relay_allowlist" (Json.bool true) (
            prop "l2_contextual_derivation_permitted" (Json.bool false) (
              prop "l2_derivation_permitted" (Json.bool false) (
                prop "autonomous_persona" (Json.bool false) (
                  prop "description"
                    (str "Stage 1 Guided Delegation (restricted kinds, relay allowlist)")
                    end))))))))

abbrev pub forged : Validated
forged = record {
  issuer = str parent;
  subject_id = "did:key:zChild";
  age_bracket = "U14";
  permission_tier = tier;
  credential = unsigned;
  raw_payload = str "h.p.s";
  issued_at = pos 1000;
  expires_at = pos 31537000;
}

-- The token of another issuer gives a credential of the parent, and its year is over.
pub token_passes : validate_age_bracket_vc crypto readers 99999999 (str "h.p.s") ≡ valid forged
unfolding credentials
token_passes = refl

hyphens_are_found :
    find_pii_fields (obj (prop "a" (arr (cons (obj (prop " Birth-Date" (str "x") end)) nil)) end))
    ≡ " Birth-Date" ∷ []
unfolding credentials
hyphens_are_found = refl

nothing_found : find_pii_fields (obj unsigned) ≡ []
unfolding credentials
nothing_found = refl

path_to_subject : reach (key "credentialSubject" ∷ []) (obj unsigned) ≡ some (obj subject)
unfolding reach
path_to_subject = refl

find_pii_fields-nil_example : is_pii "ageBracket" ≡ false
find_pii_fields-nil_example =
    find_pii_fields-nil (key "credentialSubject" ∷ []) (obj unsigned) subject "ageBracket"
      (str "U14") nothing_found path_to_subject refl
