-- ===== src/Invite/Admission/Sound.antt =====
-- What an admitted token is, and what a refused one leaves behind.
use iyou_idp.Prelude.{
  ℕ, ◌+◌, ◌*◌, ◌≤◌, ◌<◌, String, ◌≡◌, ◌≢◌, refl, ap, ◌∙◌, ◌⊎◌, inl, inr, true, Option, none, some,
  [], ◌∷◌, arith, leb, Bool-cases, Option-cases, member, eq_iff, not,
}
use iyou_idp.Prelude.Int.{pos, pos_part}
use iyou_idp.Text.{len, all_chars, hex_digit}
use iyou_idp.Crypto.{Crypto, Bytes}
use iyou_idp.Settings.{Settings}
use iyou_idp.Cache.{Backend, Caches, claim_unit}
use iyou_idp.Json.{Json, Props, int, str, get, truthy}
use iyou_idp.Invite.{
  Verdict, granted, raised, ◌>>=◌, Reason, nonempty_text, some_or, pubkey_of, missing_signature,
  issuer_not_did_key, bad_public_key, verification_failed, lifetime_too_long, read_only_tier,
  unsupported_version, missing_issuer, bad_nonce, bad_max_uses, unknown_tier, bad_scope,
  bad_numeric, denial, invite_used, parse_token_input, decode_signature, ed25519_pubkey_from_did,
  token_digest, verify_token_signature,
}
use iyou_idp.Invite.Schema.{
  text_of, int_of, is_one, is_nonce, is_use_budget, is_one_of, is_count, is_text_list, is_issuer,
  lives_too_long, validate_schema, validate_expiry, validate_authorization, validate_use_ceiling,
}
use iyou_idp.Invite.Inversion.{
  bind-eq-granted, then-eq-granted, require-eq-granted, require-then, some_or-eq-granted,
  nonempty_text-eq-granted,
}
use iyou_idp.Invite.Admission.{
  claim_key, cap, floor, ttl, consume_use, admit, check_token, verify_invite_token, counted,
}
use iyou_idp.Invite.Admission.Schedule.{nonce_of, expires_of}

-- The issuer's key is read off its DID, and the signature over the digest verifies under it.
pub record IsSigned (c : Crypto) (token : Props) : Type 0 where
  pub key : Bytes
  pub raw : Bytes
  pub key_of_issuer : ed25519_pubkey_from_did c (text_of (get "issuer_did" token)) ≡ some key
  pub decoded : decode_signature c (text_of (get "signature" token)) ≡ granted raw
  pub verified : c.ed25519_verify key raw (token_digest c token) ≡ true

-- The bounds that RFC-002 sets for a token.
pub record IsInBounds (token : Props) (now : ℕ) : Type 0 where
  pub budget : get "max_uses" token ≡ int (pos (cap token))
  pub budget_low : 1 ≤ cap token
  pub budget_high : cap token ≤ 100
  pub nonce : get "nonce" token ≡ str (nonce_of token)
  pub nonce_long : 32 ≤ len (nonce_of token)
  pub nonce_hex : all_chars hex_digit (nonce_of token) ≡ true
  pub unexpired : now < expires_of token
  pub short_lived : expires_of token ≤ pos_part (int_of (get "created_at" token)) + 90 * 86400

abbrev pub IsTrusted : Settings → String → Type 0
IsTrusted settings did =
    (did ≡ settings.admin_did) ⊎ (member did settings.beta_access_allowlist ≡ true)

pubkey_of_text :
    (c : Crypto) (v : Json) (key : Bytes)
    → pubkey_of c v ≡ some key
    → ed25519_pubkey_from_did c (text_of v) ≡ some key
pubkey_of_text c (str did) key h = h
pubkey_of_text c v key h = ground arith

IsSigned-of :
    (c : Crypto) (token : Props) → verify_token_signature c token ≡ granted tt → IsSigned c token
unfolding verify_token_signature
IsSigned-of c token h =
    let issuer = get "issuer_did" token in
    let (signature, e1, h1) =
      bind-eq-granted (nonempty_text (get "signature" token) missing_signature) _ h in
    let (key, e2, h2) =
      bind-eq-granted (some_or (pubkey_of c (get "issuer_did" token)) issuer_not_did_key) _ h1 in
    let (_, h3) = require-then (c.ed25519_public_key key) bad_public_key _ h2 in
    let (raw, e4, h4) = bind-eq-granted (decode_signature c signature) _ h3 in
    let text = nonempty_text-eq-granted (get "signature" token) missing_signature e1 in
    let found = some_or-eq-granted (pubkey_of c (get "issuer_did" token)) issuer_not_did_key e2 in
    record {
      key = key;
      raw = raw;
      key_of_issuer = pubkey_of_text c (get "issuer_did" token) key found;
      decoded = rw text e4;
      verified = require-eq-granted _ verification_failed h4;
    }

lifetime_of :
    (created expires : Json)
    → is_count created ≡ true
    → is_count expires ≡ true
    → not (lives_too_long (int_of created) (int_of expires)) ≡ true
    → pos_part (int_of expires) ≤ pos_part (int_of created) + 90 * 86400
lifetime_of (int (pos m)) (int (pos n)) p q h = ground arith
lifetime_of created expires p q h = ground arith

budget_of :
    (v : Json)
    → is_use_budget v ≡ true
    → (v ≡ int (pos (pos_part (int_of v))))
      × (1 ≤ pos_part (int_of v))
      × (pos_part (int_of v) ≤ 100)
budget_of v h = ground arith

nonce_part :
    (v : Json)
    → is_nonce v ≡ true
    → (v ≡ str (text_of v)) × (32 ≤ len (text_of v)) × (all_chars hex_digit (text_of v) ≡ true)
nonce_part v h = ground arith

tier_of :
    (v : Json)
    → is_one_of ("admin" ∷ "member" ∷ []) v ≡ true
    → (v ≡ str "admin") ⊎ (v ≡ str "member")
tier_of (str s) h = ground (arith, eq_iff s "admin", eq_iff s "member")
tier_of v h = ground arith

IsTrusted-of :
    (settings : Settings) (token : Props)
    → validate_authorization settings token ≡ granted tt
    → IsTrusted settings (text_of (get "issuer_did" token))
unfolding validate_authorization
IsTrusted-of settings token h =
    ground (arith, eq_iff (text_of (get "issuer_did" token)) settings.admin_did)

alive_of :
    (token : Props) (now : ℕ) → validate_expiry token now ≡ granted tt → now < expires_of token
unfolding validate_expiry
alive_of token now h = ground arith

bounds_of :
    (c : Crypto) (token : Props) (now : ℕ)
    → validate_schema c token ≡ granted tt
    → now < expires_of token
    → IsInBounds token now
unfolding validate_schema
bounds_of c token now h alive =
    let (_, h1) = require-then (is_one (get "v" token)) unsupported_version _ h in
    let (_, h2) = require-then (is_issuer c (get "issuer_did" token)) missing_issuer _ h1 in
    let (nonce, h3) = require-then (is_nonce (get "nonce" token)) bad_nonce _ h2 in
    let (budget, h4) = require-then (is_use_budget (get "max_uses" token)) bad_max_uses _ h3 in
    let (_, h5) =
      require-then (is_one_of ("admin" ∷ "member" ∷ "guest" ∷ []) (get "tier" token)) unknown_tier _
        h4 in
    let (_, h6) = require-then (is_text_list (get "scope" token)) bad_scope _ h5 in
    let (created, h7) = require-then (is_count (get "created_at" token)) bad_numeric _ h6 in
    let (expires, h8) = require-then (is_count (get "expires_at" token)) bad_numeric _ h7 in
    let (_, h9) = require-then (is_count (get "uses_count" token)) bad_numeric _ h8 in
    let (_, h10) = require-then (truthy (get "signature" token)) missing_signature _ h9 in
    let b = budget_of (get "max_uses" token) budget in
    let n = nonce_part (get "nonce" token) nonce in
    record {
      budget = b.0;
      budget_low = b.1;
      budget_high = b.2;
      nonce = n.0;
      nonce_long = n.1;
      nonce_hex = n.2;
      unexpired = alive;
      short_lived =
          lifetime_of (get "created_at" token) (get "expires_at" token) created expires
            (require-eq-granted _ lifetime_too_long h10);
    }

-- The check of one submission, up to the use of its budget, shows all of this.
pub record IsAdmissible (c : Crypto) (settings : Settings) (token : Props) (now : ℕ) : Type 0 where
  pub bounds : IsInBounds token now
  pub signed : IsSigned c token
  pub trusted : IsTrusted settings (text_of (get "issuer_did" token))
  pub tier : (get "tier" token ≡ str "admin") ⊎ (get "tier" token ≡ str "member")

check_token-IsAdmissible :
    (c : Crypto) (settings : Settings) (token : Props) (now : ℕ)
    → check_token c settings token now ≡ granted tt
    → IsAdmissible c settings token now
unfolding check_token
check_token-IsAdmissible c settings token now h =
    let (schema, h1) = then-eq-granted (validate_schema c token) _ h in
    let (expiry, h2) = then-eq-granted (validate_expiry token now) _ h1 in
    let (signature, h3) = then-eq-granted (verify_token_signature c token) _ h2 in
    let (trust, h4) = then-eq-granted (validate_authorization settings token) _ h3 in
    let (_, h5) = then-eq-granted (validate_use_ceiling settings token) _ h4 in
    let (_, h6) = then-eq-granted (validate_use_ceiling settings token) _ h5 in
    let alive = alive_of token now expiry in
    record {
      bounds = bounds_of c token now schema alive;
      signed = IsSigned-of c token signature;
      trusted = IsTrusted-of settings token trust;
      tier = tier_of (get "tier" token) (require-eq-granted _ read_only_tier h6);
    }

module _ (c : Crypto) (settings : Settings) (P F : Backend) (raw : String) (now : ℕ)
    (s : Caches P F) where
  counted-eq-granted :
      (t token : Props) (o : Option ℕ) (most : ℕ)
      → (counted o most >>= λ _. granted t) ≡ granted token
      → (t ≡ token) × ((n : ℕ) × (o ≡ some n) × (n ≤ most))
  counted-eq-granted t token none most h = cc
  counted-eq-granted t token (some n) most h = elim (Bool-cases (leb n most)) [
    | inl fits ↦ (cc (rw fits at h), (n, refl, ground arith))
    | inr over ↦ cc (rw over at h)
  ]

  admit-eq-granted :
      (t token : Props) (r : Verdict (Unit {0}))
      → (admit c settings P F t now s r).1 ≡ granted token
      → (t ≡ token)
        × (r ≡ granted tt)
        × ((n : ℕ) × ((claim_unit P F now (claim_key t) (floor t) (ttl t now) s).1 ≡ some n)
            × (n ≤ cap t))
  unfolding consume_use
  admit-eq-granted t token (raised e) h = cc
  admit-eq-granted t token (granted tt) h =
      let (same, used) = counted-eq-granted t token _ (cap t) h in (same, refl, used)

  used_up :
      (t : Props) (o : Option ℕ) (most : ℕ) (r : Reason)
      → (counted o most >>= λ _. granted t) ≡ raised r
      → denial r ≡ invite_used
  unfolding denial
  used_up t o most r h = ground arith

  admit_refused :
      (t : Props) (r : Reason) (checked : Verdict (Unit {0}))
      → (admit c settings P F t now s checked).1 ≡ raised r
      → denial r ≢ invite_used
      → (admit c settings P F t now s checked).0 ≡ s
  unfolding consume_use
  admit_refused t r (raised e) h unused = refl
  admit_refused t r (granted u) h unused = absurd (unused (used_up t _ (cap t) r h))

  -- A submission is admitted only if it decodes to the returned token, the token is in bounds,
  -- signed by the key in its issuer's DID, its issuer is the operator or on the allowlist, its tier
  -- is admin or member, and the claimed count, which this submission took, is within its budget.
  pub verify_invite_token-IsAdmissible :
      (token : Props)
      → (verify_invite_token c settings P F raw now s).1 ≡ granted token
      → (parse_token_input c raw ≡ some token)
        × IsAdmissible c settings token now
        × ((n : ℕ) × ((claim_unit P F now (claim_key token) (floor token) (ttl token now) s).1
              ≡ some n)
            × (n ≤ cap token))
  unfolding verify_invite_token consume_use
  verify_invite_token-IsAdmissible token h = elim (Option-cases (parse_token_input c raw)) [
    | inl e ↦ absurd (cc (rw e at h))
    | inr (t, e) ↦
        let (same, passed, used) =
          admit-eq-granted t token (check_token c settings t now) (rw e at h) in
        (
          e ∙ ap some same,
          check_token-IsAdmissible c settings token now (rw same at passed),
          rw same at used,
        )
  ]

  -- A submission that is refused for any other reason than its budget leaves both caches as they
  -- were: no use is spent on it.
  pub refused_unspent :
      (r : Reason)
      → (verify_invite_token c settings P F raw now s).1 ≡ raised r
      → denial r ≢ invite_used
      → (verify_invite_token c settings P F raw now s).0 ≡ s
  unfolding verify_invite_token
  refused_unspent r h unused = elim (Option-cases (parse_token_input c raw)) [
    | inl e ↦ rw e
    | inr (t, e) ↦ rw e (admit_refused t r (check_token c settings t now) (rw e at h) unused)
  ]
