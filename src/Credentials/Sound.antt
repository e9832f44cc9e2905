-- ===== src/Credentials/Sound.antt =====
-- What a validated age-bracket credential has passed, from its subject on.
use iyou_idp.Prelude.{
  ℕ, String, ◌≡◌, refl, ap, ◌⊎◌, inl, inr, Bool, true, false, not, ◌&&◌, Option, none, some, [],
  ◌==◌, if_both, if_split, subst, List, ◌∷◌, ◌||◌, ◌<◌, ◌≢◌, any, any-some, IsIn, arith,
  if◌then◌else◌,
}
use iyou_idp.Prelude.Int.{ℤ, pos, negsuc}
use iyou_idp.Json.{
  Json, null, bool, int, float, str, arr, obj, Props, get, get_or, Items, items, is_text, is_true,
}
use iyou_idp.Json.Fields.{is_text-eq}
use iyou_idp.Crypto.{Crypto, Bytes}
use iyou_idp.Credentials.{
  Readers, find_pii_fields, get_session_permission_tier, parse_timestamp, pubkey_from_did_key,
  verify_signature_with_did_rust,
}
use iyou_idp.Credentials.Proofs.{OwnProof, verify_signature-OwnProof}
use iyou_idp.Credentials.Validate.{
  Validated, Validation, valid, invalid, crashed, structure_error, first_error, context_error,
  context_uris, type_error, type_names, has_expired, expires_raw, is_revoked, unless_revoked, dated,
  signed, tiered, bracketed, identified,
}

-- The value is this text, or a list that has it.
abbrev pub Lists : (name : String) → Json → Type 0
Lists name v = (v ≡ str name) ⊎ ((vs : Items) × (v ≡ arr vs) × IsIn (str name) (items vs))

listed_text : (name s : String) → any (is_text name) (str s ∷ []) ≡ true → Lists name (str s)
listed_text name s h = inl (is_text-eq (str s) name (ground (arith, h)))

listed_items :
    (name : String) (vs : Items) → any (is_text name) (items vs) ≡ true → Lists name (arr vs)
listed_items name vs h =
    let (v, m, passes) = any-some (is_text name) (items vs) h in
    inr (vs, refl, subst (λ x. IsIn x (items vs)) (is_text-eq v name passes) m)

context_tests :
    (vs : List Json)
    → context_uris (some vs) ≡ none
    → (any (is_text "https://www.w3.org/2018/credentials/v1") vs ≡ true)
      × (any (is_text "https://iyou.me/credentials/age-bracket/v1") vs ≡ true)
context_tests vs h = both _ _ _ _ h
  where
    both :
        (a b : Bool) (x y : String)
        → (if not a then some x else if not b then some y else none) ≡ none
        → (a ≡ true) × (b ≡ true)
    both true true x y h = (refl, refl)
    both true false x y h = absurd (cc (h))
    both false b x y h = absurd (cc (h))

type_test :
    (vs : List Json) → type_names (some vs) ≡ none → any (is_text "AgeBracketCredential") vs ≡ true
type_test vs h = one _ _ h
  where
    one : (a : Bool) (x : String) → (if a then none else some x) ≡ none → a ≡ true
    one true x h = refl
    one false x h = absurd (cc (h))

error_absurd {ℓ} : {P : Type ℓ} (e : String) → some e ≡ none → P
error_absurd e h = absurd (cc (h))

present_none :
    (b : Bool) (o : Option String) (e : String) → (if b then o else some e) ≡ none → o ≡ none
present_none true o e h = h
present_none false o e h = absurd (cc (h))

-- The contexts and the type that a credential without an error has.
abbrev pub Shaped : Props → Type 0
Shaped vc =
    Lists "https://www.w3.org/2018/credentials/v1" (get "@context" vc)
    × Lists "https://iyou.me/credentials/age-bracket/v1" (get "@context" vc)
    × Lists "AgeBracketCredential" (get "type" vc)

context_error-none :
    (v : Json)
    → context_error v ≡ none
    → Lists "https://www.w3.org/2018/credentials/v1" v
      × Lists "https://iyou.me/credentials/age-bracket/v1" v
context_error-none (str s) h =
    let (w3c, ours) = context_tests (str s ∷ []) (present_none _ _ _ h) in
    (listed_text _ s w3c, listed_text _ s ours)
context_error-none (arr vs) h =
    let (w3c, ours) = context_tests (items vs) (present_none _ _ _ h) in
    (listed_items _ vs w3c, listed_items _ vs ours)
context_error-none null h = error_absurd _ h
context_error-none (bool b) h = error_absurd _ (present_none _ _ _ h)
context_error-none (int n) h = error_absurd _ (present_none _ _ _ h)
context_error-none (float r n) h = error_absurd _ (present_none _ _ _ h)
context_error-none (obj ps) h = error_absurd _ (present_none _ _ _ h)

type_error-none : (v : Json) → type_error v ≡ none → Lists "AgeBracketCredential" v
type_error-none (str s) h = listed_text _ s (type_test (str s ∷ []) (present_none _ _ _ h))
type_error-none (arr vs) h = listed_items _ vs (type_test (items vs) (present_none _ _ _ h))
type_error-none null h = error_absurd _ h
type_error-none (bool b) h = error_absurd _ (present_none _ _ _ h)
type_error-none (int n) h = error_absurd _ (present_none _ _ _ h)
type_error-none (float r n) h = error_absurd _ (present_none _ _ _ h)
type_error-none (obj ps) h = error_absurd _ (present_none _ _ _ h)

pub structure_error-none : (vc : Props) → structure_error vc ≡ none → Shaped vc
structure_error-none vc h =
    let (first, later) = both _ _ h in
    let (w3c, ours) = context_error-none (get "@context" vc) first in
    (w3c, ours, type_error-none (get "type" vc) later)
  where
    both : (a b : Option String) → first_error a b ≡ none → (a ≡ none) × (b ≡ none)
    both none b h = (refl, h)
    both (some e) b h = absurd (cc (h))

neither_marked : (v u : Json) → (is_true v || is_true u) ≡ false → (v ≢ bool true) × (u ≢ bool true)
neither_marked v u h = (
  λ e. first (is_true v) (is_true u) (ap is_true e) h,
  λ e. second (is_true v) (is_true u) (ap is_true e) h,
)
  where
    first : (a b : Bool) → a ≡ true → (a || b) ≡ false → ⊥
    first true b e h = cc (h)
    first false b e h = cc (e)

    second : (a b : Bool) → b ≡ true → (a || b) ≡ false → ⊥
    second true b e h = cc (h)
    second false b e h = cc (e, h)

has_expired-ahead :
    (now : ℕ) (t : ℤ) → has_expired now t ≡ false → (n : ℕ) × (t ≡ pos n) × (now < n)
has_expired-ahead now (pos n) h = (n, refl, ground arith)
has_expired-ahead now (negsuc n) h = absurd (cc (h))

module _ (c : Crypto) (readers : Readers) (now : ℕ) (payload : Json) where
  -- A token whose claims hold the credential, and that verifies under the key of its issuer or, where
  -- it names none, of the credential's.
  pub record SignedToken (vc : Json) : Type 0 where
    pub token : String
    pub text : payload ≡ str token
    pub claims : Props
    pub decoded : readers.decode_unverified token ≡ some claims
    pub holds : get_or (obj claims) "vc" claims ≡ vc
    pub did : String
    pub issued :
        (get "iss" claims ≡ str did) ⊎ ((ps : Props) × (vc ≡ obj ps) × (get "issuer" ps ≡ str did))
    pub key : Bytes
    pub key_of : pubkey_from_did_key c readers did ≡ some key
    pub verified : readers.decode_verified key token ≡ true

  pub record Sound (v : Validated) : Type 0 where
    pub clean : find_pii_fields (obj v.credential) ≡ []
    pub shaped : Shaped v.credential
    pub subject : Props
    pub has_subject : get "credentialSubject" v.credential ≡ obj subject
    pub names : get "id" subject ≡ str v.subject_id
    pub bracket : get "ageBracket" subject ≡ str v.age_bracket
    pub tier : get_session_permission_tier v.age_bracket ≡ some v.permission_tier
    pub issuer : v.issuer ≡ get "issuer" v.credential
    pub signature : SignedToken (obj v.credential) ⊎ OwnProof c readers v.credential
    pub unexpired :
        (t : ℤ)
        → parse_timestamp readers (expires_raw c readers now v.credential subject) ≡ some t
        → (v.expires_at ≡ t) × ((n : ℕ) × (t ≡ pos n) × (now < n))
    pub unrevoked : (get "revoked" v.credential ≢ bool true) × (get "revoked" subject ≢ bool true)

  abbrev pub Says : Validation → Type 0
  Says (valid v) = Sound v
  Says (invalid message) = Unit
  Says crashed = Unit

  module _ (raw : Json) (jwt : Bool) (vc : Props) (token : jwt ≡ true → SignedToken (obj vc))
      (clean : find_pii_fields (obj vc) ≡ []) (shaped : Shaped vc) (subject : Props)
      (has_subject : get "credentialSubject" vc ≡ obj subject) where
    module _ (id bracket : String) (names : get "id" subject ≡ str id)
        (in_bracket : get "ageBracket" subject ≡ str bracket) (tier : Props)
        (tier_of : get_session_permission_tier bracket ≡ some tier)
        (signature : SignedToken (obj vc) ⊎ OwnProof c readers vc) where
      abbrev expiry : Option ℤ
      expiry = parse_timestamp readers (expires_raw c readers now vc subject)

      unless_revoked-Says :
          (t : ℤ)
          → ((u : ℤ) → expiry ≡ some u → (t ≡ u) × ((n : ℕ) × (u ≡ pos n) × (now < n)))
          → Says (unless_revoked c readers now raw vc subject id bracket tier t)
      unless_revoked-Says t unexpired =
          if_split Says (is_revoked c readers now vc subject) _ _ (λ e. tt)
            (λ unrevoked. record {
              clean = clean;
              shaped = shaped;
              subject = subject;
              has_subject = has_subject;
              names = names;
              bracket = in_bracket;
              tier = tier_of;
              issuer = refl;
              signature = signature;
              unexpired = unexpired;
              unrevoked = neither_marked _ _ unrevoked;
            })

      dated-Says :
          (o : Option ℤ) → expiry ≡ o → Says (dated c readers now raw vc subject id bracket tier o)
      dated-Says none e = unless_revoked-Says _ (λ u h. absurd (cc (e, h)))
      dated-Says (some t) e =
          if_split Says (has_expired now t) _ _ (λ over. tt)
            (λ ahead. unless_revoked-Says t (λ u h. same u (cc (e, h)) ahead))
        where
          value : Option ℤ → ℤ
          value none = t
          value (some x) = x

          same :
              (u : ℤ)
              → some t ≡ some u
              → has_expired now t ≡ false
              → (t ≡ u) × ((n : ℕ) × (u ≡ pos n) × (now < n))
          same u h ahead = (
            ap value h,
            has_expired-ahead now u (subst (λ x. has_expired now x ≡ false) (ap value h) ahead),
          )

    signed-Says :
        (id bracket : String) (tier : Props)
        → get "id" subject ≡ str id
        → get "ageBracket" subject ≡ str bracket
        → get_session_permission_tier bracket ≡ some tier
        → Says (signed c readers now raw vc subject id bracket tier jwt)
    signed-Says id bracket tier names in_bracket tier_of =
        if_split Says (not jwt && not (verify_signature_with_did_rust c readers vc)) _ _ (λ e. tt)
          (λ e.
            dated-Says id bracket names in_bracket tier tier_of
              (evidence jwt _ e token (verify_signature-OwnProof c readers vc)) _ refl)
      where
        evidence :
            (a b : Bool)
            → (not a && not b) ≡ false
            → (a ≡ true → SignedToken (obj vc))
            → (b ≡ true → OwnProof c readers vc)
            → SignedToken (obj vc) ⊎ OwnProof c readers vc
        evidence true b e by_token by_proof = inl (by_token refl)
        evidence false true e by_token by_proof = inr (by_proof refl)
        evidence false false e by_token by_proof = absurd (cc)

    tiered-Says :
        (id bracket : String) (o : Option Props)
        → get "id" subject ≡ str id
        → get "ageBracket" subject ≡ str bracket
        → get_session_permission_tier bracket ≡ o
        → Says (tiered c readers now raw jwt vc subject id bracket o)
    tiered-Says id bracket none names in_bracket e = tt
    tiered-Says id bracket (some tier) names in_bracket e =
        signed-Says id bracket tier names in_bracket e

    bracketed-Says :
        (id : String) (v : Json)
        → get "id" subject ≡ str id
        → get "ageBracket" subject ≡ v
        → Says (bracketed c readers now raw jwt vc subject id v)
    bracketed-Says id (str bracket) names e =
        if_both Says (bracket == "") _ _ tt (tiered-Says id bracket _ names e refl)
    bracketed-Says id null names e = tt
    bracketed-Says id (bool b) names e = tt
    bracketed-Says id (int n) names e = tt
    bracketed-Says id (float r n) names e = tt
    bracketed-Says id (arr vs) names e = tt
    bracketed-Says id (obj ps) names e = tt

    pub identified-Says :
        (v : Json) → get "id" subject ≡ v → Says (identified c readers now raw jwt vc subject v)
    identified-Says (str id) e = if_both Says (id == "") _ _ tt (bracketed-Says id _ e refl)
    identified-Says null e = tt
    identified-Says (bool b) e = tt
    identified-Says (int n) e = tt
    identified-Says (float r n) e = tt
    identified-Says (arr vs) e = tt
    identified-Says (obj ps) e = tt
