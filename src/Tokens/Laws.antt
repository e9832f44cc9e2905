-- ===== src/Tokens/Laws.antt =====
-- A revocation lasts, and what a dependent's claims and requests have passed.
use iyou_idp.Prelude.{
  ℕ, String, ◌≡◌, refl, Bool, true, false, not, ◌&&◌, ◌||◌, Option, none, some, List, [], ◌∷◌, ◌==◌,
  eq_refl, eq_iff, ◌≢◌, ◌∙◌, arith, member, is_some, if_both, if_split, subst,
}
use iyou_idp.Prelude.Int.{pos}
use iyou_idp.Json.{
  Json, null, bool, int, float, str, arr, obj, nil, Props, end, prop, get, get_or, truthy, or, put,
}
use iyou_idp.Crypto.{Crypto}
use iyou_idp.Credentials.{Readers}
use iyou_idp.Credentials.Validate.{
  Validated, Validation, valid, invalid, crashed, validate_age_bracket_vc,
}
use iyou_idp.Credentials.Sound.{Sound}
use iyou_idp.Credentials.Laws.{validate_age_bracket_vc-Sound}
use iyou_idp.Tokens.{
  Vector, Registry, Recorded, recorded, ignored, raised, register_dependent_vector,
  record_revocation_ticket, by_target, target_of, tags_target, unless_missing, with_tags,
  record_loaded, is_credential_revoked, get_dependent_vector_for_did, Dependent, held_vc,
  dependent_revoked, Injection, untouched, session_revoked, refused, failed, injected, with_issuer,
  validated, inject_dependent_claims,
}

module _ (readers : Readers) (str_of : Json → String) where
  -- A call that changes the registry, with its time and whether the database answers.
  pub data Call : Type 0 where
    register : (now : ℕ) → (db : Bool) → Vector → Call
    record_ticket : (now : ℕ) → (db : Bool) → Json → Call

  abbrev call : Call → Registry → Registry
  call (register now db v) r = register_dependent_vector readers now db v r
  call (record_ticket now db ticket) r = (record_revocation_ticket readers str_of now db ticket r).0

  unfoldable pub calls : List Call → Registry → Registry
  calls [] r = r
  calls (k ∷ ks) r = calls ks (call k r)

  -- What a recording leaves: every DID that was revoked, and the one that it returns.
  abbrev Returned : Registry × Recorded → Type 0
  Returned (r, recorded did) = member did r.revocations ≡ true
  Returned (r, ignored) = Unit
  Returned (r, raised) = Unit

  abbrev Keeps : Registry → Registry → Type 0
  Keeps r r' = (did : String) → member did r.revocations ≡ true → member did r'.revocations ≡ true

  abbrev Recording : Registry → Registry × Recorded → Type 0
  Recording r res = Keeps r res.0 × Returned res

  module _ (now : ℕ) (db : Bool) (ticket : Json) (r : Registry) where
    added : (did : String) (ds : List String) → member did (did ∷ ds) ≡ true
    added did ds = ground (arith, eq_refl did)

    kept : (did d : String) (ds : List String) → member d ds ≡ true → member d (did ∷ ds) ≡ true
    kept did d ds h = ground (arith, h)

    by_target-Recording : (v : Json) → Recording r (by_target readers str_of now db ticket v r)
    by_target-Recording (arr vs) = (λ d h. h, tt)
    by_target-Recording (obj ps) = (λ d h. h, tt)
    by_target-Recording (str s) = (λ d h. kept s d r.revocations h, added s r.revocations)
    by_target-Recording null =
        (λ d h. kept (str_of null) d r.revocations h, added (str_of null) r.revocations)
    by_target-Recording (bool b) =
        (λ d h. kept (str_of (bool b)) d r.revocations h, added (str_of (bool b)) r.revocations)
    by_target-Recording (int n) =
        (λ d h. kept (str_of (int n)) d r.revocations h, added (str_of (int n)) r.revocations)
    by_target-Recording (float x n) = (
      λ d h. kept (str_of (float x n)) d r.revocations h,
      added (str_of (float x n)) r.revocations,
    )

  module _ (now : ℕ) (db : Bool) (r : Registry) where
    unless_missing-Recording :
        (ticket v : Json) → Recording r (unless_missing readers str_of now db ticket v r)
    unless_missing-Recording ticket v =
        if_both (Recording r) (truthy v) _ _ (by_target-Recording now db ticket r v) (λ d h. h, tt)

    with_tags-Recording :
        (ticket : Props) (o : Option String)
        → Recording r (with_tags readers str_of now db ticket o r)
    with_tags-Recording ticket none = (λ d h. h, tt)
    with_tags-Recording ticket (some by_tag) =
        unless_missing-Recording (obj ticket) (target_of readers str_of now db ticket by_tag)

    record_loaded-Recording :
        (o : Option Json) → Recording r (record_loaded readers str_of now db o r)
    record_loaded-Recording none = (λ d h. h, tt)
    record_loaded-Recording (some (obj ticket)) =
        with_tags-Recording ticket
          (tags_target readers str_of now db (get_or (arr nil) "tags" ticket))
    record_loaded-Recording (some null) = (λ d h. h, tt)
    record_loaded-Recording (some (bool b)) = (λ d h. h, tt)
    record_loaded-Recording (some (int n)) = (λ d h. h, tt)
    record_loaded-Recording (some (float x n)) = (λ d h. h, tt)
    record_loaded-Recording (some (str s)) = (λ d h. h, tt)
    record_loaded-Recording (some (arr vs)) = (λ d h. h, tt)

    record-Recording :
        (ticket : Json) → Recording r (record_revocation_ticket readers str_of now db ticket r)
    unfolding record_revocation_ticket
    record-Recording (str s) = record_loaded-Recording (readers.loads s)
    record-Recording null = record_loaded-Recording (some null)
    record-Recording (bool b) = record_loaded-Recording (some (bool b))
    record-Recording (int n) = record_loaded-Recording (some (int n))
    record-Recording (float x n) = record_loaded-Recording (some (float x n))
    record-Recording (arr vs) = record_loaded-Recording (some (arr vs))
    record-Recording (obj ps) = record_loaded-Recording (some (obj ps))

  calls-Keeps : (ks : List Call) (r : Registry) → Keeps r (calls ks r)
  unfolding calls register_dependent_vector
  calls-Keeps [] r d h = h
  calls-Keeps (register now db v ∷ ks) r d h = calls-Keeps ks _ d h
  calls-Keeps (record_ticket now db ticket ∷ ks) r d h =
      calls-Keeps ks _ d ((record-Recording now db r ticket).0 d h)

  -- A DID that record_revocation_ticket returns and that is not empty is revoked at once, and after
  -- any sequence of registrations and recordings by the same process, whether or not the database
  -- answers.
  pub record_revocation_ticket-lasts :
      (now : ℕ) (db : Bool) (ticket : Json) (r r' : Registry) (did : String) (ks : List Call)
      (db' : Bool)
      → record_revocation_ticket readers str_of now db ticket r ≡ (r', recorded did)
      → (did == "") ≡ false
      → is_credential_revoked db' did (calls ks r') ≡ true
  unfolding is_credential_revoked
  record_revocation_ticket-lasts now db ticket r r' did ks db' e named =
      let here : member did r'.revocations ≡ true =
        subst Returned e (record-Recording now db r ticket).1 in
      let lasting : member did (calls ks r').revocations ≡ true = calls-Keeps ks r' did here in
      ground (arith, named, lasting)

-- d[key] = value, and then d.get(other)
get-put_other : (j k : String) (v : Json) (ps : Props) → j ≢ k → get k (put j v ps) ≡ get k ps
unfolding put
get-put_other j k v end other = ground (arith, eq_iff j k)
get-put_other j k v (prop i u ps) other =
    ground (arith, eq_iff i j, eq_iff i k, eq_iff j k, get-put_other j k v ps)

-- d[key] = value, and then d.get(key)
get-put : (k : String) (v : Json) (ps : Props) → get k (put k v ps) ≡ v
unfolding put
get-put k v end = ground (arith, eq_refl k)
get-put k v (prop j u ps) = ground (arith, get-put k v ps)

module _ (c : Crypto) (readers : Readers) (now : ℕ) (db : Bool) (idp_base_url : String)
    (id_token : Props) (user_did : String) (attested : Json) (r : Registry) where
  abbrev held : Option Dependent
  held = get_dependent_vector_for_did db user_did r

  -- The credential that the claims are made from.
  abbrev presented : Json
  presented = or attested (held_vc db held)

  -- What claims of a dependent have passed.
  pub record Injected (claims dep : Props) : Type 0 where
    pub named : (user_did == "") ≡ false
    pub unrevoked : is_credential_revoked db user_did r ≡ false
    pub held_unrevoked : dependent_revoked db held ≡ false
    pub credential : Validated
    pub accepted : validate_age_bracket_vc c readers now presented ≡ valid credential
    pub sound : Sound c readers now presented credential
    pub bracket : get "bracket" dep ≡ str credential.age_bracket
    pub wot_distance : get "wot_distance" dep ≡ int (pos 1)
    pub parent : get "parent_did" dep ≡ get "issuer" credential.credential
    pub issued : get "issued_at" dep ≡ int credential.issued_at
    pub expires : get "expires_at" dep ≡ int credential.expires_at
    pub not_revoked : get "revoked" dep ≡ bool false
    pub subject : get "sub" claims ≡ str user_did
    pub holds_claim : get "dep" claims ≡ obj dep

  abbrev Says : Injection → Type 0
  Says (injected claims dep) = Injected claims dep
  Says untouched = Unit
  Says session_revoked = Unit
  Says (refused message) = Unit
  Says failed = Unit

  eq_false : (a b : String) → (a == b) ≡ false → a ≢ b
  eq_false a b h e = absurd (cc (h, (eq_iff a b).1 e))

  with_issuer-sub :
      (ps : Props) → get "sub" (with_issuer c readers now db idp_base_url ps) ≡ get "sub" ps
  with_issuer-sub ps =
      if_both (λ qs. get "sub" qs ≡ get "sub" ps) (truthy (get "iss" ps)) _ _ refl
        (get-put_other "iss" "sub" (str idp_base_url) ps (eq_false "iss" "sub" refl))

  validated-Says :
      (user_did == "") ≡ false
      → is_credential_revoked db user_did r ≡ false
      → dependent_revoked db held ≡ false
      → (o : Validation) → validate_age_bracket_vc c readers now presented ≡ o
      → Says (validated c readers now db idp_base_url id_token user_did presented o)
  validated-Says named unrevoked free (invalid message) e = tt
  validated-Says named unrevoked free crashed e = tt
  validated-Says named unrevoked free (valid v) e = record {
    named = named;
    unrevoked = unrevoked;
    held_unrevoked = free;
    credential = v;
    accepted = e;
    sound = validate_age_bracket_vc-Sound c readers now presented v e;
    bracket = refl;
    wot_distance = refl;
    parent = (validate_age_bracket_vc-Sound c readers now presented v e).issuer;
    issued = refl;
    expires = refl;
    not_revoked = refl;
    subject =
        get-put_other "dep" "sub" _ _ (eq_false "dep" "sub" refl)
        ∙ with_issuer-sub (put "sub" (str user_did) id_token)
        ∙ get-put "sub" (str user_did) id_token;
    holds_claim = get-put "dep" _ _;
  }

  inject-Says :
      Says (inject_dependent_claims c readers now db idp_base_url id_token user_did attested r)
  unfolding inject_dependent_claims
  inject-Says =
      if_split Says (user_did == "") _ _ (λ e. tt)
        (λ named. if_both Says (not (truthy presented) && not (is_some held)) _ _ tt (
          if_split Says (is_credential_revoked db user_did r || dependent_revoked db held) _ _
            (λ e. tt) (λ e. validated-Says named (first _ _ e) (second _ _ e) _ refl)))
    where
      first : (a b : Bool) → (a || b) ≡ false → a ≡ false
      first false b h = refl
      first true b h = absurd (cc)

      second : (a b : Bool) → (a || b) ≡ false → b ≡ false
      second false b h = h
      second true b h = absurd (cc)

  -- inject_dependent_claims adds claims only for a DID that is not empty and not revoked, and from
  -- a credential that validate_age_bracket_vc accepts, which is sound. The token then is of that DID,
  -- and its claim holds the credential's bracket, its issuer as the parent, and its times, at distance
  -- 1 and not revoked.
  pub inject_dependent_claims-Injected :
      (claims dep : Props)
      → inject_dependent_claims c readers now db idp_base_url id_token user_did attested r
        ≡ injected claims dep
      → Injected claims dep
  inject_dependent_claims-Injected claims dep h = subst Says h inject-Says
