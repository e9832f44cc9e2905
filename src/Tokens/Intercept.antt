-- ===== src/Tokens/Intercept.antt =====
-- Which requests auth_bridge/middleware.py lets through.
use text.Mathlib.Text.{starts_with}
use iyou_idp.Prelude.{
  String, ◌≡◌, refl, Bool, true, false, ◌||◌, none, some, if◌then◌else◌, ◌==◌, subst,
}
use iyou_idp.Json.{
  Json, null, bool, int, float, str, arr, obj, Props, end, prop, get_or, truthy, is_text,
}
use iyou_idp.Server.{Response}
use iyou_idp.Tokens.{Registry, is_credential_revoked}
use iyou_idp.Tokens.Middleware.{
  Held, Grants, Request, grant_of, code_of, refresh_token_of, by_dep, by_id_token, bearer_token,
  token_blocked, grant_blocked, session_blocked, bearer_blocked, intercept, revocation_response,
}

no_block :
    (a b c d : Bool) (x : Response)
    → (if a || b || c || d then some x else none) ≡ none
    → (a ≡ false) × (b ≡ false) × (c ≡ false)
no_block false false false d x h = (refl, refl, refl)
no_block true b c d x h = absurd (cc)
no_block false true c d x h = absurd (cc)
no_block false false true d x h = absurd (cc)

second_false : (a b : Bool) → (a || b) ≡ false → b ≡ false
second_false false b h = h
second_false true b h = absurd (cc)

-- An id_token that is empty or missing, or an object whose claim `dep` is absent or an object.
pub data Readable : Json → Type 0 where
  empty : {v : Json} → truthy v ≡ false → Readable v
  object : {claims dep : Props} → get_or (obj end) "dep" claims ≡ obj dep → Readable (obj claims)

module _ (db : Bool) (r : Registry) (grants : Grants) (q : Request) where
  -- What a request that goes on has passed, for its user, its code and its bearer token.
  pub record Passed : Type 0 where
    pub user_live :
        (did : String)
        → q.user_did ≡ some did
        → (did == "") ≡ false
        → is_credential_revoked db did r ≡ false
    pub code_live :
        (held : Held)
        → q.is_token_endpoint ≡ true
        → is_text "refresh_token" (grant_of q) ≡ false
        → is_text "authorization_code" (grant_of q) ≡ true
        → truthy (code_of q) ≡ true
        → grants.by_code (code_of q) ≡ some held
        → (held.user_did == "") ≡ false
        → is_credential_revoked db held.user_did r ≡ false
    pub refresh_live :
        (held : Held)
        → q.is_token_endpoint ≡ true
        → is_text "refresh_token" (grant_of q) ≡ true
        → truthy (refresh_token_of q) ≡ true
        → grants.by_refresh_token (refresh_token_of q) ≡ some held
        → Readable held.id_token
        → (held.user_did == "") ≡ false
        → is_credential_revoked db held.user_did r ≡ false
    pub bearer_live :
        (held : Held)
        → starts_with q.authorization "Bearer " ≡ true
        → (bearer_token db r q == "") ≡ false
        → grants.by_access_token (bearer_token db r q) ≡ some held
        → Readable held.id_token
        → (held.user_did == "") ≡ false
        → is_credential_revoked db held.user_did r ≡ false

  user_passes :
      session_blocked db r q ≡ false
      → (did : String) → q.user_did ≡ some did
      → (did == "") ≡ false
      → is_credential_revoked db did r ≡ false
  unfolding session_blocked
  user_passes h did e named = second_false _ _ (rw (e, named) at h)

  code_passes :
      grant_blocked db r grants q ≡ false
      → (held : Held) → q.is_token_endpoint ≡ true
      → is_text "refresh_token" (grant_of q) ≡ false
      → is_text "authorization_code" (grant_of q) ≡ true
      → truthy (code_of q) ≡ true
      → grants.by_code (code_of q) ≡ some held
      → (held.user_did == "") ≡ false
      → is_credential_revoked db held.user_did r ≡ false
  unfolding grant_blocked
  code_passes h held endpoint no_refresh with_code present found named =
      rw (endpoint, no_refresh, with_code, present, found, named) at h

  refresh_passes :
      grant_blocked db r grants q ≡ false
      → q.is_token_endpoint ≡ true
      → is_text "refresh_token" (grant_of q) ≡ true
      → truthy (refresh_token_of q) ≡ true
      → token_blocked db r (grants.by_refresh_token (refresh_token_of q)) ≡ false
  unfolding grant_blocked
  refresh_passes h endpoint refreshes present = rw (endpoint, refreshes, present) at h

  by_dep_passes :
      (did : String) (v : Json) (dep : Props)
      → v ≡ obj dep
      → by_dep db r did v ≡ false
      → (did == "") ≡ false
      → is_credential_revoked db did r ≡ false
  by_dep_passes did v dep e h named = second_false _ _ (rw (e, named) at h)

  id_token_passes :
      (did : String) (v : Json)
      → Readable v
      → by_id_token db r did v ≡ false
      → (did == "") ≡ false
      → is_credential_revoked db did r ≡ false
  id_token_passes did (obj claims) (object {dep = dep} e) h named =
      by_dep_passes did _ dep e h named
  id_token_passes did (obj end) (empty e) h named = by_dep_passes did _ end refl h named
  id_token_passes did (obj (prop k u ps)) (empty e) h named = absurd (cc (e))
  id_token_passes did null (empty e) h named = rw (e, named) at h
  id_token_passes did (bool b) (empty e) h named = rw (e, named) at h
  id_token_passes did (int n) (empty e) h named = rw (e, named) at h
  id_token_passes did (float x n) (empty e) h named = rw (e, named) at h
  id_token_passes did (str s) (empty e) h named = rw (e, named) at h
  id_token_passes did (arr vs) (empty e) h named = rw (e, named) at h

  token_passes :
      (held : Held)
      → token_blocked db r (some held) ≡ false
      → Readable held.id_token
      → (held.user_did == "") ≡ false
      → is_credential_revoked db held.user_did r ≡ false
  token_passes held h readable named = id_token_passes held.user_did held.id_token readable h named

  -- A request that the middleware lets through has no user with a revoked DID, exchanges no code of
  -- one, and has no refresh or bearer token of one, where the id_token of the token is empty, or an
  -- object whose claim `dep` is absent or an object.
  pub intercept-Passed : intercept db r grants q ≡ none → Passed
  unfolding intercept bearer_blocked
  intercept-Passed h =
      let (grant, session, bearer) =
        no_block (grant_blocked db r grants q) (session_blocked db r q)
          (bearer_blocked db r grants q) q.dep_revoked (revocation_response) h in
      record {
        user_live = user_passes session;
        code_live = code_passes grant;
        refresh_live = λ held endpoint refreshes present found readable named.
            token_passes held
              (subst (λ o. token_blocked db r o ≡ false) found
                (refresh_passes grant endpoint refreshes present))
              readable named;
        bearer_live = λ held starts present found readable named.
            token_passes held (rw (starts, present, found) at bearer) readable named;
      }
