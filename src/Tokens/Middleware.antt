-- ===== src/Tokens/Middleware.antt =====
-- auth_bridge/middleware.py: DependentRevocationMiddleware.
use text.Mathlib.Text.{starts_with}
use iyou_idp.Prelude.{
  String, Bool, false, not, ◌&&◌, ◌||◌, Option, none, some, [], ◌∷◌, if◌then◌else◌, ◌==◌,
}
use iyou_idp.Text.{strip, drop}
use iyou_idp.Json.{Json, str, obj, end, get, get_or, truthy, or, is_text, is_true}
use iyou_idp.Server.{Response, json}
use iyou_idp.Tokens.{Registry, is_credential_revoked}

-- A row of django-oidc-provider: the DID of its user, and the id_token of a token. A refresh token
-- without a user has the empty DID.
pub record Held : Type 0 where
  pub user_did : String
  pub id_token : Json

-- The rows that the queries find; `none` for no row or a query that raises, and for an access token
-- or a code without a user.
pub record Grants : Type 0 where
  pub by_refresh_token : (refresh_token : Json) → Option Held
  pub by_access_token : (access_token : String) → Option Held
  pub by_code : (code : Json) → Option Held

-- What the middleware reads of a request: the form values, json.loads of the body, the DID of the
-- user who is authenticated, the claim `dep` of the session, and two headers.
pub record Request : Type 0 where
  pub is_token_endpoint : Bool
  pub grant_type : Json
  pub refresh_token : Json
  pub code : Json
  pub body : Option Json
  pub user_did : Option String
  pub session_dep : Json
  pub authorization : String
  pub dep_revoked : Bool

abbrev pub revocation_response : Response
revocation_response = json 403 (
    ("error", str "DependentSessionRevoked")
    ∷ ("error_description", str "Dependent session has been revoked by parent authority.")
    ∷ [])

-- A value of the form, or of the body where the form has no grant type.
abbrev from_body : (key : String) → (form : Json) → Request → Json
from_body key form q = elim q.body [
  | some (obj ps) ↦ if truthy q.grant_type then form else or form (get key ps)
  | _ ↦ form
]

abbrev pub grant_of : Request → Json
grant_of q = elim q.body [
  | some (obj ps) ↦ if truthy q.grant_type then q.grant_type else get "grant_type" ps
  | _ ↦ q.grant_type
]

abbrev pub refresh_token_of : Request → Json
refresh_token_of q = from_body "refresh_token" q.refresh_token q

abbrev pub code_of : Request → Json
code_of q = from_body "code" q.code q

module _ (db : Bool) (r : Registry) where
  abbrev did_revoked : (did : String) → Bool
  did_revoked did = if did == "" then false else is_credential_revoked db did r

  abbrev pub by_dep : (did : String) → Json → Bool
  by_dep did (obj dep) = is_true (get "revoked" dep) || did_revoked did
  by_dep did _ = false

  -- A claim that is no object raises, and that is caught: the token is not blocked.
  abbrev pub by_id_token : (did : String) → Json → Bool
  by_id_token did (obj claims) = by_dep did (get_or (obj end) "dep" claims)
  by_id_token did v = if truthy v then false else did_revoked did

  abbrev pub token_blocked : Option Held → Bool
  token_blocked none = false
  token_blocked (some held) = by_id_token held.user_did held.id_token

  abbrev pub code_blocked : Option Held → Bool
  code_blocked none = false
  code_blocked (some held) = did_revoked held.user_did

  -- 1. The token endpoint.
  unfoldable pub grant_blocked : Grants → Request → Bool
  grant_blocked grants q =
      if not q.is_token_endpoint
      then false
      else if is_text "refresh_token" (grant_of q) && truthy (refresh_token_of q)
      then token_blocked (grants.by_refresh_token (refresh_token_of q))
      else if is_text "authorization_code" (grant_of q) && truthy (code_of q)
      then code_blocked (grants.by_code (code_of q))
      else false

  abbrev session_says : Json → Bool
  session_says (obj dep) = is_true (get "revoked" dep)
  session_says _ = false

  abbrev user_blocked : Json → Option String → Bool
  user_blocked dep none = false
  user_blocked dep (some did) =
      if did == "" then false else session_says dep || is_credential_revoked db did r

  -- 2. The authenticated user.
  unfoldable pub session_blocked : Request → Bool
  session_blocked q = user_blocked q.session_dep q.user_did

  abbrev pub bearer_token : Request → String
  bearer_token q = strip (drop 7 q.authorization)

  -- 3. The bearer token.
  unfoldable pub bearer_blocked : Grants → Request → Bool
  bearer_blocked grants q =
      if not (starts_with q.authorization "Bearer ")
      then false
      else if bearer_token q == ""
      then false
      else token_blocked (grants.by_access_token (bearer_token q))

  -- DependentRevocationMiddleware.__call__; none where the request goes on to get_response
  unfoldable pub intercept : Grants → Request → Option Response
  unfolding grant_blocked session_blocked bearer_blocked is_credential_revoked
  intercept grants q =
      if grant_blocked grants q || session_blocked q || bearer_blocked grants q || q.dep_revoked
      then some revocation_response
      else none
