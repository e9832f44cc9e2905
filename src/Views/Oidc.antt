-- ===== src/Views/Oidc.antt =====
-- auth_bridge/views.py: _is_safe_public_redirect and _build_oidc_redirect.
pub mod Laws
use Prim.Native.String.{◌++◌}
use iyou_idp.Prelude.{
  ℕ, ◌+◌, ◌*◌, String, Bool, true, false, not, ◌&&◌, ◌||◌, Option, none, some, List, [], ◌∷◌, find,
  any, member, is_some, map, if◌then◌else◌, ◌==◌,
}
use iyou_idp.Text.{lower, split, contains, ends_with}
use iyou_idp.Json.{Json, str, obj, prop, end}
use iyou_idp.Server.{
  User, Client, Code, UserConsent, World, Env, Cache, put_key, none_or_empty, text_or, head_or,
  or_text,
}

abbrev is_public_host : String → Bool
is_public_host host = not (contains ".svc.cluster.local" host || ends_with ".cluster.local" host)

abbrev safe_host : Option (Option String) → Bool
safe_host none = false
safe_host (some host) = is_public_host (lower (text_or "" host))

module _ (env : Env) where
  unfoldable pub is_safe_public_redirect : String → Bool
  is_safe_public_redirect uri = if uri == "" then false else safe_host (env.hostname uri)

  abbrev pub wun_url : String
  wun_url = env.settings.idp_wun_url

  -- `next_url if _is_safe_public_redirect(next_url) else DEFAULT_NEXT_URL`
  abbrev pub safe_or_default : String → String
  safe_or_default url = if is_safe_public_redirect url then url else wun_url

  abbrev pub query_first : String → String → Option String
  query_first url key = head_or none (map some (env.query url key))

  -- The parameters of an authorize request that _build_oidc_redirect reads off a URL.
  pub record AuthorizeRequest : Type 0 where
    pub client_id : String
    pub redirect_uri : String
    pub scope : List String
    pub nonce : String
    pub state : String
    pub code_challenge : Option String

  -- A code is bound to the challenge only where there is one, and only S256 is taken.
  abbrev pub acceptable_challenge : Option String → Option String → Bool
  acceptable_challenge challenge method = none_or_empty challenge || text_or "" method == "S256"

  abbrev join_words : List String → String
  join_words [] = ""
  join_words (w ∷ []) = w
  join_words (w ∷ v ∷ ws) = w ++ " " ++ join_words (v ∷ ws)

  abbrev scope_of : String → List String
  scope_of url =
      split (elim (env.query url "scope") [ [] ↦ "openid" | w ∷ ws ↦ join_words (w ∷ ws) ])

  abbrev registered : String → String → List Client → Bool
  registered client_id redirect_uri clients = elim (find (λ c. c.client_id == client_id) clients) [
    | none ↦ false
    | some client ↦ member redirect_uri client.redirect_uris
  ]

  abbrev is_authorize_url : Option String → Option String → Option String → Bool
  is_authorize_url client_id redirect_uri response_type =
      not (none_or_empty client_id)
      && not (none_or_empty redirect_uri)
      && not (none_or_empty response_type)
      && contains "code" (text_or "" response_type)

  unfoldable pub authorize_request : String → List Client → Option AuthorizeRequest
  unfolding is_safe_public_redirect
  authorize_request url clients =
      let client_id = query_first url "client_id" in
      let redirect_uri = query_first url "redirect_uri" in
      let challenge = query_first url "code_challenge" in
      if is_authorize_url client_id redirect_uri (query_first url "response_type")
        && registered (text_or "" client_id) (text_or "" redirect_uri) clients
        && is_safe_public_redirect (text_or "" redirect_uri)
        && acceptable_challenge challenge (query_first url "code_challenge_method")
      then some (record {
        client_id = text_or "" client_id;
        redirect_uri = text_or "" redirect_uri;
        scope = scope_of url;
        nonce = text_or "" (query_first url "nonce");
        state = text_or "" (query_first url "state");
        code_challenge = challenge;
      })
      else none

  abbrev store_challenge : Option String → Cache → Cache
  store_challenge challenge cache =
      if none_or_empty challenge
      then cache
      else put_key ("pkce:" ++ env.new_code)
          (obj (
            prop "code_challenge" (str (text_or "" challenge))
              (prop "code_challenge_method" (str "S256") end)))
          cache

  abbrev same_consent : UserConsent → UserConsent → Bool
  same_consent a b = (a.user_id == b.user_id) && (a.client_id == b.client_id)

  -- get_or_create, and the update of the row
  abbrev keep_consent : UserConsent → List UserConsent → List UserConsent
  keep_consent c [] = c ∷ []
  keep_consent c (d ∷ ds) = elim (same_consent d c) [
    | true ↦ c ∷ ds
    | false ↦ d ∷ keep_consent c ds
  ]

  -- The code, its cached challenge and the consent of ninety days.
  unfoldable pub issue_code : User → AuthorizeRequest → World → World
  issue_code user r w = record w {
    codes =
        record {
          code = env.new_code;
          user_id = user.id;
          client_id = r.client_id;
          scope = r.scope;
          nonce = r.nonce;
          code_challenge = r.code_challenge;
        }
        ∷ w.codes;
    cache = store_challenge r.code_challenge w.cache;
    consents =
        keep_consent
          (record {
            user_id = user.id;
            client_id = r.client_id;
            scope = r.scope;
            date_given = env.now;
            expires_at = env.now + 90 * 86400;
          })
          w.consents;
  }

  -- The redirect that carries a fresh code, where the URL is an authorize request of a registered
  -- client; none where the caller falls back on the plain URL.
  unfoldable pub build_oidc_redirect : String → User → World → World × Option String
  unfolding authorize_request issue_code
  build_oidc_redirect url user w = elim (authorize_request url w.clients) [
    | none ↦ (w, none)
    | some r ↦ (
      issue_code user r w,
      some (r.redirect_uri ++ "?code=" ++ env.new_code ++ "&state=" ++ r.state),
    )
  ]

  -- `redirect_url = _build_oidc_redirect(...)`, or the safe next URL where that is None
  abbrev pub resume : String → User → World → World × String
  resume next_url user w =
      let (w', url) = build_oidc_redirect next_url user w in
      (w', text_or (safe_or_default next_url) url)
