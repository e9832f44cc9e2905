-- ===== src/Views/Oauth.antt =====
-- auth_bridge/views_oauth.py: the configured providers and OAuthInitiateView.
-- Oauth/Profile has the profile extractors, Oauth/Callback has OAuthCallbackView.
pub mod Profile
pub mod Callback
pub mod Login
pub mod Laws
use Prim.Native.String.{◌++◌}
use iyou_idp.Prelude.{
  ℕ, String, Bool, true, false, ◌&&◌, Option, none, some, List, [], ◌∷◌, ◌++◌ as ◌++ₗ◌,
  if◌then◌else◌, ◌==◌,
}
use iyou_idp.Json.{Json, str, Props}
use iyou_idp.Server.{World, Env, Response, json, redirect}

abbrev pub Parameters : Type 0
Parameters = List (String × String)

-- What the views take from config/settings.py and from urllib, requests, base64 and json. A request
-- to a provider gives `none` where requests raises RequestException, its JSON body where not.
pub record Web : Type 0 where
  pub idp_base_url : String
  -- OAUTH_{PROVIDER}_CLIENT_ID and OAUTH_{PROVIDER}_CLIENT_SECRET
  pub client_id : (provider : String) → String
  pub client_secret : (provider : String) → String
  pub urlencode : Parameters → String
  pub post : (url : String) → Parameters → Option Json
  pub get_bearer : (url access_token : String) → Option Json
  -- str(value) of a value that is no text, and str.capitalize
  pub str_of : Json → String
  pub capitalize : String → String
  -- base64.urlsafe_b64encode(json.dumps(value).encode()) without its padding, and the way back with
  -- the padding restored, which gives `none` where it raises
  pub encode_segment : Props → String
  pub decode_segment : String → Option Json

pub record Provider : Type 0 where
  pub client_id : String
  pub client_secret : String
  pub authorization_endpoint : String
  pub token_endpoint : String
  pub userinfo_endpoint : Option String
  pub scope : String

-- A parameter of the query, or of the form; the empty text where it is absent.
pub record Query : Type 0 where
  pub query : String → String
  pub form : String → String

abbrev pub param : Query → String → String
param q key = if q.query key == "" then q.form key else q.query key

abbrev pub text_in : Web → Json → String
text_in web (str s) = s
text_in web v = web.str_of v

module _ (env : Env) (web : Web) where
  abbrev configured :
      (provider authorization token : String) → Option String → (scope : String) → Provider
  configured provider authorization token userinfo scope = record {
    client_id = web.client_id provider;
    client_secret = web.client_secret provider;
    authorization_endpoint = authorization;
    token_endpoint = token;
    userinfo_endpoint = userinfo;
    scope = scope;
  }

  -- settings.OAUTH_PROVIDERS
  unfoldable pub oauth_providers : (provider : String) → Option Provider
  oauth_providers provider =
      if provider == "google"
      then some (
          configured "google" "https://accounts.google.com/o/oauth2/v2/auth"
            "https://oauth2.googleapis.com/token"
            (some "https://www.googleapis.com/oauth2/v3/userinfo") "openid email profile")
      else if provider == "github"
      then some (
          configured "github" "https://github.com/login/oauth/authorize"
            "https://github.com/login/oauth/access_token" (some "https://api.github.com/user")
            "read:user user:email")
      else if provider == "apple"
      then some (
          configured "apple" "https://appleid.apple.com/auth/authorize"
            "https://appleid.apple.com/auth/token" none "name email")
      else none

  abbrev pub oauth_error : (status : ℕ) → (error description : String) → Response
  oauth_error status error description =
      json status (("error", str error) ∷ ("error_description", str description) ∷ [])

  abbrev pub callback_url : (provider : String) → String
  callback_url provider = web.idp_base_url ++ "/auth/oauth/callback/" ++ provider ++ "/"

  abbrev kept_next : (next_url : String) → Option String → Option String
  kept_next next_url before = if next_url == "" then before else some next_url

  -- The state, the provider and the next URL in the session.
  abbrev remembered : (provider : String) → Query → World → World
  remembered provider q w = record w {
    session = record w.session {
      oauth_state = some env.new_token;
      oauth_provider = some provider;
      oauth_next = kept_next (q.query "next") w.session.oauth_next;
    };
  }

  abbrev extra_parameters : (provider : String) → Parameters
  extra_parameters provider =
      if provider == "google"
      then ("access_type", "offline") ∷ ("prompt", "consent") ∷ []
      else if provider == "apple"
      then ("response_mode", "form_post") ∷ []
      else []

  abbrev authorization_url : (provider : String) → Provider → String
  authorization_url provider cfg =
      cfg.authorization_endpoint
      ++ "?"
      ++ web.urlencode (
          ("client_id", cfg.client_id)
            ∷ ("redirect_uri", callback_url provider)
            ∷ ("response_type", "code")
            ∷ ("scope", cfg.scope)
            ∷ ("state", env.new_token)
            ∷ []
          ++ₗ extra_parameters provider)

  abbrev mock_url : (provider : String) → String
  mock_url provider =
      callback_url provider
      ++ "?"
      ++ web.urlencode (("code", "mock-code-" ++ provider) ∷ ("state", env.new_token) ∷ [])

  abbrev initiate_with : (provider : String) → Query → World → Option Provider → World × Response
  initiate_with provider q w none = (
    w,
    oauth_error 400 "unsupported_provider"
        ("OAuth provider '" ++ provider ++ "' is not supported."),
  )
  initiate_with provider q w (some cfg) =
      if cfg.client_id == ""
      then (if env.settings.debug && (q.query "mock" == "true")
          then (remembered provider q w, redirect (mock_url provider))
          else (
            w,
            oauth_error 400 "unconfigured_provider" (
                "OAuth provider '" ++ provider
                ++ "' is not configured. Missing client credentials."),
          ))
      else (remembered provider q w, redirect (authorization_url provider cfg))

  -- OAuthInitiateView.get, which post calls too
  unfoldable pub initiate : (provider : String) → Query → World → World × Response
  unfolding oauth_providers
  initiate provider q w = initiate_with provider q w (oauth_providers provider)
