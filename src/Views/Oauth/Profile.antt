-- ===== src/Views/Oauth/Profile.antt =====
-- auth_bridge/views_oauth.py: _decode_id_token, the profile extractors, and the requests to a provider.
use Prim.Native.String.{◌++◌}
use text.Mathlib.Text.{starts_with}
use iyou_idp.Prelude.{
  String, Bool, true, false, ◌&&◌, code, eqb, Option, none, some, [], ◌∷◌, if◌then◌else◌, ◌==◌,
}
use iyou_idp.Prelude.Int.{pos}
use iyou_idp.Text.{lower, strip, drop, len}
use iyou_idp.Json.{
  Json, bool, int, str, arr, obj, Items, nil, cons, Props, end, prop, get?, get, get_or, truthy, or,
}
use iyou_idp.Server.{Env}
use iyou_idp.Views.Oauth.{Web, Provider, callback_url, text_in}

-- The profile of _PROFILE_EXTRACTORS, with the JSON values that the provider gave.
pub record Profile : Type 0 where
  pub provider_uid : Json
  pub email : Json
  pub name : Json
  pub email_verified : Bool

-- A profile, the ValueError of a GitHub account without an address, or an exception that the view
-- does not catch.
pub data Extracted : Type 0 where
  crashed : Extracted
  no_email : Extracted
  extracted : Profile → Extracted

abbrev until_dot : String → String
until_dot String.[] = ""
until_dot (String.◌∷◌ c s) = if eqb (code c) 46 then "" else String.◌∷◌ c (until_dot s)

-- token.split(".")[1]
abbrev second_segment : String → Option String
second_segment String.[] = none
second_segment (String.◌∷◌ c s) = if eqb (code c) 46 then some (until_dot s) else second_segment s

-- `raw_ev is True or str(raw_ev).lower() == "true"`
abbrev asserted : Json → Bool
asserted (bool b) = b
asserted (str s) = lower s == "true"
asserted _ = false

module _ (env : Env) (web : Web) where
  abbrev claims_or_empty : Option Json → Json
  claims_or_empty none = obj end
  claims_or_empty (some v) = v

  abbrev decode_text : Option String → Json
  decode_text none = obj end
  decode_text (some segment) = claims_or_empty (web.decode_segment segment)

  unfoldable pub decode_id_token : Json → Json
  decode_id_token (obj claims) = obj claims
  decode_id_token (str token) = if token == "" then obj end else decode_text (second_segment token)
  decode_id_token _ = obj end

  abbrev token_claims : Props → Option Json → Json
  token_claims response none = obj response
  token_claims response (some token) = decode_id_token token

  abbrev google_of : Json → Json → Extracted
  google_of (obj claims) (obj userinfo) = extracted (record {
    provider_uid = or (get "sub" claims) (get_or (str "") "sub" userinfo);
    email = or (get "email" claims) (get_or (str "") "email" userinfo);
    name = or (get_or (str "") "name" userinfo) (get_or (str "") "name" claims);
    email_verified =
        asserted (or (get "email_verified" claims) (get_or (bool false) "email_verified" userinfo));
  })
  google_of _ _ = crashed

  -- userinfo or {}
  abbrev or_empty : Json → Json
  or_empty v = if truthy v then v else obj end

  unfoldable pub extract_google_profile : (token_response : Props) → (userinfo : Json) → Extracted
  unfolding decode_id_token
  extract_google_profile response userinfo =
      google_of (token_claims response (get? "id_token" response)) (or_empty userinfo)

  -- The first address that is primary and verified; `none` where the loop raises.
  abbrev primary_email : Items → Option Json
  primary_email nil = some (str "")
  primary_email (cons (obj entry) entries) =
      if truthy (get "primary" entry) && truthy (get "verified" entry)
      then get? "email" entry
      else primary_email entries
  primary_email (cons _ entries) = none

  abbrev primary_in : Option Json → Option Json
  primary_in none = some (str "")
  primary_in (some (arr entries)) = primary_email entries
  primary_in (some (obj end)) = some (str "")
  primary_in (some (str s)) = if s == "" then some (str "") else none
  primary_in (some _) = none

  unfoldable pub fetch_github_primary_email : (access_token : String) → Option Json
  fetch_github_primary_email access_token =
      if env.settings.debug && starts_with access_token "mock-"
      then some (str "mock-github-user@iyou.me")
      else primary_in (web.get_bearer "https://api.github.com/user/emails" access_token)

  abbrev github_of : Json → Option Json → Extracted
  github_of userinfo none = crashed
  github_of (obj userinfo) (some email) =
      if truthy email
      then extracted (record {
        provider_uid = str (text_in web (get_or (str "") "id" userinfo));
        email = email;
        name = or (get "name" userinfo) (get_or (str "") "login" userinfo);
        email_verified = true;
      })
      else no_email
  github_of _ (some email) = if truthy email then crashed else no_email

  unfoldable pub extract_github_profile : (token_response : Props) → (userinfo : Json) → Extracted
  unfolding fetch_github_primary_email
  extract_github_profile response userinfo =
      github_of (or_empty userinfo)
        (fetch_github_primary_email (text_in web (get_or (str "") "access_token" response)))

  unfoldable pub build_apple_name : Props → String
  build_apple_name claims = elim (get_or (obj end) "name" claims) [
    | obj name ↦ strip (
        text_in web (get_or (str "") "firstName" name)
        ++ " "
        ++ text_in web (get_or (str "") "lastName" name))
    | _ ↦ ""
  ]

  abbrev apple_of : Json → Extracted
  apple_of (obj claims) = extracted (record {
    provider_uid = get_or (str "") "sub" claims;
    email = get_or (str "") "email" claims;
    name = str (build_apple_name claims);
    email_verified = asserted (get_or (bool false) "email_verified" claims);
  })
  apple_of _ = crashed

  unfoldable pub extract_apple_profile : (token_response : Props) → (userinfo : Json) → Extracted
  unfolding decode_id_token build_apple_name
  extract_apple_profile response userinfo =
      apple_of (token_claims response (get? "id_token" response))

  -- _PROFILE_EXTRACTORS.get(provider)
  unfoldable pub extractor : (provider : String) → Option (Props → Json → Extracted)
  unfolding extract_google_profile extract_github_profile extract_apple_profile
  extractor provider =
      if provider == "google"
      then some extract_google_profile
      else if provider == "github"
      then some extract_github_profile
      else if provider == "apple"
      then some extract_apple_profile
      else none

  abbrev mock_claims : (provider : String) → Props
  mock_claims provider = prop "sub" (str ("mock-" ++ provider ++ "-uid-12345")) (
      prop "email" (str ("mock-" ++ provider ++ "-user@iyou.me")) (
        prop "email_verified" (bool true)
          (prop "name" (str ("Mock " ++ web.capitalize provider ++ " User")) end)))

  abbrev mock_tokens : (provider : String) → Json
  mock_tokens provider = obj (
      prop "access_token" (str ("mock-access-token-" ++ provider)) (
        prop "id_token"
          (str ("eyJhbGciOiJub25lIn0." ++ web.encode_segment (mock_claims provider) ++ "."))
          (prop "token_type" (str "Bearer") (prop "expires_in" (int (pos 3600)) end))))

  -- OAuthCallbackView._exchange_code
  unfoldable pub exchange_code : Provider → (code provider : String) → Option Json
  exchange_code cfg code provider =
      if env.settings.debug && starts_with code "mock-code-"
      then some (mock_tokens provider)
      else web.post cfg.token_endpoint (
          ("client_id", cfg.client_id)
          ∷ ("client_secret", cfg.client_secret)
          ∷ ("code", code)
          ∷ ("redirect_uri", callback_url env web provider)
          ∷ ("grant_type", "authorization_code")
          ∷ [])

  -- access_token.replace("mock-access-token-", ""), of a token that begins with it and
  -- has it once
  abbrev mock_provider : (access_token : String) → String
  mock_provider access_token = drop (len "mock-access-token-") access_token

  abbrev mock_userinfo : (provider : String) → Json
  mock_userinfo provider = obj (
      prop "sub" (str ("mock-" ++ provider ++ "-uid-12345")) (
        prop "id" (str ("mock-" ++ provider ++ "-uid-12345")) (
          prop "email" (str ("mock-" ++ provider ++ "-user@iyou.me")) (
            prop "email_verified" (bool true) (
              prop "name" (str ("Mock " ++ web.capitalize provider ++ " User"))
                (prop "login" (str ("mock-" ++ provider ++ "-user")) end))))))

  abbrev userinfo_at : (access_token : Json) → Option String → Json
  userinfo_at access_token none = obj end
  userinfo_at access_token (some endpoint) =
      if endpoint == ""
      then obj end
      else if truthy access_token
      then claims_or_empty (web.get_bearer endpoint (text_in web access_token))
      else obj end

  -- `none` where `access_token.startswith` raises, which DEBUG reaches.
  abbrev userinfo_for : Provider → (access_token : Json) → Option Json
  userinfo_for cfg (str token) =
      if env.settings.debug && starts_with token "mock-access-token-"
      then some (mock_userinfo (mock_provider token))
      else some (userinfo_at (str token) cfg.userinfo_endpoint)
  userinfo_for cfg v =
      if env.settings.debug then none else some (userinfo_at v cfg.userinfo_endpoint)

  -- OAuthCallbackView._fetch_userinfo
  unfoldable pub fetch_userinfo : Provider → (token_response : Props) → Option Json
  fetch_userinfo cfg response = userinfo_for cfg (get_or (str "") "access_token" response)
