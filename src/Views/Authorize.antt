-- ===== src/Views/Authorize.antt =====
-- auth_bridge/views.py: SovereignAuthorizeView, acknowledge_legal_disclaimer and the PKCE gate of
-- PkceTokenView, before django-oidc-provider.
pub mod Laws
use Prim.Native.String.{◌++◌}
use iyou_idp.Prelude.{
  ℕ, String, Bool, true, false, not, ◌&&◌, ◌||◌, Option, none, some, List, [], ◌∷◌, member,
  if◌then◌else◌, ◌==◌,
}
use iyou_idp.Prelude.Int.{pos}
use iyou_idp.Text.{lower}
use iyou_idp.Json.{Json, bool, int, str, obj, Props, get?, get_or, truthy, is_text}
use iyou_idp.Server.{
  User, World, Session, Env, Response, json, redirect, delete_key, text_or, none_or_empty,
}
use iyou_idp.Server.Users.{save, request_user}
use iyou_idp.Views.Gate.{gate_response}
use iyou_idp.Views.Oidc.{safe_or_default}

module _ (env : Env) where
  abbrev pub refused_method : Session → Bool
  refused_method s = member (text_or "" s.auth_method) ("password" ∷ "unverified" ∷ [])

  abbrev access_denied : Response
  access_denied = json 403 (
      ("error", str "access_denied")
      ∷ (
        "error_description",
        str "Legacy password or unverified authentication is not permitted for OIDC issuance.",
      )
      ∷ [])

  abbrev pub disclaimer_first : (path : String) → (shown : Bool) → World → Option (World × Response)
  disclaimer_first path false w = none
  disclaimer_first path true w = some (
    record w { session = record w.session { post_disclaimer_redirect = some path } },
    redirect (env.disclaimer_url path),
  )

  abbrev pub after_gate :
      (path : String) → User → World → Option (World × Response) → Option (World × Response)
  after_gate path user w (some blocked) = some blocked
  after_gate path user w none = disclaimer_first path user.show_legal_disclaimer w

  abbrev pub guard_user : (path : String) → World → Option User → Option (World × Response)
  guard_user path w none = none
  guard_user path w (some user) =
      if refused_method w.session
      then some (w, access_denied)
      else after_gate path user w (gate_response env.settings w user.custodial_did none)

  abbrev pub or_library :
      (World → World × Response) → World → Option (World × Response) → World × Response
  or_library library w none = library w
  or_library library w (some stopped) = stopped

  -- SovereignAuthorizeView.get; `library` is what it does with django-oidc-provider, which issues
  -- the code, and `path` is request.get_full_path().
  unfoldable pub sovereign_authorize :
      (path : String) → (library : World → World × Response) → World → World × Response
  sovereign_authorize path library w = or_library library w (guard_user path w (request_user w))

  -- data.get('consent_accepted', data.get('consent', False))
  abbrev pub consents : Props → Bool
  consents body = elim (get_or (get_or (bool false) "consent" body) "consent_accepted" body) [
    | str s ↦ member (lower s) ("true" ∷ "1" ∷ "yes" ∷ "on" ∷ [])
    | v ↦ truthy v
  ]

  abbrev next_of : Json → String
  next_of (str s) = safe_or_default env s
  next_of _ = env.settings.idp_wun_url

  abbrev redirect_after : Option String → Props → String
  redirect_after stored body =
      if none_or_empty stored
      then next_of (get_or (get_or (str "") "next" body) "next_url" body)
      else safe_or_default env (text_or "" stored)

  abbrev pub acknowledged : User → User
  acknowledged u = record u {
    show_legal_disclaimer = false;
    disclaimer_acknowledged_at = some env.now;
  }

  abbrev pub acknowledged_world : User → World → World
  acknowledged_world user w = record w {
    users = save (acknowledged user) w.users;
    session = record w.session {
      show_legal_disclaimer = some false;
      post_disclaimer_redirect = none;
    };
  }

  abbrev pub acknowledge : Props → World → Option User → World × Response
  acknowledge body w none = (w, json 401 (("error", str "authentication_required") ∷ []))
  acknowledge body w (some user) =
      if consents body
      then (
        acknowledged_world user w,
        json 200 (
            ("success", bool true)
            ∷ ("redirect_url", str (redirect_after w.session.post_disclaimer_redirect body))
            ∷ ("show_legal_disclaimer", bool false)
            ∷ ("disclaimer_acknowledged_at", int (pos env.now))
            ∷ []),
      )
      else (w, json 400 (("error", str "consent_required") ∷ ("success", bool false) ∷ []))

  -- acknowledge_legal_disclaimer, on the fields of the JSON object or of the form
  unfoldable pub acknowledge_legal_disclaimer : Props → World → World × Response
  acknowledge_legal_disclaimer body w = acknowledge body w (request_user w)

-- What PkceTokenView does with a cached challenge. `challenge_of` is the unpadded base64url text of
-- the SHA-256 of an ASCII verifier, and none where the verifier is not ASCII.
module _ (challenge_of : String → Option String) where
  abbrev pub pkce_key : String → String
  pkce_key code = "pkce:" ++ code

  abbrev pub shredded : (code : String) → World → World
  shredded code w = record w { cache = delete_key (pkce_key code) w.cache }

  abbrev oauth_error : (error description : String) → Response
  oauth_error error description =
      json 400 (("error", str error) ∷ ("error_description", str description) ∷ [])

  abbrev pub compared : (code : String) → World → Json → Option String → World × Option Response
  compared code w (str stored) (some computed) =
      if computed == stored
      then (shredded code w, none)
      else (shredded code w, some (oauth_error "invalid_grant" "Code verifier mismatch"))
  compared code w _ _ = (w, some (json 500 []))

  abbrev pub with_method :
      (code verifier : String) → World → Props → Option Json → World × Option Response
  with_method code verifier w entry none = (w, some (json 500 []))
  with_method code verifier w entry (some stored) =
      if is_text "S256" (get_or (str "S256") "code_challenge_method" entry)
      then compared code w stored (challenge_of verifier)
      else (
        shredded code w,
        some (oauth_error "invalid_request" "Only S256 code challenge method is supported"),
      )

  abbrev pub with_pkce : (code verifier : String) → World → Option Json → World × Option Response
  with_pkce code verifier w none = (w, none)
  with_pkce code verifier w (some (obj entry)) =
      with_method code verifier w entry (get? "code_challenge" entry)
  with_pkce code verifier w (some _) = (w, some (json 500 []))

  -- PkceTokenView.post up to the library's token view, which runs where there is no response.
  unfoldable pub pkce_gate : (code verifier : String) → World → World × Option Response
  pkce_gate code verifier w =
      if code == "" || verifier == ""
      then (w, none)
      else with_pkce code verifier w (w.cache (pkce_key code))
