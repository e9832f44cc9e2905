-- ===== src/Views/Oauth/Callback.antt =====
-- auth_bridge/views_oauth.py: OAuthCallbackView.
use Prim.Native.String.{◌++◌}
use iyou_idp.Prelude.{
  ℕ, String, Bool, true, false, not, ◌||◌, Option, none, some, [], ◌∷◌, if◌then◌else◌, ◌==◌,
}
use iyou_idp.Json.{Json, null, str, Props, obj, truthy}
use iyou_idp.Server.{User, World, Env, Response, json, redirect}
use iyou_idp.Server.Users.{request_user, establish}
use iyou_idp.Pipeline.{
  Outcome, permission_denied, value_error, logs_in, require_password_verification, dangling,
  process_oauth_identity,
}
use iyou_idp.Views.Gate.{gate_response}
use iyou_idp.Views.Oidc.{build_oidc_redirect}
use iyou_idp.Views.Email.{compare_digest}
use iyou_idp.Views.Oauth.{Web, Provider, Query, param, text_in, oauth_providers}
use iyou_idp.Views.Oauth.Profile.{
  Extracted, crashed, no_email, extracted, extractor, exchange_code, fetch_userinfo,
}

-- An exception that nothing catches: Django answers 500 and does not save the session.
abbrev pub uncaught : Response
uncaught = json 500 []

abbrev pub failed : (status : ℕ) → String → Response
failed status error = json status (("error", str error) ∷ [])

abbrev described : (status : ℕ) → (error description : String) → Response
described status error description =
    json status (("error", str error) ∷ ("error_description", str description) ∷ [])

abbrev pub without_state : World → World
without_state w = record w { session = record w.session { oauth_state = none } }

abbrev email_json : Option String → Json
email_json none = null
email_json (some email) = str email

module _ (env : Env) (web : Web) (provider : String) where
  abbrev pub without_next : World → World
  without_next w = record w { session = record w.session { oauth_next = none } }

  abbrev pub finish_at : User → World × String → World × Response
  finish_at user (w, target) =
      if user.show_legal_disclaimer
      then (w, redirect (env.disclaimer_url target))
      else (w, redirect target)

  abbrev pub or_pending : (pending_next : String) → World × Option String → World × String
  or_pending pending_next (w, none) = (w, pending_next)
  or_pending pending_next (w, some url) = (w, url)

  abbrev pub target_of : User → Option String → World → World × String
  target_of user none w = (w, env.settings.idp_wun_url)
  target_of user (some pending_next) w =
      if pending_next == ""
      then (w, env.settings.idp_wun_url)
      else or_pending pending_next (build_oidc_redirect env pending_next user w)

  abbrev pub established : User → World → World
  established user w = establish user ("oauth:" ++ provider) w

  abbrev pub past_gate : User → World → Option (World × Response) → World × Response
  past_gate user w (some blocked) = blocked
  past_gate user w none =
      let entered = established user w in
      finish_at user (target_of user entered.session.oauth_next (without_next entered))

  -- _complete_login
  unfoldable pub complete_login : User → World → World × Response
  complete_login user w = past_gate user w (gate_response env.settings w user.custodial_did none)

  -- `w` is the world before the request, `s` the one after the pipeline.
  abbrev pub after_pipeline : World → (uid : String) → World × Outcome → World × Response
  after_pipeline w uid (s, permission_denied message) = (s, described 403 "forbidden" message)
  after_pipeline w uid (s, value_error message) = (s, described 400 "invalid_request" message)
  after_pipeline w uid (s, dangling) = (w, uncaught)
  after_pipeline w uid (s, require_password_verification id email) = (
    s,
    json 409 (
        ("action", str "require_password_verification")
        ∷ ("user_id", str id)
        ∷ ("email", email_json email)
        ∷ ("pending_provider", str provider)
        ∷ ("pending_uid", str uid)
        ∷ []),
  )
  after_pipeline w uid (s, logs_in user) =
      if user.is_active then complete_login user s else (s, failed 403 "User account is disabled")

  abbrev pub identify : (uid : String) → (w s : World) → (email : Json) → World × Response
  identify uid w s (str email) =
      after_pipeline w uid
        (process_oauth_identity env provider uid email none true (request_user s) s)
  identify uid w s _ = (w, uncaught)

  abbrev pub with_profile : (w s : World) → Extracted → World × Response
  with_profile w s crashed = (w, uncaught)
  with_profile w s no_email =
      (s, described 403 "unverified_email" "No verified email found on GitHub account")
  with_profile w s (extracted profile) =
      if not (truthy profile.provider_uid) || not (truthy profile.email)
      then (s, failed 400 "Provider returned incomplete profile (missing ID or email)")
      else if not profile.email_verified
      then (s, described 403 "unverified_email" "OAuth provider did not assert email verification.")
      else identify (text_in web profile.provider_uid) w s profile.email

  abbrev pub with_extractor :
      (w s : World) → Props → Json → Option (Props → Json → Extracted) → World × Response
  with_extractor w s response userinfo none = (w, failed 500 "No profile extractor for provider")
  with_extractor w s response userinfo (some extract) = with_profile w s (extract response userinfo)

  abbrev pub with_userinfo : (w s : World) → Props → Option Json → World × Response
  with_userinfo w s response none = (w, uncaught)
  with_userinfo w s response (some userinfo) =
      with_extractor w s response userinfo (extractor env web provider)

  abbrev pub with_tokens : (w s : World) → Provider → Option Json → World × Response
  with_tokens w s cfg none = (s, failed 502 "Token exchange failed")
  with_tokens w s cfg (some null) = (s, failed 502 "Token exchange failed")
  with_tokens w s cfg (some (obj response)) =
      with_userinfo w s response (fetch_userinfo env web cfg response)
  with_tokens w s cfg (some _) = (w, uncaught)

  abbrev pub with_state : (w s : World) → Provider → Query → World × Response
  with_state w s cfg q =
      if not (param q "error" == "")
      then (
        s,
        json 400
            (("error", str (param q "error")) ∷ ("detail", str (param q "error_description")) ∷ []),
      )
      else if param q "code" == ""
      then (s, failed 400 "Missing authorization code")
      else with_tokens w s cfg (exchange_code env web cfg (param q "code") provider)

  abbrev pub refused : Response
  refused = failed 403 "Invalid or expired OAuth state"

  abbrev pub state_compared : (w s : World) → Provider → Query → Option Bool → World × Response
  state_compared w s cfg q none = (w, uncaught)
  state_compared w s cfg q (some false) = (s, refused)
  state_compared w s cfg q (some true) = with_state w s cfg q

  abbrev pub by_state : World → Provider → Query → Option String → World × Response
  by_state w cfg q none = (without_state w, refused)
  by_state w cfg q (some stored) =
      if stored == ""
      then (without_state w, refused)
      else state_compared w (without_state w) cfg q (compare_digest stored (str (param q "state")))

  abbrev pub configured_as : Query → World → Option Provider → World × Response
  configured_as q w none = (w, failed 400 "Unknown provider")
  configured_as q w (some cfg) = by_state w cfg q w.session.oauth_state

  -- OAuthCallbackView._handle
  unfoldable pub oauth_callback : Query → World → World × Response
  unfolding oauth_providers extractor exchange_code fetch_userinfo
  oauth_callback q w = configured_as q w (oauth_providers env web provider)
