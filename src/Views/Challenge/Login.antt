-- ===== src/Views/Challenge/Login.antt =====
-- auth_bridge/views.py: check_challenge_status and verify_signature, which open a session.
use iyou_idp.Prelude.{String, Bool, true, false, not, Option, none, some, [], ◌∷◌, if◌then◌else◌}
use iyou_idp.Json.{Json, bool, str, obj, Props, prop, end, get?, is_text}
use iyou_idp.Crypto.{Crypto}
use iyou_idp.Server.{User, World, Env, Response, json, delete_key}
use iyou_idp.Server.Users.{get_or_create, evaluate_sovereign_admin_posture, establish}
use iyou_idp.Views.Gate.{gate_response}
use iyou_idp.Views.Oidc.{resume, safe_or_default}
use iyou_idp.Views.Challenge.{
  error_json, unsigned, server_error, next_text, Submission, submission_of, loaded,
  dev_bypass_enabled,
}
use iyou_idp.Views.Challenge.Presentation.{
  Check, refused, crashed, proven, unproven, bridged, check_presentation,
}

abbrev pub dropped : String → World → World
dropped challenge w = record w { cache = delete_key challenge w.cache }

-- The JSON reply of a login.
abbrev pub logged_in : String → User → Bool → Response
logged_in url user created = json 200 (
    ("success", bool true)
    ∷ ("redirect_url", str url)
    ∷ ("show_legal_disclaimer", bool user.show_legal_disclaimer)
    ∷ (
      "user",
      obj (
          prop "did" (str user.custodial_did) (
            prop "is_new_user" (bool created) (
              prop "is_authenticated" (bool true)
                (prop "show_legal_disclaimer" (bool user.show_legal_disclaimer) end)))),
    )
    ∷ [])

module _ (env : Env) where
  -- The user row of a DID, made where it is not there, with the operator's DID elevated.
  unfoldable pub resolve_user : String → World → World × User × Bool
  resolve_user did w =
      let (users, found, created) = get_or_create env.new_id did w.users in
      let (users', user) = evaluate_sovereign_admin_posture env.settings found users in
      (record w { users = users' }, user, created)

  -- Behind the gate: a blocked DID has its challenge dropped as well.
  abbrev pub gated : String → Option (World × Response) → World × Response → World × Response
  gated challenge none rest = rest
  gated challenge (some (w, blocked)) rest = (dropped challenge w, blocked)

  unfoldable pub finish_status : String → String → String → World → World × Response
  finish_status challenge_id did next_url w =
      let (w1, user, created) = resolve_user did w in
      let (w2, url) = resume env next_url user (establish user "did:oob_qr" w1) in
      if not user.is_active
      then (w1, json 403 (("solved", bool false) ∷ ("error", str "User account is disabled") ∷ []))
      else (
        dropped challenge_id w2,
        json 200 (
            ("solved", bool true)
            ∷ ("redirect_url", str url)
            ∷ ("show_legal_disclaimer", bool user.show_legal_disclaimer)
            ∷ []),
      )

  -- `cached["did"]` of a solved challenge
  abbrev pub polled_did : String → String → World → Option Json → World × Response
  polled_did id next_url w (some (str did)) =
      gated id (gate_response env.settings w did (some next_url)) (finish_status id did next_url w)
  polled_did id next_url w _ = (w, server_error)

  abbrev pub polled_status : String → Props → World → Option Json → World × Response
  polled_status id cached w (some status) =
      if is_text "solved" status
      then polled_did id (next_text env.settings.idp_wun_url (get? "next_url" cached)) w
          (get? "did" cached)
      else (w, json 200 (("solved", bool false) ∷ []))
  polled_status id cached w none = (w, server_error)

  abbrev pub polled : String → World → Option Json → World × Response
  polled id w none = (w, error_json 404 "Challenge not found or expired")
  polled id w (some (obj cached)) = polled_status id cached w (get? "status" cached)
  polled id w (some _) = (w, server_error)

  unfoldable pub check_challenge_status : String → World → World × Response
  unfolding finish_status
  check_challenge_status challenge_id w = polled challenge_id w (w.cache challenge_id)

  -- verify_signature once the root proof holds, or the bypass is taken: the plain next URL.
  unfoldable pub finish_root : String → String → String → World → World × Response
  finish_root challenge did next_url w =
      let (w1, user, created) = resolve_user did w in
      if not user.is_active then (w1, error_json 403 "User account is disabled") else (
        dropped challenge (establish user "did:websocket" w1),
        logged_in (safe_or_default env next_url) user created,
      )

  -- The same after the Rust bridge, where the challenge is dropped first.
  unfoldable pub finish_bridged : String → String → World → World × Response
  finish_bridged did next_url w =
      let (w1, user, created) = resolve_user did w in
      let (w2, url) = resume env next_url user (establish user "did:websocket" w1) in
      if not user.is_active
      then (w1, error_json 403 "User account is disabled")
      else (w2, logged_in url user created)

  -- The bypass answers 401 for a disabled account.
  unfoldable pub finish_bypass : String → String → String → World → World × Response
  finish_bypass challenge did next_url w =
      let (w1, user, created) = resolve_user did w in
      if not user.is_active
      then (w1, error_json 401 "Invalid master key signature")
      else finish_root challenge did next_url w

  abbrev pub web_outcome : Submission → (remote_ip : String) → World → Check → World × Response
  web_outcome s ip w (refused status message) = (w, json status (("error", message) ∷ []))
  web_outcome s ip w crashed = (w, server_error)
  web_outcome s ip w (proven did) =
      gated s.challenge (gate_response env.settings w did (some s.next_url))
        (finish_root s.challenge did s.next_url w)
  web_outcome s ip w (unproven did) =
      if dev_bypass_enabled env ip
      then gated s.challenge (gate_response env.settings w did (some s.next_url))
          (finish_bypass s.challenge did s.next_url w)
      else (w, unsigned)
  web_outcome s ip w (bridged did) =
      let w' = dropped s.challenge w in
      gated s.challenge (gate_response env.settings w' did (some s.next_url))
        (finish_bridged did s.next_url w')

  module _ (c : Crypto) where
    abbrev pub web_loaded : Submission → String → World → Option Json → World × Response
    web_loaded s ip w none = (w, error_json 400 "Invalid JSON payload")
    web_loaded s ip w (some vp) = web_outcome s ip w (check_presentation c true s.challenge vp)

    abbrev pub web_cached : Submission → String → World → Option Json → World × Response
    web_cached s ip w none = (w, error_json 400 "Challenge expired")
    web_cached s ip w (some entry) =
        if not c.rust_bridge
        then (w, error_json 500 "Rust Crypto Bridge not found.")
        else web_loaded s ip w (loaded c s.presentation)

    abbrev pub web_submitted : String → World → Option Submission → World × Response
    web_submitted ip w none =
        (w, error_json 400 "Missing required fields: verifiable_presentation, challenge")
    web_submitted ip w (some s) = web_cached s ip w (w.cache s.challenge)

    unfoldable pub verify_signature : (remote_ip : String) → Option Json → World → World × Response
    unfolding finish_root finish_bridged finish_bypass
    verify_signature ip none w = (w, error_json 400 "Invalid JSON payload")
    verify_signature ip (some (obj body)) w = web_submitted ip w (submission_of env body)
    verify_signature ip (some _) w = (w, server_error)
