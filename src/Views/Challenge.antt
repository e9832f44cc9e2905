-- ===== src/Views/Challenge.antt =====
-- auth_bridge/views.py: ChallengeView, mobile_verify_signature and check_challenge_status, the
-- login by a QR code. A challenge is an entry of the cache: pending, then solved by a DID.
pub mod Presentation
pub mod Login
pub mod Safety
pub mod Proof
pub mod Replay
use iyou_idp.Prelude.{
  ℕ, String, Bool, true, false, not, ◌&&◌, ◌||◌, Option, none, some, List, [], ◌∷◌, is_some,
  if◌then◌else◌, ◌==◌,
}
use iyou_idp.Json.{
  Json, null, bool, int, str, obj, Props, end, prop, get?, get, get_or, put, truthy, is_text,
  is_null,
}
use iyou_idp.Prelude.Int.{pos}
use iyou_idp.Server.{User, World, Env, Response, json, put_key, delete_key, text_or}
use iyou_idp.Server.Users.{get_or_create, evaluate_sovereign_admin_posture, establish}
use iyou_idp.Views.Gate.{gate_response}
use iyou_idp.Views.Oidc.{resume, wun_url}
use iyou_idp.Crypto.{Crypto}
use iyou_idp.Views.Challenge.Presentation.{
  Check, refused, crashed, proven, unproven, bridged, check_presentation,
}

abbrev pub error_json : (status : ℕ) → String → Response
error_json status message = json status (("error", str message) ∷ [])

abbrev pub server_error : Response
server_error = error_json 500 "Internal server error"

abbrev pub unsigned : Response
unsigned = json 401 (("valid", bool false) ∷ ("error", str "Signature verification failed") ∷ [])

-- {"status": "pending", "did": None, "next_url": next_url}
abbrev pub pending : Json → Json
pending next_url =
    obj (prop "status" (str "pending") (prop "did" null (prop "next_url" next_url end)))

abbrev pub next_json : String → Option Props → Json
next_json d none = str d
next_json d (some body) = get_or (str d) "next_url" body

-- ChallengeView.post; a body that is no JSON object reads as {}
unfoldable pub create_challenge : Env → Option Props → World → World × Response
create_challenge env body w =
    let next_url = next_json env.settings.idp_wun_url body in
    (
      record w { cache = put_key env.new_id (pending next_url) w.cache },
      json 200 (
          ("challenge", str env.new_id)
          ∷ ("expires_in", int (pos 300))
          ∷ ("stored", bool true)
          ∷ []),
    )

abbrev pub next_text : String → Option Json → String
next_text d (some (str s)) = s
next_text d _ = d

-- The two fields of a request of either verification, once they are there.
pub record Submission : Type 0 where
  pub presentation : Json
  pub challenge : String
  pub next_url : String

-- What a submission holds; a challenge that is no text is answered as a missing one here, where the
-- source goes on and finds no such challenge in the cache.
abbrev pub submission_of : Env → Props → Option Submission
submission_of env body =
    let vp = get "verifiable_presentation" body in
    elim (get "challenge" body) [
      | str challenge ↦
          if not (truthy vp) || challenge == ""
          then none
          else some (record {
            presentation = vp;
            challenge = challenge;
            next_url = next_text env.settings.idp_wun_url (get? "next_url" body);
          })
      | _ ↦ none
    ]

module _ (c : Crypto) where
  -- `if isinstance(vp_json, str): vp_json = json.loads(vp_json)`
  abbrev pub loaded : Json → Option Json
  loaded (str s) = c.json_loads (c.encode_utf8 s)
  loaded v = some v

module _ (env : Env) where
  -- DEBUG with a loopback address or the development switch, or the emergency switch
  unfoldable pub dev_bypass_enabled : (remote_ip : String) → Bool
  dev_bypass_enabled remote_ip =
      let is_loopback =
        remote_ip == "127.0.0.1"
        || remote_ip == "::1"
        || remote_ip == "localhost"
        || remote_ip == "::ffff:127.0.0.1" in
      (env.settings.debug && (is_loopback || env.settings.enable_dev_auth_bypass))
      || env.settings.allow_emergency_bypass

module _ (c : Crypto) (env : Env) where
  abbrev pub solved : String → Props → Json
  solved did cached = obj (put "did" (str did) (put "status" (str "solved") cached))

  abbrev pub solve : String → String → Props → World → World × Response
  solve challenge did cached w = (
    record w { cache = put_key challenge (solved did cached) w.cache },
    json 200 (("solved", bool true) ∷ []),
  )

  -- The end of mobile_verify_signature, by the outcome of the checks.
  abbrev pub mobile_outcome :
      String → (remote_ip : String) → Props → World → Check → World × Response
  mobile_outcome challenge ip cached w (refused status message) =
      (w, json status (("error", message) ∷ []))
  mobile_outcome challenge ip cached w crashed = (w, server_error)
  mobile_outcome challenge ip cached w (proven did) = solve challenge did cached w
  mobile_outcome challenge ip cached w (bridged did) = solve challenge did cached w
  mobile_outcome challenge ip cached w (unproven did) =
      if dev_bypass_enabled env ip then solve challenge did cached w else (w, unsigned)

  abbrev pub mobile_loaded : Submission → String → Props → World → Option Json → World × Response
  mobile_loaded s ip cached w none = (w, error_json 400 "Invalid JSON payload")
  mobile_loaded s ip cached w (some vp) =
      mobile_outcome s.challenge ip cached w (check_presentation c false s.challenge vp)

  abbrev pub mobile_status : Submission → String → Props → World → Option Json → World × Response
  mobile_status s ip cached w none = (w, server_error)
  mobile_status s ip cached w (some status) =
      if is_text "solved" status
      then (w, error_json 400 "Challenge already solved")
      else if not c.rust_bridge
      then (w, error_json 500 "Rust Crypto Bridge not found.")
      else mobile_loaded s ip cached w (loaded c s.presentation)

  abbrev pub mobile_cached : Submission → String → World → Option Json → World × Response
  mobile_cached s ip w (some (obj cached)) = mobile_status s ip cached w (get? "status" cached)
  mobile_cached s ip w (some _) = (w, server_error)
  mobile_cached s ip w none = (w, error_json 404 "Challenge expired or not found")

  abbrev pub mobile_submitted : String → World → Option Submission → World × Response
  mobile_submitted ip w none =
      (w, error_json 400 "Missing required fields: verifiable_presentation, challenge")
  mobile_submitted ip w (some s) = mobile_cached s ip w (w.cache s.challenge)

  unfoldable pub mobile_verify_signature :
      (remote_ip : String) → Option Json → World → World × Response
  unfolding dev_bypass_enabled
  mobile_verify_signature ip none w = (w, error_json 400 "Invalid JSON payload")
  mobile_verify_signature ip (some (obj body)) w = mobile_submitted ip w (submission_of env body)
  mobile_verify_signature ip (some _) w = (w, server_error)
