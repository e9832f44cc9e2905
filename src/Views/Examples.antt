-- ===== src/Views/Examples.antt =====
-- Requests and states at which the theorems on the views apply.
pub mod Authorize
pub mod Passkeys
pub mod Graduation
pub mod Locker
pub mod Oauth
use iyou_idp.Prelude.{◌∷◌, [], ◌≡◌, refl, ◌⊎◌, true, false, none, some, [], if◌then◌else◌, ◌==◌}
use iyou_idp.Text.{strip, lower}
use iyou_idp.Crypto.{Crypto}
use iyou_idp.Json.{Json, null, str, obj, Props, prop, end, arr, cons, nil}
use iyou_idp.Invite.Examples.{crypto, settings, issuer}
use iyou_idp.Server.{User, World, Env, Cache, new_session, Response, json, gate_page}
use iyou_idp.Server.Users.{new_user, save, get_or_create, evaluate_sovereign_admin_posture, login}
use iyou_idp.Views.Email.{
  challenge_email, verify_email, verify_email_get, verify_email_post, matched, account_of,
  finish_email,
}
use iyou_idp.Views.Email.Safety.{UsedCode, verify_email-uses}
use iyou_idp.Views.Email.RoundTrip.{challenge_email-verify_email}
use iyou_idp.Cache.{Caches}
use iyou_idp.Cache.Memory.{memory}
use iyou_idp.Views.Redeem.{Redemption, airlock_sponsor}
use iyou_idp.Views.Redeem.Laws.{airlock_sponsor-once}
use iyou_idp.Views.Challenge.Replay.{answering, check_presentation-unbound}
use iyou_idp.Views.Challenge.Presentation.{proven}
use iyou_idp.Views.Gate.{did_passes_gate, gate_response, next_or_default}
use iyou_idp.Views.Gate.Laws.{Allowed, stashed, gate_response-Allowed}
use iyou_idp.Views.Oidc.{build_oidc_redirect, is_safe_public_redirect}
use iyou_idp.Views.Challenge.{pending, mobile_verify_signature}
use iyou_idp.Views.Challenge.Presentation.{
  check_presentation, direct_valid, pubkey_from_did, decode_signature_bytes, candidate_payloads,
}
use iyou_idp.Views.Challenge.Login.{check_challenge_status, verify_signature, resolve_user}
use iyou_idp.Views.Challenge.Safety.{PolledLogin, poll-opens-solver}

abbrev bridge : Crypto
bridge = record crypto { rust_bridge = true }

abbrev pub env : Env
env = record {
  settings = settings;
  now = 2000;
  new_id = "u1";
  new_did = "did:web:iyou.me:user:u1";
  new_code = "c1";
  new_otp = "123456";
  new_token = "tok";
  hostname = λ url. some (some "wun.iyou.me");
  query = λ url key. [];
  disclaimer_url = λ next. next;
}

abbrev cached : Json → Cache
cached entry = λ k. if k == "ch" then some entry else none

abbrev pub world : Json → World
world entry = record {
  users = [];
  identities = [];
  passkeys = [];
  linked_emails = [];
  clients = [];
  codes = [];
  consents = [];
  session = new_session;
  cache = cached entry;
}

abbrev vp : Json
vp = obj (
    prop "type" (arr (cons (str "VerifiablePresentation") nil)) (
      prop "holder" (str issuer) (
        prop "challenge" (str "ch") (prop "proof" (obj (prop "proofValue" (str "zsig") end)) end))))

abbrev body : Props
body = prop "verifiable_presentation" vp (prop "challenge" (str "ch") end)

views : Unit {0}
unfolding verify_signature mobile_verify_signature check_challenge_status check_presentation
    direct_valid pubkey_from_did decode_signature_bytes candidate_payloads resolve_user
    get_or_create evaluate_sovereign_admin_posture login did_passes_gate gate_response
    build_oidc_redirect is_safe_public_redirect strip lower
views = tt

abbrev pub start : World
start = world (pending null)

abbrev solved_world : World
solved_world = world (obj (prop "status" (str "solved") (prop "did" (str issuer) end)))

poll_logs_in : (check_challenge_status env "ch" solved_world).0.session.user ≡ some "u1"
unfolding views
poll_logs_in = refl

poll-opens-solver_example :
    PolledLogin env "ch" solved_world (check_challenge_status env "ch" solved_world).0
poll-opens-solver_example =
    poll-opens-solver env "ch" solved_world (λ same. cc (poll_logs_in, same))

abbrev stranger : World × Response
stranger = (
  record start { session = record start.session { verified_pending_did = some "did:key:zB" } },
  gate_page (some "did:key:zB") "https://wun.iyou.me",
)

strangers_stop : gate_response settings start "did:key:zB" none ≡ some stranger
unfolding views
strangers_stop = refl

gate_response-Allowed_example :
    ((gate_response settings start "did:key:zB" none ≡ none)
      × Allowed settings start.session "did:key:zB")
    ⊎ ((¬ (Allowed settings start.session "did:key:zB"))
        × (gate_response settings start "did:key:zB" none
            ≡ some (
              record start { session = stashed true "did:key:zB" none start.session },
              gate_page (some "did:key:zB") (next_or_default settings none),
            )))
gate_response-Allowed_example = gate_response-Allowed settings start "did:key:zB" none

-- An account that an operator has disabled, with an address.
abbrev disabled : User
disabled = record (new_user "u2" issuer) { email = some "a@b.c"; is_active = false }

abbrev asked : World
asked = record start { users = disabled ∷ [] }

abbrev request : Props
request = prop "email" (str " A@b.c") end

opened_email : Unit {0}
unfolding challenge_email verify_email matched account_of finish_email save
    evaluate_sovereign_admin_posture did_passes_gate gate_response is_safe_public_redirect
    build_oidc_redirect login strip lower
opened_email = tt

abbrev typed : Props
typed = prop "email" (str "A@B.c ") (prop "otp" (str "123456") end)

-- The disabled account is logged in.
challenge_email-verify_email_example :
    ((verify_email_get env "A@B.c " "123456" ""
        (challenge_email env (some (obj request)) asked).0).0.session.user
      ≡ some "u2")
    × ((verify_email_post env
          (some (obj typed))
          (challenge_email env (some (obj request)) asked).0).0.session.user
        ≡ some "u2")
unfolding opened_email
challenge_email-verify_email_example =
    challenge_email-verify_email env request typed " A@b.c" "A@B.c " asked refl refl refl refl refl
      refl refl refl refl

abbrev mailed : World
mailed = (challenge_email env (some (obj request)) asked).0

verify_email-uses_example :
    ((verify_email env "a@b.c" "123456" "" false mailed).0 ≡ mailed)
    ⊎ UsedCode env "a@b.c" "123456" "" mailed (verify_email env "a@b.c" "123456" "" false mailed).0
verify_email-uses_example = verify_email-uses env "a@b.c" "123456" "" false mailed

abbrev presentation : Props
presentation =
    prop "type" (arr (cons (str "VerifiablePresentation") nil)) (prop "holder" (str issuer) end)

abbrev signature : Props
signature = prop "proofValue" (str "zsig") end

check_presentation-unbound_example :
    check_presentation bridge true "ch" (obj (answering "ch" signature presentation))
    ≡ check_presentation bridge true "other" (obj (answering "other" signature presentation))
check_presentation-unbound_example =
    check_presentation-unbound bridge true presentation signature "ch" "other" refl refl refl refl
      refl

-- The presentation that was made for "ch" proves its holder for "other" as well.
replayed :
    check_presentation bridge true "other" (obj (answering "other" signature presentation))
    ≡ proven issuer
unfolding views
replayed = refl

abbrev caches : Caches memory memory
caches = record {
  primary = record { up = true; entries = [] };
  fallback = record { up = true; entries = [] };
}

abbrev redemption : Redemption
redemption = record {
  method = "GET";
  invite_key = "";
  invite = "{}";
  t = "";
  did = "";
  next_url = "";
  next = "";
  default_next = "https://wun.iyou.me";
}

abbrev sponsored : World
sponsored = record start {
  session = record start.session { beta_access = true; sponsor_did = some issuer };
}

airlock_sponsor-once_example :
    ((airlock_sponsor (airlock_sponsor sponsored).0).1 ≡ json 200 (("sponsor_did", null) ∷ []))
    ⊎ ((airlock_sponsor (airlock_sponsor sponsored).0 ≡ airlock_sponsor sponsored)
        × (airlock_sponsor sponsored
            ≡ (sponsored, json 401 (("error", str "authentication_required") ∷ []))))
airlock_sponsor-once_example = airlock_sponsor-once sponsored
