-- ===== src/Views/Redeem.antt =====
-- auth_bridge/views.py: redeem_beta_invite and airlock_sponsor.
pub mod Laws
use iyou_idp.Prelude.{
  String, Bool, true, false, not, ◌&&◌, ◌||◌, Option, none, some, [], ◌∷◌, member, is_some,
  if◌then◌else◌, ◌==◌,
}
use iyou_idp.Text.{strip}
use iyou_idp.Json.{Json, Props, get, null, str}
use iyou_idp.Crypto.{Crypto}
use iyou_idp.Cache.{Backend, Caches}
use iyou_idp.Invite.{Verdict, granted, raised, parse_token_input}
use iyou_idp.Invite.Schema.{text_of}
use iyou_idp.Invite.Admission.{verify_invite_token}
use iyou_idp.Server.{User, World, Session, Env, Response, json, redirect, or_text, text_or}
use iyou_idp.Server.Users.{get_or_create, evaluate_sovereign_admin_posture, establish, request_user}
use iyou_idp.Views.Gate.{is_admin_did, beta_allowlisted_did, render_beta_gate}
use iyou_idp.Views.Oidc.{safe_or_default, resume}

-- The parameters of the request, each empty where absent; `default_next` is _default_next_for.
pub record Redemption : Type 0 where
  pub method : String
  pub invite_key : String
  pub invite : String
  pub t : String
  pub did : String
  pub next_url : String
  pub next : String
  pub default_next : String

abbrev pub submitted_key : Redemption → String
submitted_key r = strip (or_text r.invite_key (or_text r.invite r.t))

-- The quota counters stand beside the world: claim_unit is the one operation that both backends of
-- the cache take part in.
module _ (c : Crypto) (P F : Backend) (env : Env) where
  -- What the submitted key has shown.
  pub data Outcome : Type 0 where
    token_accepted : Props → Outcome
    key_accepted : Outcome
    token_refused : Outcome
    not_redeemed : Outcome

  abbrev pub outcome_of : Verdict Props → Outcome
  outcome_of (granted token) = token_accepted token
  outcome_of (raised e) = token_refused

  unfoldable pub try_key : String → Caches P F → Caches P F × Outcome
  try_key key s =
      let (s', r) = verify_invite_token c env.settings P F key env.now s in
      if key == ""
      then (s, not_redeemed)
      else if is_some (parse_token_input c key)
      then (s', outcome_of r)
      else if member key env.settings.beta_invite_keys
      then (s, key_accepted)
      else (s, not_redeemed)

  -- A DID alone redeems where no token was refused.
  abbrev pub or_did : String → Outcome → Outcome
  or_did did not_redeemed =
      if not (did == "") && (is_admin_did env.settings did || beta_allowlisted_did env.settings did)
      then key_accepted
      else not_redeemed
  or_did did o = o

  abbrev pub sponsor : Outcome → Session → Session
  sponsor (token_accepted token) s = record s {
    sponsor_did = some (text_of (get "issuer_did" token));
  }
  sponsor _ s = s

  -- The login of the stashed DID's user.
  abbrev pub login_as : (next_url pending : String) → User → World → World × Response
  login_as next_url pending user w =
      let entered = establish user "did:websocket" w in
      let (resumed, url) = resume env next_url user entered in
      if not user.is_active
      then (w, render_beta_gate env.settings w.session (some pending) (some next_url))
      else if user.show_legal_disclaimer
      then (
        record entered {
          session = record entered.session { post_disclaimer_redirect = some next_url };
        },
        redirect (env.disclaimer_url next_url),
      )
      else (resumed, redirect url)

  abbrev pub pending_user : (did : String) → World → World × User
  pending_user did w =
      let (users, found, created) = get_or_create env.new_id did w.users in
      let (users', user) = evaluate_sovereign_admin_posture env.settings found users in
      (record w { users = users' }, user)

  -- What is done once access is granted, for the stashed DID if there is one.
  unfoldable pub login_pending : (next_url pending : String) → World → World × Response
  login_pending next_url pending w =
      let (w', user) = pending_user pending w in login_as next_url pending user w'

  abbrev pub after_grant : String → World → Option String → World × Response
  after_grant next_url w none = (w, redirect (safe_or_default env next_url))
  after_grant next_url w (some pending) =
      if pending == ""
      then (w, redirect (safe_or_default env next_url))
      else login_pending next_url pending w

  unfoldable pub grant : String → Outcome → World → World × Response
  unfolding login_pending
  grant next_url o w =
      let opened = sponsor o (record w.session { beta_access = true }) in
      let session = record opened {
        verified_pending_did = none;
        verified_pending_next_url = none;
      } in
      after_grant next_url (record w { session = session }) w.session.verified_pending_did

  abbrev pub redeemed : Outcome → Bool
  redeemed (token_accepted token) = true
  redeemed key_accepted = true
  redeemed _ = false

  abbrev pub next_for : Redemption → Session → String
  next_for r s =
      or_text (strip (or_text r.next_url r.next))
        (or_text (text_or "" s.verified_pending_next_url) r.default_next)

  unfoldable pub redeem_beta_invite :
      Redemption → World → Caches P F → (World × Response) × Caches P F
  unfolding try_key grant
  redeem_beta_invite r w s =
      let did = strip r.did in
      let next_url = next_for r w.session in
      let (s', tried) = try_key (submitted_key r) s in
      let o = or_did did tried in
      if not (r.method == "GET" || r.method == "POST")
      then ((w, json 405 []), s)
      else if redeemed o
      then (grant next_url o w, s')
      else ((w, render_beta_gate env.settings w.session (some did) (some next_url)), s')

abbrev pub text_or_null : Option String → Json
text_or_null none = null
text_or_null (some s) = str s

-- One read of the sponsor, which destroys it.
unfoldable pub airlock_sponsor : World → World × Response
airlock_sponsor w =
    if is_some (request_user w) || w.session.beta_access
    then (
      record w { session = record w.session { sponsor_did = none } },
      json 200 (("sponsor_did", text_or_null w.session.sponsor_did) ∷ []),
    )
    else (w, json 401 (("error", str "authentication_required") ∷ []))
