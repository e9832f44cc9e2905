-- ===== src/Views/Oauth/Login.antt =====
-- What a login by an OAuth callback has been shown, and the session that it leaves.
use iyou_idp.Prelude.{
  String, ◌≡◌, refl, ap, ◌∙◌, ◌⊎◌, true, false, Option, none, some, List, ◌==◌, eq_iff, arith,
  if_both,
}
use iyou_idp.Json.{Json, str, obj, Props}
use iyou_idp.Server.{User, World, Env, Session, Response, json}
use iyou_idp.Server.Users as Users
use iyou_idp.Server.Users.{request_user}
use iyou_idp.Pipeline.{logs_in, process_oauth_identity}
use iyou_idp.Views.Gate.{did_passes_gate, gate_response}
use iyou_idp.Views.Oidc.{build_oidc_redirect}
use iyou_idp.Views.Oidc.Laws.{session-build}
use iyou_idp.Views.Email.{compare_digest}
use iyou_idp.Views.Oauth.{Web, Provider, Query, param, text_in, oauth_providers}
use iyou_idp.Views.Oauth.Profile.{
  Profile, Extracted, extracted, extractor, exchange_code, fetch_userinfo,
}
use iyou_idp.Views.Oauth.Callback.{
  without_state, without_next, finish_at, or_pending, target_of, established, past_gate,
}

pub compare_digest-eq : (a b : String) → compare_digest a (str b) ≡ some true → b ≡ a
compare_digest-eq a b h = ground (arith, eq_iff b a)

pub login-state :
    (u : User) (s : Session) → s.oauth_state ≡ none → (Users.login u s).oauth_state ≡ none
unfolding Users.login
login-state u s h = go s.user refl
  where
    go : (o : Option String) → s.user ≡ o → (Users.login u s).oauth_state ≡ none
    go none e = rw (e, Users.login) h
    go (some id) e = ground (arith, h)

module _ (env : Env) (web : Web) (provider : String) where
  or_pending-session :
      (url : String) (r : World × Option String)
      → (or_pending env web provider url r).0.session ≡ r.0.session
  or_pending-session url (w, none) = refl
  or_pending-session url (w, some target) = refl

  target-session :
      (user : User) (o : Option String) (w : World)
      → (target_of env web provider user o w).0.session ≡ w.session
  target-session user none w = refl
  target-session user (some url) w =
      if_both (λ (r : World × String). r.0.session ≡ w.session) (url == "") _ _ refl
        (or_pending-session url (build_oidc_redirect env url user w) ∙ session-build env url user w)

  finish_at-world : (user : User) (r : World × String) → (finish_at env web provider user r).0 ≡ r.0
  finish_at-world user (w, target) =
      if_both (λ (r : World × Response). r.0 ≡ w) user.show_legal_disclaimer _ _ refl refl

  pub entered-session :
      (user : User) (w : World)
      → (past_gate env web provider user w none).0.session
        ≡ (without_next env web provider (established env web provider user w)).session
  entered-session user w =
      ap World.session (
        finish_at-world user (
          target_of env web provider user (established env web provider user w).session.oauth_next
            (without_next env web provider (established env web provider user w))))
      ∙ target-session user (established env web provider user w).session.oauth_next
          (without_next env web provider (established env web provider user w))

  pub blocked-state :
      (w w' : World) (did : String) (r : Response)
      → gate_response env.settings w did none ≡ some (w', r)
      → w'.session.oauth_state ≡ w.session.oauth_state
  unfolding gate_response
  blocked-state w w' did r h = ground arith

  -- What a callback knows before the pipeline runs: the state it was given is the session's, and the
  -- provider answered the code with a profile whose address it asserts.
  pub record Told (q : Query) (w : World) : Type 0 where
    pub state : String
    pub kept : w.session.oauth_state ≡ some state
    pub returned : param q "state" ≡ state
    pub not_empty : (state == "") ≡ false
    pub config : Provider
    pub known : oauth_providers env web provider ≡ some config
    pub answer : Props
    pub answered : exchange_code env web config (param q "code") provider ≡ some (obj answer)
    pub userinfo : Json
    pub fetched : fetch_userinfo env web config answer ≡ some userinfo
    pub extract : Props → Json → Extracted
    pub extracts : extractor env web provider ≡ some extract
    pub profile : Profile
    pub told : extract answer userinfo ≡ extracted profile
    pub asserted : profile.email_verified ≡ true
    pub email : String
    pub address : profile.email ≡ str email

  -- A login that the callback makes: the pipeline found this active user for the profile, whose DID
  -- passes the gate.
  pub record LogsIn (q : Query) (w w' : World) : Type 0 where
    pub told : Told q w
    pub resolved : World
    pub user : User
    pub resolves :
        process_oauth_identity env provider
          (text_in web told.profile.provider_uid)
          told.email
          none
          true
          (request_user (without_state w))
          (without_state w)
        ≡ (resolved, logs_in user)
    pub active : user.is_active ≡ true
    pub passes : did_passes_gate env.settings (without_state w).session user.custodial_did ≡ true
    pub session_user : w'.session.user ≡ some user.id

  abbrev pub IsServerError : Response → Type 0
  IsServerError r = (fields : List (String × Json)) × (r ≡ json 500 fields)

  -- Nothing is kept of a request that fails with 500; otherwise the state is gone.
  abbrev pub Spent : World → World × Response → Type 0
  Spent w r = ((r.0 ≡ w) × IsServerError r.1) ⊎ (r.0.session.oauth_state ≡ none)

  abbrev pub Judged : Query → World → World × Response → Type 0
  Judged q w r = Spent w r × ((r.0.session.user ≡ w.session.user) ⊎ LogsIn q w r.0)
