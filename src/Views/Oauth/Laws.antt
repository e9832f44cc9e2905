-- ===== src/Views/Oauth/Laws.antt =====
-- Who an OAuth callback logs in, and that its state is used once.
use iyou_idp.Prelude.{
  String, ◌≡◌, refl, sym, ap, ◌∙◌, ◌⊎◌, inl, inr, Bool, true, false, not, ◌||◌, Option, none, some,
  List, [], ◌==◌, if_both, if_split, subst,
}
use iyou_idp.Json.{Json, null, bool, int, float, str, arr, obj, Props, truthy}
use iyou_idp.Server.{User, World, Env, Session, Response, json}
use iyou_idp.Server.Users.{request_user}
use iyou_idp.Server.Users.Laws.{login-user}
use iyou_idp.Pipeline.{
  Outcome, permission_denied, value_error, logs_in, require_password_verification, dangling,
  process_oauth_identity,
}
use iyou_idp.Pipeline.Laws.{process_oauth_identity-session}
use iyou_idp.Views.Gate.{did_passes_gate, gate_response}
use iyou_idp.Views.Gate.Laws.{gate_open, gate_blocked}
use iyou_idp.Views.Email.{compare_digest}
use iyou_idp.Views.Oauth.{Web, Provider, Query, param, text_in, oauth_providers}
use iyou_idp.Views.Oauth.Profile.{
  Profile, Extracted, crashed, no_email, extracted, extractor, exchange_code, fetch_userinfo,
}
use iyou_idp.Views.Oauth.Callback.{
  without_state, past_gate, complete_login, after_pipeline, identify, with_profile, with_extractor,
  with_userinfo, with_tokens, with_state, refused, state_compared, by_state, configured_as,
  oauth_callback,
}
use iyou_idp.Views.Oauth.Login.{
  compare_digest-eq, login-state, entered-session, blocked-state, Told, IsServerError, Judged,
}

module _ (env : Env) (web : Web) (provider : String) where
  module _ (q : Query) (w : World) where
    crash : (fields : List (String × Json)) → Judged env web provider q w (w, json 500 fields)
    crash fields = (inl (refl, (fields, refl)), inl refl)

    abbrev after : World
    after = without_state w

    stop : (r : Response) → Judged env web provider q w (after, r)
    stop r = (inr refl, inl refl)

    module _ (told : Told env web provider q w) where
      abbrev uid : String
      uid = text_in web told.profile.provider_uid

      module _ (s : World) (user : User)
          (resolves : process_oauth_identity env provider uid told.email none true
              (request_user after)
              after
            ≡ (s, logs_in user))
          (same : s.session ≡ after.session) (active : user.is_active ≡ true) where
        past_gate-Judged :
            (o : Option (World × Response))
            → gate_response env.settings s user.custodial_did none ≡ o
            → Judged env web provider q w (past_gate env web provider user s o)
        past_gate-Judged (some (s', r)) blocked = (
          inr (
              blocked-state env web provider s s' user.custodial_did r blocked
              ∙ ap Session.oauth_state same),
          inl (
              (gate_blocked env.settings s user.custodial_did none s' r blocked).4
              ∙ ap Session.user same),
        )
        past_gate-Judged none free = (
          inr (
              ap Session.oauth_state (entered-session env web provider user s)
              ∙ login-state user s.session (ap Session.oauth_state same)),
          inr (record {
            told = told;
            resolved = s;
            user = user;
            resolves = resolves;
            active = active;
            passes =
                subst (λ (x : Session). did_passes_gate env.settings x user.custodial_did ≡ true)
                  same (gate_open env.settings s user.custodial_did none free);
            session_user =
                ap Session.user (entered-session env web provider user s)
                ∙ login-user user s.session;
          }),
        )

      -- An outcome that logs nobody in leaves the session without its state.
      quiet :
          (s : World) (r : Response)
          → s.session ≡ after.session
          → Judged env web provider q w (s, r)
      quiet s r same = (inr (ap Session.oauth_state same), inl (ap Session.user same))

      after_pipeline-Judged :
          (r : World × Outcome)
          → process_oauth_identity env provider uid told.email none true (request_user after) after
            ≡ r
          → r.0.session ≡ after.session
          → Judged env web provider q w (after_pipeline env web provider w uid r)
      unfolding complete_login
      after_pipeline-Judged (s, permission_denied message) e same = quiet s _ same
      after_pipeline-Judged (s, value_error message) e same = quiet s _ same
      after_pipeline-Judged (s, dangling) e same = crash []
      after_pipeline-Judged (s, require_password_verification id mail) e same = quiet s _ same
      after_pipeline-Judged (s, logs_in user) e same =
          if_split (Judged env web provider q w) user.is_active _ _
            (λ active. past_gate-Judged s user e same active _ refl) (λ inactive. quiet s _ same)

    module _ (state : String) (config : Provider) (kept : w.session.oauth_state ≡ some state)
        (returned : param q "state" ≡ state) (not_empty : (state == "") ≡ false)
        (known : oauth_providers env web provider ≡ some config) (answer : Props)
        (answered : exchange_code env web config (param q "code") provider ≡ some (obj answer))
        (userinfo : Json) (fetched : fetch_userinfo env web config answer ≡ some userinfo)
        (extract : Props → Json → Extracted)
        (extracts : extractor env web provider ≡ some extract) where
      identify-Judged :
          (profile : Profile) (email : Json)
          → extract answer userinfo ≡ extracted profile
          → profile.email_verified ≡ true
          → profile.email ≡ email
          → Judged env web provider q w
              (identify env web provider (text_in web profile.provider_uid) w after email)
      identify-Judged profile (str email) told asserted address =
          after_pipeline-Judged
            (record {
              state = state;
              kept = kept;
              returned = returned;
              not_empty = not_empty;
              config = config;
              known = known;
              answer = answer;
              answered = answered;
              userinfo = userinfo;
              fetched = fetched;
              extract = extract;
              extracts = extracts;
              profile = profile;
              told = told;
              asserted = asserted;
              email = email;
              address = address;
            })
            _ refl
            (process_oauth_identity-session env provider (text_in web profile.provider_uid) email
              none true (request_user after) after)
      identify-Judged profile null told asserted address = crash []
      identify-Judged profile (bool b) told asserted address = crash []
      identify-Judged profile (int n) told asserted address = crash []
      identify-Judged profile (float x n) told asserted address = crash []
      identify-Judged profile (arr vs) told asserted address = crash []
      identify-Judged profile (obj ps) told asserted address = crash []

      with_profile-Judged :
          (x : Extracted)
          → extract answer userinfo ≡ x
          → Judged env web provider q w (with_profile env web provider w after x)
      with_profile-Judged crashed e = crash []
      with_profile-Judged no_email e = stop _
      with_profile-Judged (extracted profile) e =
          if_both (Judged env web provider q w)
            (not (truthy profile.provider_uid) || not (truthy profile.email)) _ _ (stop _)
            (if_split (Judged env web provider q w) (not profile.email_verified) _ _ (λ no. stop _)
              (λ yes. identify-Judged profile profile.email e (not-false _ yes) refl))
        where
          not-false : (b : Bool) → not b ≡ false → b ≡ true
          not-false true h = refl
          not-false false h = absurd (cc)

    module _ (state : String) (config : Provider) (kept : w.session.oauth_state ≡ some state)
        (returned : param q "state" ≡ state) (not_empty : (state == "") ≡ false)
        (known : oauth_providers env web provider ≡ some config) where
      with_extractor-Judged :
          (answer : Props) (userinfo : Json) (o : Option (Props → Json → Extracted))
          → exchange_code env web config (param q "code") provider ≡ some (obj answer)
          → fetch_userinfo env web config answer ≡ some userinfo
          → extractor env web provider ≡ o
          → Judged env web provider q w (with_extractor env web provider w after answer userinfo o)
      with_extractor-Judged answer userinfo none answered fetched e = crash _
      with_extractor-Judged answer userinfo (some extract) answered fetched e =
          with_profile-Judged state config kept returned not_empty known answer answered userinfo
            fetched extract e _ refl

      with_userinfo-Judged :
          (answer : Props) (o : Option Json)
          → exchange_code env web config (param q "code") provider ≡ some (obj answer)
          → fetch_userinfo env web config answer ≡ o
          → Judged env web provider q w (with_userinfo env web provider w after answer o)
      with_userinfo-Judged answer none answered e = crash []
      with_userinfo-Judged answer (some userinfo) answered e =
          with_extractor-Judged answer userinfo _ answered e refl

      with_tokens-Judged :
          (o : Option Json)
          → exchange_code env web config (param q "code") provider ≡ o
          → Judged env web provider q w (with_tokens env web provider w after config o)
      with_tokens-Judged none e = stop _
      with_tokens-Judged (some null) e = stop _
      with_tokens-Judged (some (obj answer)) e = with_userinfo-Judged answer _ e refl
      with_tokens-Judged (some (bool b)) e = crash []
      with_tokens-Judged (some (int n)) e = crash []
      with_tokens-Judged (some (float x n)) e = crash []
      with_tokens-Judged (some (str t)) e = crash []
      with_tokens-Judged (some (arr vs)) e = crash []

      with_state-Judged : Judged env web provider q w (with_state env web provider w after config q)
      with_state-Judged =
          if_both (Judged env web provider q w) (not (param q "error" == "")) _ _ (stop _) (
            if_both (Judged env web provider q w) (param q "code" == "") _ _ (stop _)
              (with_tokens-Judged _ refl))

    state_compared-Judged :
        (state : String) (config : Provider) (o : Option Bool)
        → w.session.oauth_state ≡ some state
        → (state == "") ≡ false
        → oauth_providers env web provider ≡ some config
        → compare_digest state (str (param q "state")) ≡ o
        → Judged env web provider q w (state_compared env web provider w after config q o)
    state_compared-Judged state config none kept not_empty known e = crash []
    state_compared-Judged state config (some false) kept not_empty known e = stop _
    state_compared-Judged state config (some true) kept not_empty known e =
        with_state-Judged state config kept (compare_digest-eq state _ e) not_empty known

    by_state-Judged :
        (config : Provider) (o : Option String)
        → oauth_providers env web provider ≡ some config
        → w.session.oauth_state ≡ o
        → Judged env web provider q w (by_state env web provider w config q o)
    by_state-Judged config none known e = stop _
    by_state-Judged config (some state) known e =
        if_split (Judged env web provider q w) (state == "") _ _ (λ empty. stop _)
          (λ full. state_compared-Judged state config _ e full known refl)

  pub oauth_callback-Judged :
      (q : Query) (w : World) (config : Provider)
      → oauth_providers env web provider ≡ some config
      → Judged env web provider q w (oauth_callback env web provider q w)
  unfolding oauth_callback
  oauth_callback-Judged q w config known =
      subst (λ o. Judged env web provider q w (configured_as env web provider q w o)) (sym known)
        (by_state-Judged q w config _ known refl)

  -- The state of a session is good for one callback of a configured provider: unless it fails with
  -- 500 and keeps nothing, every later callback on what it left, whatever its parameters, is refused
  -- with 403 and changes nothing.
  pub oauth_callback-once :
      (q q' : Query) (w : World) (config : Provider)
      → oauth_providers env web provider ≡ some config
      → (((oauth_callback env web provider q w).0 ≡ w)
          × IsServerError env web provider (oauth_callback env web provider q w).1)
        ⊎ (oauth_callback env web provider q' (oauth_callback env web provider q w).0
            ≡ ((oauth_callback env web provider q w).0, refused env web provider))
  unfolding oauth_callback
  oauth_callback-once q q' w config known = elim (oauth_callback-Judged q w config known).0 [
    | inl failure ↦ inl failure
    | inr gone ↦ inr (refuses _ gone)
  ]
    where
      refuses :
          (v : World)
          → v.session.oauth_state ≡ none
          → oauth_callback env web provider q' v ≡ (v, refused env web provider)
      refuses v gone =
          ap (configured_as env web provider q' v) known
          ∙ ap (by_state env web provider v config q') gone
          ∙ ap
              (λ o. (
                record v { session = record v.session { oauth_state = o } },
                refused env web provider,
              ))
              (sym gone)
