-- ===== src/Views/Authorize/Laws.antt =====
-- What stands before an authorization code is issued or redeemed.
use iyou_idp.Prelude.{
  String, ◌≡◌, refl, sym, ap, ◌∙◌, ◌⊎◌, inl, inr, Bool, true, false, Option, none, some, arith,
  ◌==◌, eq_iff, eq_refl, Bool-cases, if_both,
}
use iyou_idp.Json.{Json, str, obj, Props, get?, get_or, is_text}
use iyou_idp.Server.{User, World, Env, Response}
use iyou_idp.Server.Users.{request_user, user_by_id, save}
use iyou_idp.Server.Users.Laws.{user_by_id-id, user_by_id-save}
use iyou_idp.Views.Gate.{did_passes_gate, gate_response}
use iyou_idp.Views.Gate.Laws.{gate_open, gate_passes, gate_blocked}
use iyou_idp.Views.Authorize.{
  refused_method, disclaimer_first, after_gate, or_library, sovereign_authorize, consents,
  acknowledged, acknowledged_world, acknowledge_legal_disclaimer, pkce_gate, pkce_key, compared,
  with_method, with_pkce,
}

-- What a user needs for a code.
pub record Cleared (env : Env) (w : World) (user : User) : Type 0 where
  pub method : refused_method env w.session ≡ false
  pub passes : did_passes_gate env.settings w.session user.custodial_did ≡ true
  pub acknowledged : user.show_legal_disclaimer ≡ false

module _ (env : Env) (path : String) (library : World → World × Response) (w : World) where
  abbrev Guarded : User → World × Response → Type 0
  Guarded user r =
      ((r ≡ library w) × Cleared env w user)
      ⊎ ((r.0 ≡ record w { session = r.0.session }) × (r.0.session.user ≡ w.session.user))

  disclaimer_first-Guarded :
      (user : User) (shown : Bool)
      → refused_method env w.session ≡ false
      → did_passes_gate env.settings w.session user.custodial_did ≡ true
      → user.show_legal_disclaimer ≡ shown
      → Guarded user (or_library env library w (disclaimer_first env path shown w))
  disclaimer_first-Guarded user true m p e = inr (refl, refl)
  disclaimer_first-Guarded user false m p e =
      inl (refl, record { method = m; passes = p; acknowledged = e })

  after_gate-Guarded :
      (user : User) (o : Option (World × Response))
      → refused_method env w.session ≡ false
      → gate_response env.settings w user.custodial_did none ≡ o
      → Guarded user (or_library env library w (after_gate env path user w o))
  after_gate-Guarded user none m e =
      disclaimer_first-Guarded user _ m (gate_open env.settings w user.custodial_did none e) refl
  after_gate-Guarded user (some (w', r)) m e =
      let blocked = gate_blocked env.settings w user.custodial_did none w' r e in
      inr (blocked.2, blocked.4)

  -- For an authenticated user the authorization library is reached only if the user did not log in
  -- by a password, passes the gate and has acknowledged the disclaimer; otherwise the session alone
  -- changes, and not in its user: no code is issued.
  pub sovereign_authorize-Cleared :
      (user : User)
      → request_user w ≡ some user
      → ((sovereign_authorize env path library w ≡ library w) × Cleared env w user)
        ⊎ (((sovereign_authorize env path library w).0
              ≡ record w { session = (sovereign_authorize env path library w).0.session })
            × ((sovereign_authorize env path library w).0.session.user ≡ w.session.user))
  unfolding sovereign_authorize
  sovereign_authorize-Cleared user e = elim (Bool-cases (refused_method env w.session)) [
    | inl refused ↦ rw (e, refused) (inr (refl, refl))
    | inr m ↦ rw (e, m) (after_gate-Guarded user _ m refl)
  ]

  Cleared-sovereign_authorize :
      (user : User)
      → request_user w ≡ some user
      → Cleared env w user
      → sovereign_authorize env path library w ≡ library w
  unfolding sovereign_authorize
  Cleared-sovereign_authorize user e cleared = rw (
    e,
    cleared.method,
    gate_passes env.settings w user.custodial_did none cleared.passes,
    ap (λ b. disclaimer_first env path b w) cleared.acknowledged,
  )

-- The user of a session, after the row was replaced.
request_user-saved :
    (w : World) (user user' : User) (o : Option String)
    → w.session.user ≡ o
    → user'.id ≡ user.id
    → request_user w ≡ some user
    → request_user (record w { users = save user' w.users }) ≡ some user'
request_user-saved w user user' none e same h = absurd (cc (rw e at h))
request_user-saved w user user' (some id) e same h =
    let of_user : user_by_id id w.users ≡ some user = rw e at h in
    let is_id : id ≡ user'.id = sym (user_by_id-id id w.users user of_user) ∙ sym same in
    rw (e, is_id) (user_by_id-save user' w.users)

-- Once a user has consented to the disclaimer, an authorize request of the session reaches the
-- authorization library, if the DID passes the gate and the login was not by a password.
pub acknowledge-sovereign_authorize :
    (env : Env) (body : Props) (path : String) (library : World → World × Response) (w : World)
    (user : User)
    → request_user w ≡ some user
    → consents env body ≡ true
    → refused_method env w.session ≡ false
    → did_passes_gate env.settings w.session user.custodial_did ≡ true
    → sovereign_authorize env path library (acknowledge_legal_disclaimer env body w).0
      ≡ library (acknowledge_legal_disclaimer env body w).0
unfolding acknowledge_legal_disclaimer did_passes_gate
acknowledge-sovereign_authorize env body path library w user e agreed m passes =
    rw (e, agreed)
      (Cleared-sovereign_authorize env path library (acknowledged_world env user w)
        (acknowledged env user) (request_user-saved w user (acknowledged env user) _ refl refl e)
        (record { method = m; passes = passes; acknowledged = refl }))

-- A cached challenge that a verifier has met, and that is gone now.
pub record Met (challenge_of : String → Option String) (code verifier : String) (w w' : World)
    : Type 0 where
  pub entry : Props
  pub stored : String
  pub cached : w.cache (pkce_key challenge_of code) ≡ some (obj entry)
  pub challenge : get? "code_challenge" entry ≡ some (str stored)
  pub met : challenge_of verifier ≡ some stored
  pub gone : w'.cache (pkce_key challenge_of code) ≡ none

module _ (challenge_of : String → Option String) (code verifier : String) (w : World) where
  abbrev Exchanged : World × Option Response → Type 0
  Exchanged r =
      r.1 ≡ none
      → (w.cache (pkce_key challenge_of code) ≡ none) ⊎ Met challenge_of code verifier w r.0

  compared-Exchanged :
      (entry : Props) (stored : Json) (computed : Option String)
      → w.cache (pkce_key challenge_of code) ≡ some (obj entry)
      → get? "code_challenge" entry ≡ some stored
      → challenge_of verifier ≡ computed
      → Exchanged (compared challenge_of code w stored computed)
  compared-Exchanged entry (str stored) (some computed) c s m =
      elim (Bool-cases (computed == stored)) [
        | inl same ↦ rw same (λ h. inr (record {
          entry = entry;
          stored = stored;
          cached = c;
          challenge = s;
          met = m ∙ ap some ((eq_iff computed stored).0 same);
          gone = ground (arith, eq_refl (pkce_key challenge_of code));
        }))
        | inr other ↦ rw other (λ h. absurd (cc h))
      ]
  compared-Exchanged entry v o c s m = λ h. absurd (cc)

  with_method-Exchanged :
      (entry : Props) (stored : Option Json)
      → w.cache (pkce_key challenge_of code) ≡ some (obj entry)
      → get? "code_challenge" entry ≡ stored
      → Exchanged (with_method challenge_of code verifier w entry stored)
  with_method-Exchanged entry none c s = λ h. absurd (cc)
  with_method-Exchanged entry (some stored) c s =
      if_both Exchanged (is_text "S256" (get_or (str "S256") "code_challenge_method" entry)) _ _
        (compared-Exchanged entry stored _ c s refl) (λ h. absurd (cc))

  with_pkce-Exchanged :
      (o : Option Json)
      → w.cache (pkce_key challenge_of code) ≡ o
      → Exchanged (with_pkce challenge_of code verifier w o)
  with_pkce-Exchanged none c = λ h. inl c
  with_pkce-Exchanged (some (obj entry)) c = with_method-Exchanged entry _ c refl
  with_pkce-Exchanged (some _) c = λ h. absurd (cc)

  -- A token request with a code and a verifier that is handed on to the token library had no cached
  -- challenge, or the verifier meets it and the challenge is spent.
  pub pkce_gate-Met :
      (code == "") ≡ false
      → (verifier == "") ≡ false
      → (pkce_gate challenge_of code verifier w).1 ≡ none
      → (w.cache (pkce_key challenge_of code) ≡ none)
        ⊎ Met challenge_of code verifier w (pkce_gate challenge_of code verifier w).0
  unfolding pkce_gate
  pkce_gate-Met a b = rw (a, b) (with_pkce-Exchanged _ refl)
