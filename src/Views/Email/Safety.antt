-- ===== src/Views/Email/Safety.antt =====
-- Who an email login opens a session for, and that its code is used once.
use iyou_idp.Prelude.{
  String, ◌≡◌, refl, ap, ◌∙◌, ◌⊎◌, inl, inr, Bool, true, false, ◌&&◌, ◌||◌, Option, none, some,
  arith, ◌==◌, eq_refl, if_both, IsIn, subst, sym,
}
use iyou_idp.Json.{Json, str, obj, Props, get?, get, or}
use iyou_idp.Text.{strip, lower}
use iyou_idp.Server.{User, World, Env, Response, delete_key}
use iyou_idp.Server.Users.{user_by_email}
use iyou_idp.Server.Users.Laws.{
  elevation-email, user_by_email-email, login-user, elevation-IsIn, save-IsIn,
}
use iyou_idp.Views.Gate.{did_passes_gate, gate_response}
use iyou_idp.Views.Gate.Laws.{gate_open, gate_blocked}
use iyou_idp.Views.Oidc.Laws.{session-build, cache-build, users-build}
use iyou_idp.Views.Email.{
  otp_key, token_key, matched, account_of, finish_email, through_gate, enter, spent, checked,
  with_entry, with_token, verify_email, verified, drop_token, next_of,
}
use iyou_idp.Views.Email.Keys.{method_key-ne-otp_key, pkce_key-ne-otp_key, put_key-other}

-- A session of the user of an address, who is a row of the table and whom the gate let through.
pub record Entered (env : Env) (address : String) (w w' : World) : Type 0 where
  pub user : User
  pub whose : user.email ≡ some address
  pub row : IsIn user w'.users
  pub passes : did_passes_gate env.settings w.session user.custodial_did ≡ true
  pub session_user : w'.session.user ≡ some user.id

module _ (env : Env) (address : String) where
  account_of-email : (w : World) → (account_of env address w).1.email ≡ some address
  unfolding account_of
  account_of-email w = elevation-email env.settings _ _ ∙ go (user_by_email address w.users) refl
    where
      go :
          (o : Option User)
          → user_by_email address w.users ≡ o
          → (verified env address o).email ≡ some address
      go none e = refl
      go (some u) e = user_by_email-email address w.users u e

  account_of-IsIn :
      (w : World) → IsIn (account_of env address w).1 (account_of env address w).0.users
  unfolding account_of
  account_of-IsIn w = elevation-IsIn env.settings _ _ (save-IsIn _ w.users)

  enter-users : (u : User) (next : String) (w : World) → (enter env u next w).users ≡ w.users
  enter-users u next w =
      if_both (λ (v : World). v.users ≡ w.users) u.show_legal_disclaimer _ _ refl refl

  pub enter-user :
      (u : User) (next : String) (w : World) → (enter env u next w).session.user ≡ some u.id
  enter-user u next w =
      if_both (λ (v : World). v.session.user ≡ some u.id) u.show_legal_disclaimer _ _
        (login-user u w.session) (login-user u w.session)

  enter-code :
      (u : User) (next : String) (w : World)
      → (enter env u next w).cache (otp_key address) ≡ w.cache (otp_key address)
  enter-code u next w =
      if_both (λ (v : World). v.cache (otp_key address) ≡ w.cache (otp_key address))
        u.show_legal_disclaimer _ _
        (put_key-other _ _ _ w.cache (method_key-ne-otp_key u.id address))
        (put_key-other _ _ _ w.cache (method_key-ne-otp_key u.id address))

  -- What the part after the match leaves: the code's key as it was, and a session of the address.
  record Finished (w w' : World) : Type 0 where
    same_code : w'.cache (otp_key address) ≡ w.cache (otp_key address)
    session : (w'.session.user ≡ w.session.user) ⊎ Entered env address w w'

  through_gate-Finished :
      (is_get : Bool) (next : String) (u : User) (w : World) (o : Option (World × Response))
      → u.email ≡ some address
      → IsIn u w.users
      → gate_response env.settings w u.custodial_did (some next) ≡ o
      → Finished w (through_gate env is_get next u w o).0
  through_gate-Finished is_get next u w none m row e = record {
    same_code =
        cache-build env next u (enter env u next w) (otp_key address)
          (pkce_key-ne-otp_key env.new_code address)
        ∙ enter-code u next w;
    session = inr (record {
      user = u;
      whose = m;
      row =
          subst (IsIn u) (sym (users-build env next u (enter env u next w) ∙ enter-users u next w))
            row;
      passes = gate_open env.settings w u.custodial_did (some next) e;
      session_user = ap (λ s. s.user) (session-build env next u _) ∙ enter-user u next w;
    });
  }
  through_gate-Finished is_get next u w (some (w', r)) m row e =
      let blocked = gate_blocked env.settings w u.custodial_did (some next) w' r e in
      record {
        same_code = ap (λ (v : World). v.cache (otp_key address)) blocked.2;
        session = inl blocked.4;
      }

  finish_email-Finished :
      (is_get : Bool) (next : String) (w : World)
      → Finished w (finish_email env is_get address next w).0
  unfolding finish_email
  finish_email-Finished is_get next w =
      let done =
        through_gate-Finished is_get next (account_of env address w).1 (account_of env address w).0
          _ (account_of-email w) (account_of-IsIn w) refl in
      record {
        same_code = done.same_code;
        session = elim done.session [
          | inl same ↦ inl same
          | inr e ↦ inr (record {
            user = e.user;
            whose = e.whose;
            row = e.row;
            passes = e.passes;
            session_user = e.session_user;
          })
        ];
      }

  spent-code :
      (cached : Props) (w : World) → (spent env address cached w).cache (otp_key address) ≡ none
  spent-code cached w = go (get? "token" cached)
    where
      go :
          (o : Option Json)
          → drop_token env o (delete_key (otp_key address) w.cache) (otp_key address) ≡ none
      go (some (str token)) = ground (arith, eq_refl (otp_key address))
      go none = ground (arith, eq_refl (otp_key address))
      go (some _) = ground (arith, eq_refl (otp_key address))

-- A code of an address that was shown, and what its use leaves.
pub record UsedCode (env : Env) (email otp token : String) (w w' : World) : Type 0 where
  pub address : String
  pub cached : Props
  pub given :
      (address ≡ email)
      ⊎ ((kept : String) × (w.cache (token_key token) ≡ some (str kept))
          × (address ≡ lower (strip kept)))
  pub entry : w.cache (otp_key address) ≡ some (obj cached)
  pub shown : matched token otp cached ≡ some true
  pub gone : w'.cache (otp_key address) ≡ none
  pub session : (w'.session.user ≡ w.session.user) ⊎ Entered env address w w'

module _ (env : Env) (email otp token : String) (is_get : Bool) (w : World) where
  abbrev Uses : World → Type 0
  Uses w' = (w' ≡ w) ⊎ UsedCode env email otp token w w'

  module _ (address : String)
      (given : (address ≡ email)
        ⊎ ((kept : String) × (w.cache (token_key token) ≡ some (str kept))
            × (address ≡ lower (strip kept)))) where
    checked-Uses :
        (cached : Props) (o : Option Bool)
        → w.cache (otp_key address) ≡ some (obj cached)
        → matched token otp cached ≡ o
        → Uses (checked env is_get address cached w o).0
    checked-Uses cached none e m = inl refl
    checked-Uses cached (some false) e m = inl refl
    checked-Uses cached (some true) e m =
        let next = next_of env (or (get "next_url" cached) (str env.settings.idp_wun_url)) in
        let done = finish_email-Finished env address is_get next (spent env address cached w) in
        inr (record {
          address = address;
          cached = cached;
          given = given;
          entry = e;
          shown = m;
          gone = done.same_code ∙ spent-code env address cached w;
          session = elim done.session [
            | inl same ↦ inl same
            | inr e ↦ inr (record {
              user = e.user;
              whose = e.whose;
              row = e.row;
              passes = e.passes;
              session_user = e.session_user;
            })
          ];
        })

    with_entry-Uses :
        (o : Option Json)
        → w.cache (otp_key address) ≡ o
        → Uses (with_entry env is_get address otp token w o).0
    with_entry-Uses none e = inl refl
    with_entry-Uses (some (obj cached)) e = checked-Uses cached _ e refl
    with_entry-Uses (some _) e = inl refl

  with_token-Uses :
      (o : Option Json)
      → w.cache (token_key token) ≡ o
      → Uses (with_token env is_get otp token w o).0
  with_token-Uses none e = inl refl
  with_token-Uses (some (str kept)) e =
      if_both (λ (r : World × Response). Uses r.0) (kept == "") _ _ (inl refl)
        (with_entry-Uses (lower (strip kept)) (inr (kept, e, refl)) _ refl)
  with_token-Uses (some _) e = inl refl

  -- A verification changes nothing, or a live code of the address was shown (or the token of its
  -- message): then the code is gone, whatever the gate says, and the session belongs to whom it did
  -- before or to the user of that address, whose DID passes the gate.
  pub verify_email-uses :
      ((verify_email env email otp token is_get w).0 ≡ w)
      ⊎ UsedCode env email otp token w (verify_email env email otp token is_get w).0
  unfolding verify_email
  verify_email-uses =
      if_both (λ (r : World × Response). Uses r.0) ((token == "") && (email == "" || otp == "")) _ _
        (inl refl)
        (if_both (λ (r : World × Response). Uses r.0) (email == "") _ _ (with_token-Uses _ refl)
          (with_entry-Uses email (inl refl) _ refl))
