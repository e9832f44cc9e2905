-- ===== src/Views/Passkeys/Laws.antt =====
-- What a passkey assertion has to show, and what it leaves.
use Prim.Native.String.{◌++◌}
use mathlib.Core.Option.{some-injective}
use iyou_idp.Prelude.{
  String, ◌≡◌, ◌≢◌, refl, sym, ap, ◌∙◌, ◌⊎◌, inl, inr, true, false, not, Option, none, some, arith,
  find, eq_refl, if_split, find-IsIn, List, [], ◌∷◌, Bool,
}
use iyou_idp.Text.Prefixes.{nth, is_inside, prefixes_differ}
use iyou_idp.Crypto.{Bytes}
use iyou_idp.Json.{Json, str, obj, Props, get, without}
use iyou_idp.Server.{User, PasskeyCredential, World, Env, Response}
use iyou_idp.Server.Users.{user_by_id}
use iyou_idp.Server.Users.Laws.{elevation-did, elevation-id, login-user}
use iyou_idp.Views.Gate.{did_passes_gate, gate_response}
use iyou_idp.Views.Gate.Laws.{gate_open, gate_blocked}
use iyou_idp.Views.Email.Keys.{put_key-other}
use iyou_idp.Views.Passkeys.{
  Fido, same_bytes, has_id, ceremony_key, load_ceremony, credential_of, save_row, clone_suspected,
  handle_mismatch, counted, gated, asserted, elevated, enter, assert_user, assert_row, assert_id,
  assert_stored, passkey_authenticate_complete,
}

method_key-ne-ceremony_key :
    (user_id kind id : String) → "user_auth_method:" ++ user_id ≢ ceremony_key kind id
unfolding nth is_inside
method_key-ne-ceremony_key user_id kind id =
    prefixes_differ 0 "user_auth_method:" "passkey:" user_id (kind ++ (":" ++ id)) refl refl
      (λ h. omega (arith, h))

pub same_bytes-eq : (a b : Bytes) → same_bytes a b ≡ true → a ≡ b
same_bytes-eq [] [] h = refl
same_bytes-eq [] (y ∷ b) h = absurd (cc)
same_bytes-eq (x ∷ a) [] h = absurd (cc)
same_bytes-eq (x ∷ a) (y ∷ b) h = ground (arith, same_bytes-eq a b)

same_bytes_refl : (a : Bytes) → same_bytes a a ≡ true
same_bytes_refl [] = refl
same_bytes_refl (x ∷ a) = ground (arith, same_bytes_refl a)

-- The row that is saved is the one that its id finds.
past_row :
    (id : Bytes) (row new r : PasskeyCredential) (rows saved : List PasskeyCredential) (b : Bool)
    → has_id id r ≡ b
    → same_bytes r.credential_id row.credential_id ≡ false
    → (find (has_id id) rows ≡ some row → find (has_id id) saved ≡ some new)
    → (elim b [ true ↦ some r | false ↦ find (has_id id) rows ]) ≡ some row
    → (elim b [ true ↦ some r | false ↦ find (has_id id) saved ]) ≡ some new
past_row id row new r rows saved false e other rest h = rest h
past_row id row new r rows saved true e other rest h =
    let same : r ≡ row = some-injective _ _ h in
    absurd (
      cc (
        other,
        ap (λ (x : PasskeyCredential). same_bytes x.credential_id row.credential_id) same,
        same_bytes_refl row.credential_id,
      ))

find-save_row :
    (id : Bytes) (row new : PasskeyCredential) (rows : List PasskeyCredential)
    → new.credential_id ≡ row.credential_id
    → find (has_id id) rows ≡ some row
    → find (has_id id) (save_row new rows) ≡ some new
unfolding save_row
find-save_row id row new [] same h = absurd (cc)
find-save_row id row new (r ∷ rows) same h =
    let own : has_id id row ≡ true = (find-IsIn (has_id id) (r ∷ rows) row h).1 in
    let mine : has_id id new ≡ true = ap (λ x. same_bytes x id) same ∙ own in
    let rest = find-save_row id row new rows same in
    if_split (λ rs. find (has_id id) rs ≡ some new) (has_id new.credential_id r) _ _
      (λ e. ground (arith, mine))
      (λ other.
        past_row id row new r rows (save_row new rows) (has_id id r) refl
          (ap (same_bytes r.credential_id) (sym same) ∙ other) rest h)

-- An assertion that was taken.
pub record Asserted (env : Env) (fido : Fido) (body : Props) (w w' : World) : Type 0 where
  pub id : String
  pub stored : Props
  pub raw_id : Bytes
  pub row : PasskeyCredential
  pub user : User
  pub named : get "ceremony_id" body ≡ str id
  pub live : w.cache (ceremony_key "auth" id) ≡ some (obj stored)
  pub identified : fido.raw_id (without "ceremony_id" body) ≡ some raw_id
  pub known : find (has_id raw_id) w.passkeys ≡ some row
  pub owner : user_by_id row.user_id w.users ≡ some user
  pub active : not user.is_active ≡ false
  pub signed :
      not (
        fido.authenticate_complete
          (get "state" stored)
          (credential_of row)
          (without "ceremony_id" body))
      ≡ false
  pub unsuspected :
      clone_suspected env fido (fido.counter (without "ceremony_id" body)) row.sign_count ≡ false
  pub gone : w'.cache (ceremony_key "auth" id) ≡ none
  pub counts :
      find (has_id raw_id) w'.passkeys
      ≡ some (record row {
        sign_count = fido.counter (without "ceremony_id" body);
        last_used_at = some env.now;
      })
  pub rows : w'.passkeys ≡ save_row (counted env fido (without "ceremony_id" body) row) w.passkeys
  pub session :
      (w'.session.user ≡ w.session.user)
      ⊎ ((did_passes_gate env.settings w.session user.custodial_did ≡ true)
          × (w'.session.user ≡ some user.id))

module _ (env : Env) (fido : Fido) where
  -- What the part after the checks leaves.
  record Entered (user : User) (w w' : World) : Type 0 where
    same_ceremonies :
        (id : String) → w'.cache (ceremony_key "auth" id) ≡ w.cache (ceremony_key "auth" id)
    same_passkeys : w'.passkeys ≡ w.passkeys
    session :
        (w'.session.user ≡ w.session.user)
        ⊎ ((did_passes_gate env.settings w.session user.custodial_did ≡ true)
            × (w'.session.user ≡ some user.id))

  gated-Entered :
      (user : User) (w : World) (o : Option (World × Response))
      → gate_response env.settings w user.custodial_did none ≡ o
      → Entered user w (gated env fido user w o).0
  gated-Entered user w none e = record {
    same_ceremonies =
        λ id. put_key-other _ _ _ w.cache (method_key-ne-ceremony_key user.id "auth" id);
    same_passkeys = refl;
    session = inr (gate_open env.settings w user.custodial_did none e, login-user user w.session);
  }
  gated-Entered user w (some (w', r)) e =
      let blocked = gate_blocked env.settings w user.custodial_did none w' r e in
      record {
        same_ceremonies = λ id. ap (λ (v : World). v.cache (ceremony_key "auth" id)) blocked.2;
        same_passkeys = ap (λ (v : World). v.passkeys) blocked.2;
        session = inl blocked.4;
      }

  enter-Entered : (user : User) (w : World) → Entered user w (enter env fido user w).0
  enter-Entered user w =
      let done = gated-Entered (elevated env fido user w).1 (elevated env fido user w).0 _ refl in
      record {
        same_ceremonies = done.same_ceremonies;
        same_passkeys = done.same_passkeys;
        session = elim done.session [
          | inl same ↦ inl same
          | inr (p, u) ↦ inr (
            sym (
                  ap (did_passes_gate env.settings w.session)
                    (elevation-did env.settings user w.users))
                ∙ p,
            u ∙ ap some (elevation-id env.settings user w.users),
          )
        ];
      }

module _ (env : Env) (fido : Fido) (body : Props) (w : World) where
  abbrev Takes : World × Response → Type 0
  Takes r = (r.0 ≡ w) ⊎ Asserted env fido body w r.0

  module _ (id : String) (stored : Props) (raw : Bytes) (named : get "ceremony_id" body ≡ str id)
      (live : w.cache (ceremony_key "auth" id) ≡ some (obj stored))
      (identified : fido.raw_id (without "ceremony_id" body) ≡ some raw) where
    assert_user-Takes :
        (row : PasskeyCredential) (o : Option User)
        → find (has_id raw) w.passkeys ≡ some row
        → user_by_id row.user_id w.users ≡ o
        → Takes (
            assert_user env fido (str id) (get "state" stored) (without "ceremony_id" body) row w o)
    assert_user-Takes row none k e = inl refl
    assert_user-Takes row (some user) k e =
        let done =
          enter-Entered env fido user
            (asserted env fido (str id) (without "ceremony_id" body) row w) in
        if_split Takes (not user.is_active) _ _ (λ _. inl refl)
          (λ active.
            if_split Takes
              (not (
                fido.authenticate_complete (get "state" stored) (credential_of row)
                  (without "ceremony_id" body)))
              _ _ (λ _. inl refl)
              (λ signed.
                if_split Takes
                  (clone_suspected env fido (fido.counter (without "ceremony_id" body))
                    row.sign_count)
                  _ _ (λ _. inl refl)
                  (λ unsuspected.
                    if_split Takes
                      (handle_mismatch env fido (fido.user_handle (without "ceremony_id" body))
                        user)
                      _ _ (λ _. inl refl)
                      (λ _. inr (record {
                        id = id;
                        stored = stored;
                        raw_id = raw;
                        row = row;
                        user = user;
                        named = named;
                        live = live;
                        identified = identified;
                        known = k;
                        owner = e;
                        active = active;
                        signed = signed;
                        unsuspected = unsuspected;
                        gone =
                            done.same_ceremonies id
                            ∙ ground (arith, eq_refl (ceremony_key "auth" id));
                        counts =
                            ap (find (has_id raw)) done.same_passkeys
                            ∙ find-save_row raw row _ w.passkeys refl k;
                        rows = done.same_passkeys;
                        session = done.session;
                      })))))

    assert_row-Takes :
        (o : Option PasskeyCredential)
        → find (has_id raw) w.passkeys ≡ o
        → Takes (assert_row env fido (str id) (get "state" stored) (without "ceremony_id" body) w o)
    assert_row-Takes none k = inl refl
    assert_row-Takes (some row) k = assert_user-Takes row _ k refl

  assert_id-Takes :
      (id : String) (stored : Props) (o : Option Bytes)
      → get "ceremony_id" body ≡ str id
      → w.cache (ceremony_key "auth" id) ≡ some (obj stored)
      → fido.raw_id (without "ceremony_id" body) ≡ o
      → Takes (assert_id env fido (str id) (get "state" stored) (without "ceremony_id" body) w o)
  assert_id-Takes id stored none n l e = inl refl
  assert_id-Takes id stored (some raw) n l e = assert_row-Takes id stored raw n l e _ refl

  assert_stored-Takes :
      (id : String) (o : Option Json)
      → get "ceremony_id" body ≡ str id
      → w.cache (ceremony_key "auth" id) ≡ o
      → Takes (assert_stored env fido (str id) (without "ceremony_id" body) w o)
  assert_stored-Takes id none n l = inl refl
  assert_stored-Takes id (some (obj stored)) n l = assert_id-Takes id stored _ n l refl
  assert_stored-Takes id (some _) n l = inl refl

  named-Takes :
      (ceremony : Json)
      → get "ceremony_id" body ≡ ceremony
      → Takes (
          assert_stored env fido ceremony
            (without "ceremony_id" body)
            w
            (load_ceremony "auth" ceremony w))
  named-Takes (str id) n = assert_stored-Takes id _ n refl
  named-Takes v n = inl refl

  -- A passkey assertion changes nothing, or it answers a live ceremony with a credential of an active
  -- user that python-fido2 verifies and whose counter is not suspected: then the ceremony is gone,
  -- the credential's id finds its row with the assertion's counter, used now, and the session is unchanged in its user or belongs to the
  -- credential's user, whose DID passes the gate.
  pub passkey_authenticate_complete-Asserted :
      ((passkey_authenticate_complete env fido (some (obj body)) w).0 ≡ w)
      ⊎ Asserted env fido body w (passkey_authenticate_complete env fido (some (obj body)) w).0
  unfolding passkey_authenticate_complete
  passkey_authenticate_complete-Asserted = named-Takes _ refl
