-- ===== src/Views/Passkeys.antt =====
-- auth_bridge/views_passkeys.py and auth_bridge/passkeys.py: the WebAuthn ceremonies. python-fido2 is
-- the parameter `Fido`; the user_id of a stored ceremony is the id of the user.
pub mod Laws
pub mod Distinct
use Prim.Native.String.{◌++◌}
use iyou_idp.Prelude.{
  ℕ, String, Bool, true, false, not, ◌&&◌, ◌||◌, Option, none, some, List, [], ◌∷◌, ◌++◌ as ◌++ₗ◌,
  eqb, leb, map, any, find, if◌then◌else◌, ◌==◌,
}
use iyou_idp.Crypto.{Bytes}
use iyou_idp.Json.{Json, bool, str, obj, Props, end, prop, get?, get, without, is_text}
use iyou_idp.Server.{User, PasskeyCredential, World, Env, Response, json, put_key, delete_key}
use iyou_idp.Server.Users.{user_by_id, request_user, evaluate_sovereign_admin_posture, establish}
use iyou_idp.Views.Gate.{gate_response}

-- python-fido2 on the payload of a browser: none where it raises. A credential is its id and key.
pub record Fido : Type 0 where
  -- the options as properties of the reply, and the state of the server
  pub register_begin : User → List (Bytes × Bytes) → Props × Json
  pub register_complete : (state : Json) → (payload : Props) → Option (Bytes × Bytes × ℕ)
  pub authenticate_begin : Props × Json
  pub authenticate_complete : (state : Json) → Bytes × Bytes → (payload : Props) → Bool
  pub raw_id : Props → Option Bytes
  pub counter : Props → ℕ
  -- none where the handle is absent or empty
  pub user_handle : Props → Option Bytes
  -- user.id.bytes
  pub id_bytes : String → Bytes
  pub websafe_encode : Bytes → String

abbrev pub same_bytes : Bytes → Bytes → Bool
same_bytes [] [] = true
same_bytes (a ∷ rest) (b ∷ bs) = eqb a b && same_bytes rest bs
same_bytes _ _ = false

abbrev pub error_reply : (status : ℕ) → String → Response
error_reply status error = json status (("error", str error) ∷ [])

abbrev pub ceremony_key : (kind id : String) → String
ceremony_key kind id = "passkey:" ++ (kind ++ (":" ++ id))

-- _load_ceremony
abbrev pub load_ceremony : (kind : String) → Json → World → Option Json
load_ceremony kind (str id) w = w.cache (ceremony_key kind id)
load_ceremony kind _ w = none

-- _destroy_ceremony
abbrev pub destroy_ceremony : (kind : String) → Json → World → World
destroy_ceremony kind (str id) w = record w { cache = delete_key (ceremony_key kind id) w.cache }
destroy_ceremony kind _ w = w

abbrev pub credential_of : PasskeyCredential → Bytes × Bytes
credential_of row = (row.credential_id, row.public_key_cose)

abbrev pub has_id : Bytes → PasskeyCredential → Bool
has_id id row = same_bytes row.credential_id id

-- row.save(): the row with this credential id is replaced
unfoldable pub save_row : PasskeyCredential → List PasskeyCredential → List PasskeyCredential
save_row row [] = []
save_row row (r ∷ rows) = if has_id row.credential_id r then row ∷ rows else r ∷ save_row row rows

abbrev entries : Props → List (String × Json)
entries end = []
entries (prop k v ps) = (k, v) ∷ entries ps

-- _existing_attested_credentials
abbrev existing : (user_id : String) → List PasskeyCredential → List (Bytes × Bytes)
existing user_id [] = []
existing user_id (row ∷ rows) =
    if row.user_id == user_id
    then credential_of row ∷ existing user_id rows
    else existing user_id rows

module _ (env : Env) (fido : Fido) where
  -- _store_ceremony, and the reply with the options
  abbrev begun : (kind : String) → (entry options : Props) → World → World × Response
  begun kind entry options w = (
    record w { cache = put_key (ceremony_key kind env.new_id) (obj entry) w.cache },
    json 200 (("ceremony_id", str env.new_id) ∷ entries options),
  )

  abbrev register_for : World → Option User → World × Response
  register_for w none = (w, error_reply 401 "authentication_required")
  register_for w (some user) =
      let (options, state) = fido.register_begin user (existing user.id w.passkeys) in
      begun "reg" (prop "state" state (prop "user_id" (str user.id) end)) options w

  unfoldable pub passkey_register_begin : World → World × Response
  passkey_register_begin w = register_for w (request_user w)

  -- A credential id is unique among the rows.
  abbrev pub registered : User → Json → World → Option (Bytes × Bytes × ℕ) → World × Response
  registered user ceremony w none = (w, error_reply 400 "invalid_attestation")
  registered user ceremony w (some (id, key, count)) =
      if any (has_id id) w.passkeys then (w, error_reply 409 "credential_already_registered") else (
        destroy_ceremony "reg" ceremony (record w {
          passkeys =
              w.passkeys
              ++ₗ record {
                user_id = user.id;
                credential_id = id;
                public_key_cose = key;
                sign_count = count;
                last_used_at = none;
              }
                ∷ [];
        }),
        json 200
            (("status", str "registered") ∷ ("credential_id", str (fido.websafe_encode id)) ∷ []),
      )

  abbrev pub register_stored : User → Json → Props → World → Option Json → World × Response
  register_stored user ceremony payload w none = (w, error_reply 400 "unknown_or_expired_ceremony")
  register_stored user ceremony payload w (some (obj stored)) =
      if is_text user.id (get "user_id" stored)
      then registered user ceremony w (fido.register_complete (get "state" stored) payload)
      else (w, error_reply 400 "ceremony_user_mismatch")
  register_stored user ceremony payload w (some _) = (w, json 500 [])

  abbrev pub register_as : Option Json → World → Option User → World × Response
  register_as body w none = (w, error_reply 401 "authentication_required")
  register_as none w (some user) = (w, error_reply 400 "malformed_json")
  register_as (some (obj body)) w (some user) =
      let ceremony = get "ceremony_id" body in
      register_stored user ceremony (without "ceremony_id" body) w (load_ceremony "reg" ceremony w)
  register_as (some _) w (some user) = (w, json 500 [])

  unfoldable pub passkey_register_complete : Option Json → World → World × Response
  passkey_register_complete body w = register_as body w (request_user w)

  unfoldable pub passkey_authenticate_begin : World → World × Response
  passkey_authenticate_begin w =
      let (options, state) = fido.authenticate_begin in
      begun "auth" (prop "state" state end) options w

  -- The test of the counters, as the source has it: a zero on either side passes.
  abbrev pub clone_suspected : (received stored : ℕ) → Bool
  clone_suspected received stored =
      not (eqb received 0) && not (eqb stored 0) && leb received stored

  abbrev pub handle_mismatch : Option Bytes → User → Bool
  handle_mismatch none user = false
  handle_mismatch (some handle) user = not (same_bytes handle (fido.id_bytes user.id))

  abbrev pub counted : Props → PasskeyCredential → PasskeyCredential
  counted payload row = record row {
    sign_count = fido.counter payload;
    last_used_at = some env.now;
  }

  abbrev pub gated : User → World → Option (World × Response) → World × Response
  gated user w (some blocked) = blocked
  gated user w none = (
    establish user "webauthn:passkey" w,
    json 200 (
        ("status", str "authenticated")
        ∷ ("did", str user.custodial_did)
        ∷ ("show_legal_disclaimer", bool user.show_legal_disclaimer)
        ∷ []),
  )

  abbrev pub asserted : Json → Props → PasskeyCredential → World → World
  asserted ceremony payload row w =
      destroy_ceremony "auth" ceremony
        (record w { passkeys = save_row (counted payload row) w.passkeys })

  abbrev pub elevated : User → World → World × User
  elevated user w =
      let (users, user') = evaluate_sovereign_admin_posture env.settings user w.users in
      (record w { users = users }, user')

  abbrev pub enter : User → World → World × Response
  enter user w =
      let (w', user') = elevated user w in
      gated user' w' (gate_response env.settings w' user'.custodial_did none)

  abbrev pub assert_user :
      Json → Json → Props → PasskeyCredential → World → Option User → World × Response
  assert_user ceremony state payload row w none = (w, json 500 [])
  assert_user ceremony state payload row w (some user) =
      if not user.is_active
      then (w, error_reply 403 "account_disabled")
      else if not (fido.authenticate_complete state (credential_of row) payload)
      then (w, error_reply 400 "invalid_assertion")
      else if clone_suspected (fido.counter payload) row.sign_count
      then (w, error_reply 400 "cloned_credential_detected")
      else if handle_mismatch (fido.user_handle payload) user
      then (w, error_reply 400 "user_handle_mismatch")
      else enter user (asserted ceremony payload row w)

  abbrev pub assert_row : Json → Json → Props → World → Option PasskeyCredential → World × Response
  assert_row ceremony state payload w none = (w, error_reply 400 "unknown_credential")
  assert_row ceremony state payload w (some row) =
      assert_user ceremony state payload row w (user_by_id row.user_id w.users)

  abbrev pub assert_id : Json → Json → Props → World → Option Bytes → World × Response
  assert_id ceremony state payload w none = (w, error_reply 400 "invalid_assertion")
  assert_id ceremony state payload w (some id) =
      assert_row ceremony state payload w (find (has_id id) w.passkeys)

  abbrev pub assert_stored : Json → Props → World → Option Json → World × Response
  assert_stored ceremony payload w none = (w, error_reply 400 "unknown_or_expired_ceremony")
  assert_stored ceremony payload w (some (obj stored)) =
      assert_id ceremony (get "state" stored) payload w (fido.raw_id payload)
  assert_stored ceremony payload w (some _) = (w, json 500 [])

  unfoldable pub passkey_authenticate_complete : Option Json → World → World × Response
  passkey_authenticate_complete none w = (w, error_reply 400 "malformed_json")
  passkey_authenticate_complete (some (obj body)) w =
      let ceremony = get "ceremony_id" body in
      assert_stored ceremony (without "ceremony_id" body) w (load_ceremony "auth" ceremony w)
  passkey_authenticate_complete (some _) w = (w, json 500 [])
