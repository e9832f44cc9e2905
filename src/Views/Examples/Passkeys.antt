-- ===== src/Views/Examples/Passkeys.antt =====
-- A credential and a ceremony at which the theorems on passkeys apply.
use iyou_idp.Prelude.{◌≡◌, refl, ◌⊎◌, true, none, some, [], ◌∷◌, if◌then◌else◌, ◌==◌, map}
use iyou_idp.Json.{null, str, obj, Props, prop, end, without}
use iyou_idp.Invite.Examples.{issuer}
use iyou_idp.Server.{PasskeyCredential, World}
use iyou_idp.Server.Users.{new_user, evaluate_sovereign_admin_posture, save, login}
use iyou_idp.Views.Gate.{did_passes_gate, gate_response}
use iyou_idp.Views.Passkeys.{
  passkey_register_complete, Fido, passkey_authenticate_complete, save_row,
}
use iyou_idp.Views.Passkeys.Distinct.{IsDistinct, passkeys-IsDistinct}
use iyou_idp.Views.Passkeys.Laws.{Asserted, passkey_authenticate_complete-Asserted}
use iyou_idp.Views.Examples.{env, start}

-- An authenticator that reports the counter 0.
abbrev fido : Fido
fido = record {
  register_begin = λ user known. (end, null);
  register_complete = λ state payload. none;
  authenticate_begin = (end, null);
  authenticate_complete = λ state credential payload. true;
  raw_id = λ payload. some (7 ∷ []);
  counter = λ payload. 0;
  user_handle = λ payload. none;
  id_bytes = λ id. [];
  websafe_encode = λ bytes. "";
}

abbrev row : PasskeyCredential
row = record {
  user_id = "u1";
  credential_id = 7 ∷ [];
  public_key_cose = [];
  sign_count = 5;
  last_used_at = none;
}

abbrev body : Props
body = prop "ceremony_id" (str "x") end

abbrev challenged : World
challenged = record start {
  users = new_user "u1" issuer ∷ [];
  passkeys = row ∷ [];
  cache = λ k. if k == "passkey:auth:x" then some (obj (prop "state" null end)) else none;
}

opened : Unit {0}
unfolding passkey_authenticate_complete save_row did_passes_gate gate_response
    evaluate_sovereign_admin_posture save login without
opened = tt

-- The counter falls from 5 to 0, and the session is the user's.
counter_resets :
    map
      (λ r. r.sign_count)
      (passkey_authenticate_complete env fido (some (obj body)) challenged).0.passkeys
    ≡ 0 ∷ []
unfolding opened
counter_resets = refl

logs_in_by_passkey :
    (passkey_authenticate_complete env fido (some (obj body)) challenged).0.session.user ≡ some "u1"
unfolding opened
logs_in_by_passkey = refl

passkey_authenticate_complete-Asserted_example :
    ((passkey_authenticate_complete env fido (some (obj body)) challenged).0 ≡ challenged)
    ⊎ Asserted env fido body challenged
        (passkey_authenticate_complete env fido (some (obj body)) challenged).0
passkey_authenticate_complete-Asserted_example =
    passkey_authenticate_complete-Asserted env fido body challenged

passkeys-IsDistinct_example :
    IsDistinct (passkey_register_complete env fido (some (obj body)) challenged).0.passkeys
    × IsDistinct (passkey_authenticate_complete env fido (some (obj body)) challenged).0.passkeys
passkeys-IsDistinct_example = passkeys-IsDistinct env fido (some (obj body)) challenged (refl, tt)
