-- ===== src/Views/Email/Keys.antt =====
-- The kinds of cache keys that an email login writes never meet the key of a code.
use Prim.Native.String.{◌++◌}
use iyou_idp.Prelude.{String, ◌≡◌, ◌≢◌, refl, arith, eq_iff}
use iyou_idp.Text.Prefixes.{nth, is_inside, prefixes_differ}
use iyou_idp.Json.{Json}
use iyou_idp.Server.{Cache, put_key}
use iyou_idp.Views.Email.{otp_key, token_key}

pub method_key-ne-otp_key : (id email : String) → "user_auth_method:" ++ id ≢ otp_key email
unfolding nth is_inside
method_key-ne-otp_key id email =
    prefixes_differ 0 "user_auth_method:" "email_otp:" id email refl refl (λ h. omega (arith, h))

pub pkce_key-ne-otp_key : (kept email : String) → "pkce:" ++ kept ≢ otp_key email
unfolding nth is_inside
pkce_key-ne-otp_key kept email =
    prefixes_differ 0 "pkce:" "email_otp:" kept email refl refl (λ h. omega (arith, h))

pub token_key-ne-otp_key : (token email : String) → token_key token ≢ otp_key email
unfolding nth is_inside
token_key-ne-otp_key token email =
    prefixes_differ 9 "email_otp_token:" "email_otp:" token email refl refl (λ h. omega (arith, h))

-- A key that is written leaves the others.
pub put_key-other : (k j : String) (v : Json) (c : Cache) → k ≢ j → put_key k v c j ≡ c j
put_key-other k j v c other = ground (arith, eq_iff k j)
