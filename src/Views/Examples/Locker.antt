-- ===== src/Views/Examples/Locker.antt =====
-- Two users, and requests to the email locker at which its theorems apply.
use iyou_idp.Prelude.{String, ◌≡◌, refl, ◌⊎◌, true, false, Option, none, some, List, [], ◌∷◌}
use iyou_idp.Text.{lower, strip}
use iyou_idp.Json.{Json, bool, str, obj, prop, end}
use iyou_idp.Server.{User, LinkedEmail, World, Env, Session, Response, new_session}
use iyou_idp.Server.Users.{new_user}
use iyou_idp.Views.Locker.{
  Signer, challenge_link_email, verify_link_email, change_first, remove_first,
  issue_email_ownership_credential,
}
use iyou_idp.Views.Locker.Rows.{
  Request, challenge, verify, patch, remove, serve, serve_all, patch_linked_email,
  remove_linked_email, owned_by, filter_rows, export_email_credential,
}
use iyou_idp.Views.Locker.Laws.{UsedLink, verify_link_email-Uses}
use iyou_idp.Views.Locker.Exclusive.{IsExclusive}
use iyou_idp.Views.Locker.Steps.{Served, serve-Served, serve_all-IsExclusive}
use iyou_idp.Views.Locker.Foreign.{serve-foreign}
use iyou_idp.Views.Examples.{env, start}

abbrev signer : Signer
signer = record {
  rsa_sign = none;
  hmac_hex = λ text. "00";
  isoformat = λ t. "1970-01-01T00:00:00+00:00";
  vc_id = "v1";
  valid_email = λ email. true;
}

abbrev alice : User
alice = record (new_user "u1" "did:web:iyou.me:user:u1") { email = some "a@x.org" }

abbrev bob : User
bob = record (new_user "u2" "did:web:iyou.me:user:u2") { email = none }

abbrev signed_in : (id : String) → Session
signed_in id = record new_session { user = some id }

abbrev bobs : LinkedEmail
bobs = record {
  id = "e2";
  user_id = "u2";
  email = "b@x.org";
  label = "work";
  verified_at = 1000;
  is_public = false;
}

abbrev two_users : World
two_users = record start {
  users = alice ∷ bob ∷ [];
  linked_emails = bobs ∷ [];
  session = signed_in "u1";
}

abbrev asks : Option Json
asks = some (obj (prop "email" (str "C@x.org") (prop "label" (str "alias") end)))

abbrev shows : Option Json
shows = some (obj (prop "email" (str "c@x.org") (prop "otp" (str "123456") end)))

abbrev asked : World
asked = (challenge_link_email env signer asks two_users).0

locker_views : Unit {0}
unfolding challenge_link_email verify_link_email patch_linked_email remove_linked_email serve_all
    change_first remove_first issue_email_ownership_credential lower strip export_email_credential
locker_views = tt

abbrev requests : List (Env × Session × Request)
requests =
    (env, signed_in "u1", challenge asks)
    ∷ (env, signed_in "u2", verify shows)
    ∷ (env, signed_in "u1", verify shows)
    ∷ (env, signed_in "u1", verify shows)
    ∷ (env, signed_in "u1", patch "e2" (some (obj (prop "is_public" (bool true) end))))
    ∷ (env, signed_in "u1", patch "u1" (some (obj (prop "is_public" (bool true) end))))
    ∷ (env, signed_in "u2", remove "e2")
    ∷ []

-- The code works once, for the session that asked for it.
requests_leave :
    (serve_all signer requests two_users).linked_emails
    ≡ record {
      id = "u1";
      user_id = "u1";
      email = "c@x.org";
      label = "alias";
      verified_at = 2000;
      is_public = true;
    }
      ∷ []
unfolding locker_views
requests_leave = refl

-- A user without an address asks for the credential of a linked one.
export_fails :
    export_email_credential env signer
      (some "b@x.org")
      (record two_users { session = signed_in "u2" })
    ≡ Response.json 500 []
unfolding locker_views
export_fails = refl

verify_link_email-Uses_example :
    ((verify_link_email env signer shows asked).0 ≡ asked)
    ⊎ UsedLink env signer shows asked (verify_link_email env signer shows asked).0
verify_link_email-Uses_example = verify_link_email-Uses env signer shows asked

serve-Served_example : Served asked (serve signer env (verify shows) asked).0
serve-Served_example = serve-Served signer env (verify shows) asked

serve_all-IsExclusive_example :
    IsExclusive
      (serve_all signer requests two_users).users
      (serve_all signer requests two_users).linked_emails
serve_all-IsExclusive_example = serve_all-IsExclusive signer requests two_users (refl, refl, tt)

serve-foreign_example :
    filter_rows (owned_by "u2") (serve signer env (verify shows) asked).0.linked_emails ≡ bobs ∷ []
unfolding challenge_link_email lower strip
serve-foreign_example = serve-foreign signer env (verify shows) asked alice "u2" refl refl
