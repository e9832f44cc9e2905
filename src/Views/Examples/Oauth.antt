-- ===== src/Views/Examples/Oauth.antt =====
-- Accounts, a provider and callbacks at which the theorems on OAuth logins apply.
use iyou_idp.Prelude.{
  String, ◌≡◌, refl, ◌⊎◌, Bool, true, false, none, some, [], ◌∷◌, if◌then◌else◌, ◌==◌,
}
use iyou_idp.Text.{lower, strip}
use iyou_idp.Json.{bool, str, obj, Props, prop, end}
use iyou_idp.Server.{User, World, redirect, new_session}
use iyou_idp.Server.Users.{new_user, save, login as log_in}
use iyou_idp.Pipeline.{
  permission_denied, process_oauth_identity, link_identity, address, confirm_password_and_link,
  success, identity_of,
}
use iyou_idp.Pipeline.Laws.{
  Explained, Confirmed, process_oauth_identity-Explained, confirm_password_and_link-Confirmed,
}
use iyou_idp.Views.Gate.{did_passes_gate, gate_response}
use iyou_idp.Views.Oidc.{build_oidc_redirect, authorize_request, is_safe_public_redirect}
use iyou_idp.Views.Oauth.{Web, Query, initiate, oauth_providers}
use iyou_idp.Views.Oauth.Profile.{
  extractor, exchange_code, fetch_userinfo, extract_google_profile, decode_id_token,
}
use iyou_idp.Views.Oauth.Callback.{oauth_callback, complete_login, refused}
use iyou_idp.Views.Oauth.Login.{IsServerError}
use iyou_idp.Views.Oauth.Laws.{oauth_callback-once}
use iyou_idp.Views.Examples.{env, start}

-- A sovereign user, a managed one without a password, and one with a password and an identity.
abbrev carol : User
carol = record (new_user "u3" "did:key:zC") {
  email = some "c@x.org";
  is_sovereign = true;
  password = "!";
}

abbrev dave : User
dave = record (new_user "u4" "did:web:iyou.me:user:u4") {
  email = some "d@x.org";
  password = "!";
  show_legal_disclaimer = false;
}

abbrev erin : User
erin = record (new_user "u5" "did:web:iyou.me:user:u5") {
  email = some "e@x.org";
  password = "pbkdf2";
}

abbrev accounts : World
accounts = record start {
  users = carol ∷ dave ∷ erin ∷ [];
  identities = record { user_id = "u5"; provider = "google"; provider_user_id = "g1" } ∷ [];
  session = record new_session { beta_access = true };
}

pipeline : Unit {0}
unfolding process_oauth_identity link_identity save lower strip confirm_password_and_link
pipeline = tt

carol_is_refused : process_oauth_identity env "google" "g9" "C@x.org" none true none accounts ≡ (
  accounts,
  permission_denied
      "Cannot link external OAuth provider to sovereign identity without cryptographic authorization.",
)
unfolding pipeline
carol_is_refused = refl

process_oauth_identity-Explained_example :
    Explained env "google" "g9"
      (address env "D@x.org" none)
      none
      accounts
      (process_oauth_identity env "google" "g9" "D@x.org" none true none accounts)
    × (true ≡ false
        → process_oauth_identity env "google" "g9" "D@x.org" none true none accounts
          ≡ (accounts, permission_denied "OAuth provider did not assert email verification."))
process_oauth_identity-Explained_example =
    process_oauth_identity-Explained env "google" "g9" "D@x.org" none true none accounts

abbrev same_text : String → String → Bool
same_text encoded password = encoded == password

-- The identity g2 is reported as linked, though the user keeps g1.
confirms_without_link :
    (confirm_password_and_link same_text "u5" "pbkdf2" "google" "g2" accounts).1 ≡ success erin
unfolding pipeline
confirms_without_link = refl

stays_unlinked :
    identity_of "google" "g2"
      (confirm_password_and_link same_text "u5" "pbkdf2" "google" "g2" accounts).0
    ≡ none
unfolding pipeline
stays_unlinked = refl

confirm_password_and_link-Confirmed_example :
    Confirmed same_text "u5" "pbkdf2" "github" "h1" accounts
      (confirm_password_and_link same_text "u5" "pbkdf2" "github" "h1" accounts)
confirm_password_and_link-Confirmed_example =
    confirm_password_and_link-Confirmed same_text "u5" "pbkdf2" "github" "h1" accounts

abbrev daves_claims : Props
daves_claims =
    prop "sub" (str "g4") (prop "email" (str "d@x.org") (prop "email_verified" (bool true) end))

abbrev web : Web
web = record {
  idp_base_url = "https://iyou.me";
  client_id = λ provider. "id";
  client_secret = λ provider. "secret";
  urlencode = λ parameters. "";
  post = λ url parameters.
      some (obj (prop "access_token" (str "t") (prop "id_token" (str "h.p.s") end)));
  get_bearer = λ url token. some (obj end);
  str_of = λ value. "";
  capitalize = λ text. text;
  encode_segment = λ claims. "p";
  decode_segment = λ segment. if segment == "p" then some (obj daves_claims) else none;
}

abbrev asks : Query
asks = record {
  query = λ key. if key == "next" then "http://wun.iyou.svc.cluster.local/" else "";
  form = λ key. "";
}

abbrev returns : Query
returns = record {
  query = λ key. if key == "state" then "tok" else if key == "code" then "c" else "";
  form = λ key. "";
}

abbrev begun : World
begun = (initiate env web "google" asks accounts).0

oauth : Unit {0}
unfolding initiate oauth_callback oauth_providers extractor exchange_code fetch_userinfo
    extract_google_profile decode_id_token complete_login process_oauth_identity link_identity save
    lower strip gate_response did_passes_gate log_in build_oidc_redirect authorize_request
    is_safe_public_redirect
oauth = tt

dave_logs_in : (oauth_callback env web "google" returns begun).0.session.user ≡ some "u4"
unfolding oauth
dave_logs_in = refl

-- The next URL of the session is followed though is_safe_public_redirect is never asked.
follows_any_next :
    (oauth_callback env web "google" returns begun).1
    ≡ redirect "http://wun.iyou.svc.cluster.local/"
unfolding oauth
follows_any_next = refl

oauth_callback-once_example :
    (((oauth_callback env web "google" returns begun).0 ≡ begun)
      × IsServerError env web "google" (oauth_callback env web "google" returns begun).1)
    ⊎ (oauth_callback env web "google" returns (oauth_callback env web "google" returns begun).0
        ≡ ((oauth_callback env web "google" returns begun).0, refused env web "google"))
unfolding oauth_providers
oauth_callback-once_example = oauth_callback-once env web "google" returns returns begun _ refl
