-- ===== src/Server.antt =====
-- What the view functions read and write: auth_bridge/models.py as tables of rows, the browser
-- session, and the cache as the keys that `ResilientCache.get` finds.
pub mod Users
use text.Mathlib.Text.{starts_with}
use iyou_idp.Prelude.{
  ℕ, String, Bool, true, false, not, Option, none, some, List, [], ◌∷◌, if◌then◌else◌, ◌==◌, find,
}
use iyou_idp.Json.{Json}
use iyou_idp.Settings.{Settings}

-- A stored password is its encoding; the unusable ones begin with "!".
pub record User : Type 0 where
  pub id : String
  pub email : Option String
  pub custodial_did : String
  pub account_tier : String
  pub is_sovereign : Bool
  pub email_verified : Bool
  pub email_verified_at : Option ℕ
  pub show_legal_disclaimer : Bool
  pub disclaimer_acknowledged_at : Option ℕ
  pub is_active : Bool
  pub is_staff : Bool
  pub is_superuser : Bool
  pub password : String

pub record FederatedIdentity : Type 0 where
  pub user_id : String
  pub provider : String
  pub provider_user_id : String

pub record PasskeyCredential : Type 0 where
  pub user_id : String
  pub credential_id : List ℕ
  pub public_key_cose : List ℕ
  pub sign_count : ℕ
  pub last_used_at : Option ℕ

pub record LinkedEmail : Type 0 where
  pub id : String
  pub user_id : String
  pub email : String
  pub label : String
  pub verified_at : ℕ
  pub is_public : Bool

-- Rows of django-oidc-provider: a client, an authorization code and a consent.
pub record Client : Type 0 where
  pub client_id : String
  pub redirect_uris : List String
  pub require_consent : Bool

pub record Code : Type 0 where
  pub code : String
  pub user_id : String
  pub client_id : String
  pub scope : List String
  pub nonce : String
  pub code_challenge : Option String

pub record UserConsent : Type 0 where
  pub user_id : String
  pub client_id : String
  pub scope : List String
  pub date_given : ℕ
  pub expires_at : ℕ

-- `user` is the id of the user that `login` has put there.
pub record Session : Type 0 where
  pub user : Option String
  pub auth_method : Option String
  pub beta_access : Bool
  pub sponsor_did : Option String
  pub verified_pending_did : Option String
  pub verified_pending_next_url : Option String
  pub post_disclaimer_redirect : Option String
  pub show_legal_disclaimer : Option Bool
  pub oauth_state : Option String
  pub oauth_provider : Option String
  pub oauth_next : Option String

abbrev pub new_session : Session
new_session = record {
  user = none;
  auth_method = none;
  beta_access = false;
  sponsor_did = none;
  verified_pending_did = none;
  verified_pending_next_url = none;
  post_disclaimer_redirect = none;
  show_legal_disclaimer = none;
  oauth_state = none;
  oauth_provider = none;
  oauth_next = none;
}

abbrev pub Cache : Type 0
Cache = String → Option Json

-- cache.set and cache.delete
abbrev pub put_key : String → Json → Cache → Cache
put_key k v c = λ j. if k == j then some v else c j

abbrev pub delete_key : String → Cache → Cache
delete_key k c = λ j. if k == j then none else c j

pub record World : Type 0 where
  pub users : List User
  pub identities : List FederatedIdentity
  pub passkeys : List PasskeyCredential
  pub linked_emails : List LinkedEmail
  pub clients : List Client
  pub codes : List Code
  pub consents : List UserConsent
  pub session : Session
  pub cache : Cache

-- What a request is handled with: the settings, the time, the random values it draws, and
-- urllib.parse on its URLs (`hostname` is none where urlparse raises, `query` is parse_qs).
pub record Env : Type 0 where
  pub settings : Settings
  pub now : ℕ
  pub new_id : String
  pub new_did : String
  pub new_code : String
  -- six digits of `secrets.choice`, and `secrets.token_urlsafe`
  pub new_otp : String
  pub new_token : String
  pub hostname : String → Option (Option String)
  pub query : String → String → List String
  -- the URL of the legal disclaimer page with `next`, percent-encoded
  pub disclaimer_url : String → String

pub data Response : Type 0 where
  json : (status : ℕ) → List (String × Json) → Response
  redirect : (url : String) → Response
  page : (template : String) → Response
  gate_page : (did : Option String) → (next_url : String) → Response

abbrev pub none_or_empty : Option String → Bool
none_or_empty none = true
none_or_empty (some s) = s == ""

-- `a or b` on texts
abbrev pub or_text : String → String → String
or_text a b = if a == "" then b else a

abbrev pub text_or : String → Option String → String
text_or d none = d
text_or d (some s) = s

abbrev pub head_or {ℓ} : {A : Type ℓ} → A → List A → A
head_or d [] = d
head_or d (a ∷ rest) = a

abbrev pub has_usable_password : User → Bool
has_usable_password u = not (starts_with u.password "!")

abbrev pub set_unusable_password : User → User
set_unusable_password u = record u { password = "!" }
