-- ===== src/Pipeline.antt =====
-- auth_bridge/pipeline.py: whose account an OAuth profile belongs to.
pub mod Laws
use iyou_idp.Prelude.{
  ℕ, String, Bool, true, false, not, ◌&&◌, ◌||◌, Option, none, some, List, [], ◌∷◌, ◌++◌, find, any,
  if◌then◌else◌, ◌==◌,
}
use iyou_idp.Text.{lower, strip}
use iyou_idp.Server.{
  User, FederatedIdentity, LinkedEmail, World, Env, has_usable_password, set_unusable_password,
}
use iyou_idp.Server.Users.{save, user_by_id, user_by_email, new_user}

-- What process_oauth_identity returns, or the exception that it raises. `dangling` is an identity or
-- a linked address whose user is gone, which the foreign keys exclude.
pub data Outcome : Type 0 where
  permission_denied : (message : String) → Outcome
  value_error : (message : String) → Outcome
  logs_in : User → Outcome
  require_password_verification : (user_id : String) → (email : Option String) → Outcome
  dangling : Outcome

abbrev pub is_identity : (provider uid : String) → FederatedIdentity → Bool
is_identity provider uid i = (i.provider == provider) && (i.provider_user_id == uid)

-- FederatedIdentity.objects.filter(provider=..., provider_user_id=...).first()
abbrev pub identity_of : (provider uid : String) → World → Option FederatedIdentity
identity_of provider uid w = find (is_identity provider uid) w.identities

abbrev pub has_provider : User → (provider : String) → FederatedIdentity → Bool
has_provider user provider i = (i.user_id == user.id) && (i.provider == provider)

abbrev pub identity : User → (provider uid : String) → FederatedIdentity
identity user provider uid = record {
  user_id = user.id;
  provider = provider;
  provider_user_id = uid;
}

-- FederatedIdentity.objects.get_or_create(user=..., provider=..., defaults=...): an identity of the
-- user at the provider is kept, whatever its uid.
unfoldable pub link_identity :
    User → (provider uid : String) → List FederatedIdentity → List FederatedIdentity
link_identity user provider uid identities =
    if any (has_provider user provider) identities
    then identities
    else identities ++ identity user provider uid ∷ []

abbrev pub linked_row : (email : String) → World → Option LinkedEmail
linked_row email w = find (λ (row : LinkedEmail). row.email == email) w.linked_emails

-- Who holds an address: `none`, or the user that its row names.
abbrev pub row_user : World → Option LinkedEmail → Option (Option User)
row_user w none = none
row_user w (some row) = some (user_by_id row.user_id w.users)

abbrev pub or_linked : (email : String) → World → Option User → Option (Option User)
or_linked email w (some user) = some (some user)
or_linked email w none = row_user w (linked_row email w)

abbrev pub holder : (email : String) → World → Option (Option User)
holder email w = or_linked email w (user_by_email email w.users)

abbrev pub is_sovereign_account : User → Bool
is_sovereign_account user = user.is_sovereign || (user.account_tier == "sovereign")

-- request_user is the user
abbrev pub is_session_of : User → Option User → Bool
is_session_of user none = false
is_session_of user (some v) = v.id == user.id

module _ (env : Env) where
  abbrev pub first_time : Option ℕ → Option ℕ
  first_time none = some env.now
  first_time (some t) = some t

  abbrev pub with_verified_email : User → User
  with_verified_email user = if user.email_verified then user else record user {
    email_verified = true;
    email_verified_at = first_time user.email_verified_at;
  }

  abbrev pub known : World → Option User → World × Outcome
  known w none = (w, dangling)
  known w (some user) =
      let verified = with_verified_email user in
      if user.email_verified
      then (w, logs_in user)
      else (record w { users = save verified w.users }, logs_in verified)

  abbrev pub auto_linked : (provider uid : String) → User → World → World × Outcome
  auto_linked provider uid user w =
      let linked = with_verified_email (set_unusable_password user) in
      (
        record w {
          users = save linked w.users;
          identities = link_identity linked provider uid w.identities;
        },
        logs_in linked,
      )

  abbrev pub guarded : (provider uid : String) → User → World → World × Outcome
  guarded provider uid user w =
      if has_usable_password user
      then (w, require_password_verification user.id user.email)
      else auto_linked provider uid user w

  abbrev pub merge_refused : String
  merge_refused =
      "Cannot link external OAuth provider to sovereign identity without cryptographic authorization."

  abbrev pub merged : (provider uid : String) → Option User → User → World → World × Outcome
  merged provider uid request_user user w =
      if is_sovereign_account user && not (is_session_of user request_user)
      then (w, permission_denied merge_refused)
      else guarded provider uid user w

  -- User.objects.create_user(email=..., email_verified=True, ...); the address is normalized already.
  abbrev pub created : (email : String) → User
  created email = record (new_user env.new_id env.new_did) {
    email = some email;
    email_verified = true;
    email_verified_at = some env.now;
    password = "!";
  }

  abbrev pub unknown : (provider uid email : String) → World → World × Outcome
  unknown provider uid email w = (
    record w {
      users = w.users ++ created email ∷ [];
      identities = w.identities ++ identity (created email) provider uid ∷ [];
    },
    logs_in (created email),
  )

  abbrev pub by_holder :
      (provider uid email : String) → Option User → World → Option (Option User) → World × Outcome
  by_holder provider uid email request_user w none = unknown provider uid email w
  by_holder provider uid email request_user w (some none) = (w, dangling)
  by_holder provider uid email request_user w (some (some user)) =
      merged provider uid request_user user w

  abbrev pub by_identity :
      (provider uid email : String)
      → Option User
      → World
      → Option FederatedIdentity
      → World × Outcome
  by_identity provider uid email request_user w (some i) = known w (user_by_id i.user_id w.users)
  by_identity provider uid email request_user w none =
      by_holder provider uid email request_user w (holder email w)

  -- `email`, or kwargs["verified_email"] where it is empty
  abbrev given_email : String → Option String → String
  given_email email none = email
  given_email email (some other) = if email == "" then other else email

  abbrev pub address : (email : String) → Option String → String
  address email other = lower (strip (given_email email other))

  unfoldable pub process_oauth_identity :
      (provider uid email : String)
      → (verified_email : Option String) → (email_verified : Bool) → (request_user : Option User)
      → World
      → World × Outcome
  process_oauth_identity provider uid email verified_email email_verified request_user w =
      if not email_verified
      then (w, permission_denied "OAuth provider did not assert email verification.")
      else if address email verified_email == ""
      then (w, value_error "Missing email address for OAuth identity resolution.")
      else by_identity provider uid (address email verified_email) request_user w
          (identity_of provider uid w)

-- What confirm_password_and_link returns; `integrity_error` is the exception of the unique columns.
pub data Confirmation : Type 0 where
  success : User → Confirmation
  failure : (error : String) → Confirmation
  integrity_error : Confirmation

module _ (check_password : (encoded password : String) → Bool) where
  abbrev pub with_link : (provider uid : String) → User → World → World × Confirmation
  with_link provider uid user w =
      if any (has_provider user provider) w.identities
      then (w, success user)
      else if any (is_identity provider uid) w.identities
      then (w, integrity_error)
      else (record w { identities = w.identities ++ identity user provider uid ∷ [] }, success user)

  abbrev pub confirm_user :
      (password provider uid : String) → World → Option User → World × Confirmation
  confirm_user password provider uid w none = (w, failure "User not found")
  confirm_user password provider uid w (some user) =
      if check_password user.password password
      then with_link provider uid user w
      else (w, failure "Invalid password")

  -- `user_id` is a UUID.
  unfoldable pub confirm_password_and_link :
      (user_id password provider uid : String) → World → World × Confirmation
  confirm_password_and_link user_id password provider uid w =
      confirm_user password provider uid w (user_by_id user_id w.users)
