-- ===== src/Server/Users.antt =====
-- The table of users: lookups, `get_or_create`, `save`, and auth_bridge/backend.py.
pub mod Laws
use iyou_idp.Prelude.{
  ℕ, String, Bool, true, false, not, ◌&&◌, ◌||◌, Option, none, some, List, [], ◌∷◌, ◌++◌,
  if◌then◌else◌, ◌==◌, find,
}
use iyou_idp.Settings.{Settings}
use Prim.Native.String.{◌++◌ as ◌++ₛ◌}
use iyou_idp.Json.{str}
use iyou_idp.Server.{User, World, Session, new_session, put_key}

abbrev pub user_by_id : String → List User → Option User
user_by_id id = find (λ u. u.id == id)

abbrev pub user_by_did : String → List User → Option User
user_by_did did = find (λ u. u.custodial_did == did)

abbrev pub has_email : String → User → Bool
has_email email u = elim u.email [ none ↦ false | some e ↦ e == email ]

abbrev pub user_by_email : String → List User → Option User
user_by_email email = find (has_email email)

-- user.save(): the row with this id is replaced, or added
unfoldable pub save : User → List User → List User
save u [] = u ∷ []
save u (v ∷ us) = if v.id == u.id then u ∷ us else v ∷ save u us

-- A row with the defaults of the model.
abbrev pub new_user : (id did : String) → User
new_user id did = record {
  id = id;
  email = none;
  custodial_did = did;
  account_tier = "managed_free";
  is_sovereign = false;
  email_verified = false;
  email_verified_at = none;
  show_legal_disclaimer = true;
  disclaimer_acknowledged_at = none;
  is_active = true;
  is_staff = false;
  is_superuser = false;
  password = "";
}

abbrev found_or_new : String → String → Option User → User × Bool
found_or_new id did none = (new_user id did, true)
found_or_new id did (some u) = (u, false)

-- User.objects.get_or_create(custodial_did=did, defaults={"email": None})
unfoldable pub get_or_create : (id did : String) → List User → List User × User × Bool
get_or_create id did users =
    let (u, created) = found_or_new id did (user_by_did did users) in
    (if created then users ++ u ∷ [] else users, u, created)

module _ (settings : Settings) where
  abbrev pub needs_elevation : User → Bool
  needs_elevation u =
      (u.custodial_did == settings.admin_did) && (not u.is_staff || not u.is_superuser)

  -- backend.py evaluate_sovereign_admin_posture
  unfoldable pub evaluate_sovereign_admin_posture : User → List User → List User × User
  unfolding save
  evaluate_sovereign_admin_posture u users =
      let elevated = record u { is_staff = true; is_superuser = true; password = "!" } in
      if needs_elevation u then (save elevated users, elevated) else (users, u)

-- DIDAuthBackend.authenticate: any password is accepted
unfoldable pub authenticate : Option String → List User → Option User
authenticate none users = none
authenticate (some username) users = elim (user_by_did username users) [
  | none ↦ none
  | some u ↦ if u.is_active then some u else none
]

-- django.contrib.auth.login: the data of an anonymous session is kept; a session of another user
-- is flushed first.
unfoldable pub login : User → Session → Session
login u s = elim s.user [
  | none ↦ record s { user = some u.id }
  | some id ↦ if id == u.id then s else record new_session { user = some u.id }
]

-- request.user, with its `is_authenticated`
abbrev pub request_user : World → Option User
request_user w = elim w.session.user [ none ↦ none | some id ↦ user_by_id id w.users ]

-- login, request.session["auth_method"] = method, and the entry user_auth_method:{id} of the cache
abbrev pub establish : User → (method : String) → World → World
establish u method w = record w {
  session = record (login u w.session) { auth_method = some method };
  cache = put_key ("user_auth_method:" ++ₛ u.id) (str method) w.cache;
}
