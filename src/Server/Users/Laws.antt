-- ===== src/Server/Users/Laws.antt =====
-- What lookups, get_or_create, the elevation and login give back.
use iyou_idp.Prelude.{
  String, ◌≡◌, refl, Bool, true, Option, none, some, List, [], ◌∷◌, find, arith, ◌==◌, eq_iff,
  eq_refl, Bool-cases, if_split, if◌then◌else◌, inl, inr, ap, ◌∙◌, IsIn, ◌++◌, if_both, last-IsIn,
  find-IsIn,
}
use iyou_idp.Settings.{Settings}
use iyou_idp.Server.{User, Session}
use iyou_idp.Server.Users.{
  save, user_by_id, user_by_did, user_by_email, has_email, get_or_create,
  evaluate_sovereign_admin_posture, login, found_or_new, needs_elevation,
}

pub find-holds {ℓ} :
    {A : Type ℓ} (p : A → Bool) (xs : List A) (a : A) → find p xs ≡ some a → p a ≡ true
find-holds p [] a h = absurd (cc)
find-holds p (x ∷ xs) a h = ground (arith, find-holds p xs a)

pub user_by_did-did :
    (did : String) (users : List User) (u : User)
    → user_by_did did users ≡ some u
    → u.custodial_did ≡ did
user_by_did-did did users u h =
    (eq_iff _ _).0 (find-holds (λ (v : User). v.custodial_did == did) users u h)

pub get_or_create-did :
    (id did : String) (users : List User) → (get_or_create id did users).1.custodial_did ≡ did
unfolding get_or_create
get_or_create-did id did users = go (user_by_did did users) refl
  where
    go :
        (o : Option User)
        → user_by_did did users ≡ o
        → (found_or_new id did o).0.custodial_did ≡ did
    go none e = refl
    go (some u) e = user_by_did-did did users u e

pub elevation-did :
    (settings : Settings) (u : User) (users : List User)
    → (evaluate_sovereign_admin_posture settings u users).1.custodial_did ≡ u.custodial_did
unfolding evaluate_sovereign_admin_posture
elevation-did settings u users = ground arith

pub elevation-id :
    (settings : Settings) (u : User) (users : List User)
    → (evaluate_sovereign_admin_posture settings u users).1.id ≡ u.id
unfolding evaluate_sovereign_admin_posture
elevation-id settings u users = ground arith

pub elevation-email :
    (settings : Settings) (u : User) (users : List User)
    → (evaluate_sovereign_admin_posture settings u users).1.email ≡ u.email
unfolding evaluate_sovereign_admin_posture
elevation-email settings u users = ground arith

pub user_by_email-email :
    (email : String) (users : List User) (u : User)
    → user_by_email email users ≡ some u
    → u.email ≡ some email
user_by_email-email email users u h = go u.email refl (find-holds (has_email email) users u h)
  where
    go : (o : Option String) → u.email ≡ o → has_email email u ≡ true → u.email ≡ some email
    go none e p = absurd (cc (rw e at p))
    go (some s) e p = e ∙ ap some ((eq_iff s email).0 (rw e at p))

pub user_by_id-id :
    (id : String) (users : List User) (u : User) → user_by_id id users ≡ some u → u.id ≡ id
user_by_id-id id users u h = (eq_iff _ _).0 (find-holds (λ (v : User). v.id == id) users u h)

-- A saved row is the one that its id finds.
pub user_by_id-save : (u : User) (users : List User) → user_by_id u.id (save u users) ≡ some u
unfolding save
user_by_id-save u [] = ground (arith, eq_refl u.id)
user_by_id-save u (v ∷ us) = elim (Bool-cases (v.id == u.id)) [
  | inl e ↦ ground (arith, eq_refl u.id)
  | inr e ↦ ground (arith, user_by_id-save u us)
]

pub login-user : (u : User) (s : Session) → (login u s).user ≡ some u.id
unfolding login
login-user u s = go s.user refl
  where
    go : (o : Option String) → s.user ≡ o → (login u s).user ≡ some u.id
    go none e = rw (e, login)
    go (some id) e = ground (arith, eq_iff id u.id)

-- Saving a row changes what its own id finds, and nothing else.
pub user_by_id-save_if :
    (u : User) (users : List User) (id : String)
    → user_by_id id (save u users) ≡ (if u.id == id then some u else user_by_id id users)
unfolding save
user_by_id-save_if u [] id = ground arith
user_by_id-save_if u (v ∷ us) id =
    if_split (λ rows. user_by_id id rows ≡ (if u.id == id then some u else user_by_id id (v ∷ us)))
      (v.id == u.id) _ _ (λ e. ground (arith, eq_iff v.id u.id))
      (λ e.
        ground
          (arith, eq_iff v.id u.id, eq_iff u.id id, eq_iff v.id id, user_by_id-save_if u us id))

-- A saved row is one of the rows.
pub save-IsIn : (u : User) (users : List User) → IsIn u (save u users)
unfolding save
save-IsIn u [] = IsIn.head refl
save-IsIn u (v ∷ us) =
    if_both (IsIn u) (v.id == u.id) _ _ (IsIn.head refl) (IsIn.tail (save-IsIn u us))

pub get_or_create-IsIn :
    (id did : String) (users : List User)
    → IsIn (get_or_create id did users).1 (get_or_create id did users).0
unfolding get_or_create
get_or_create-IsIn id did users = go (user_by_did did users) refl
  where
    go :
        (o : Option User)
        → user_by_did did users ≡ o
        → IsIn
            (found_or_new id did o).0
            (if (found_or_new id did o).1 then users ++ (found_or_new id did o).0 ∷ [] else users)
    go none e = last-IsIn users _
    go (some u) e = (find-IsIn (λ (v : User). v.custodial_did == did) users u e).0

pub elevation-IsIn :
    (settings : Settings) (u : User) (users : List User)
    → IsIn u users
    → IsIn
        (evaluate_sovereign_admin_posture settings u users).1
        (evaluate_sovereign_admin_posture settings u users).0
unfolding evaluate_sovereign_admin_posture
elevation-IsIn settings u users m =
    if_both (λ (r : List User × User). IsIn r.1 r.0) (needs_elevation settings u) _ _
      (save-IsIn _ users) m
