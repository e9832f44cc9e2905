-- ===== src/Pipeline/Laws.antt =====
-- Who an OAuth profile logs in, and what a refusal leaves.
use iyou_idp.Prelude.{
  String, ◌≡◌, refl, sym, ◌∙◌, Bool, true, false, not, ◌&&◌, Option, none, some, List, [], ◌∷◌,
  ◌++◌, ◌==◌, eq_refl, eq_iff, arith, any, if_both, if_split, IsIn, find-IsIn, find-none, any-some,
  and_true, ◌⊎◌, inl, inr, ◌||◌, ◌≢◌, ap,
}
use mathlib.Core.Option.{some-injective}
use iyou_idp.Server.{
  User, FederatedIdentity, LinkedEmail, World, Env, has_usable_password, set_unusable_password,
}
use iyou_idp.Server.Users.{save, user_by_id, user_by_email, has_email}
use iyou_idp.Server.Users.Laws.{user_by_id-id, user_by_email-email}
use iyou_idp.Pipeline.{
  Outcome, permission_denied, value_error, logs_in, require_password_verification, dangling,
  identity_of, link_identity, holder, is_sovereign_account, is_session_of, with_verified_email,
  known, guarded, merged, by_holder, by_identity, address, process_oauth_identity, Confirmation,
  success, failure, integrity_error, has_provider, is_identity, linked_row, row_user, or_linked,
  confirm_user, confirm_password_and_link,
}

-- A user whose identities pass `has_provider` has one at the provider.
has_provider-row :
    (u : User) (provider : String) (rows : List FederatedIdentity)
    → any (has_provider u provider) rows ≡ true
    → (i : FederatedIdentity) × IsIn i rows × (i.user_id ≡ u.id) × (i.provider ≡ provider)
has_provider-row u provider rows h =
    let (i, m, passes) = any-some (has_provider u provider) rows h in
    let (mine, there) = and_true passes in
    (i, m, (eq_iff i.user_id u.id).0 mine, (eq_iff i.provider provider).0 there)

module _ (env : Env) (provider uid email : String) (request_user : Option User) where
  -- An identity of this user of the provider.
  abbrev pub IsIdentity : FederatedIdentity → Type 0
  IsIdentity i = (i.provider ≡ provider) × (i.provider_user_id ≡ uid)

  -- No stored identity is this one.
  abbrev pub Unlinked : World → Type 0
  Unlinked w = (i : FederatedIdentity) → IsIn i w.identities → ¬ (IsIdentity i)

  -- A row of the users that the identity names, whose address is verified afterwards.
  pub record Known (w w' : World) (u : User) : Type 0 where
    pub row : FederatedIdentity
    pub stored : IsIn row w.identities
    pub is_identity : IsIdentity row
    pub before : User
    pub is_row : IsIn before w.users
    pub whose : row.user_id ≡ before.id
    pub same_user : u.id ≡ before.id
    pub users : (w'.users ≡ w.users) ⊎ (w'.users ≡ save u w.users)
    pub only_users : w' ≡ record w { users = w'.users }

  -- The user has the address, or a linked row has it for the user.
  pub data Holds (w : World) (u : User) : Type 0 where
    own : u.email ≡ some email → Holds w u
    linked :
        (row : LinkedEmail)
        → IsIn row w.linked_emails
        → row.email ≡ email
        → row.user_id ≡ u.id
        → Holds w u

  -- The identities afterwards: the new one at the end, unless the user had one at the provider.
  abbrev pub LinkedTo : User → (before after : List FederatedIdentity) → Type 0
  LinkedTo u before after =
      ((after ≡ before)
        × ((i : FederatedIdentity) × IsIn i before × (i.user_id ≡ u.id) × (i.provider ≡ provider)))
      ⊎ (after
          ≡ before ++ record { user_id = u.id; provider = provider; provider_user_id = uid } ∷ [])

  -- The holder of the address, who had no usable password; a sovereign one is the user who asks.
  pub record AutoLinked (w w' : World) (u : User) : Type 0 where
    pub before : User
    pub unlinked : Unlinked w
    pub is_row : IsIn before w.users
    pub holds : Holds w before
    pub passwordless : has_usable_password before ≡ false
    pub own_session : is_sovereign_account before ≡ true → is_session_of before request_user ≡ true
    pub same_user : u ≡ record before {
      email_verified = true;
      email_verified_at = u.email_verified_at;
      password = "!";
    }
    pub users : w'.users ≡ save u w.users
    pub identities : LinkedTo u w.identities w'.identities
    pub only_those : w' ≡ record w { users = w'.users; identities = w'.identities }

  -- A new user, of an address that nobody holds.
  pub record Created (w w' : World) (u : User) : Type 0 where
    pub unlinked : Unlinked w
    pub no_user : (v : User) → IsIn v w.users → v.email ≢ some email
    pub no_link : (row : LinkedEmail) → IsIn row w.linked_emails → row.email ≢ email
    pub id : u.id ≡ env.new_id
    pub did : u.custodial_did ≡ env.new_did
    pub address : u.email ≡ some email
    pub verified : u.email_verified ≡ true
    pub passwordless : has_usable_password u ≡ false
    pub unprivileged : (u.is_sovereign || u.is_staff || u.is_superuser) ≡ false
    pub users : w'.users ≡ w.users ++ u ∷ []
    pub identities :
        w'.identities
        ≡ w.identities
          ++ record { user_id = u.id; provider = provider; provider_user_id = uid } ∷ []
    pub only_those : w' ≡ record w { users = w'.users; identities = w'.identities }

  pub data Resolved (w w' : World) (u : User) : Type 0 where
    by_known : Known w w' u → Resolved w w' u
    by_address : AutoLinked w w' u → Resolved w w' u
    by_creation : Created w w' u → Resolved w w' u

  -- What each outcome says of the state after it.
  abbrev pub Explained : World → World × Outcome → Type 0
  Explained w (w', logs_in u) = Resolved w w' u
  Explained w (w', permission_denied message) = w' ≡ w
  Explained w (w', value_error message) = w' ≡ w
  Explained w (w', dangling) = w' ≡ w
  Explained w (w', require_password_verification id mail) =
      (w' ≡ w)
      × ((v : User) × IsIn v w.users × Holds w v × (v.id ≡ id) × (has_usable_password v ≡ true))

  row-IsIdentity : (i : FederatedIdentity) → is_identity provider uid i ≡ true → IsIdentity i
  row-IsIdentity i h =
      let (same, other) = and_true h in
      ((eq_iff i.provider provider).0 same, (eq_iff i.provider_user_id uid).0 other)

  identity_of-Unlinked : (w : World) → identity_of provider uid w ≡ none → Unlinked w
  identity_of-Unlinked w absent i m (same, other) = ground (
    arith,
    find-none (is_identity provider uid) w.identities i absent m,
    eq_iff i.provider provider,
    eq_iff i.provider_user_id uid,
  )

  verified-id : (v : User) → (with_verified_email env v).id ≡ v.id
  verified-id v = if_both (λ (x : User). x.id ≡ v.id) v.email_verified _ _ refl refl

  known-Explained :
      (w : World) (row : FederatedIdentity) (o : Option User)
      → identity_of provider uid w ≡ some row
      → user_by_id row.user_id w.users ≡ o
      → Explained w (known env w o)
  known-Explained w row none e found = refl
  known-Explained w row (some u) e found =
      let (stored, passes) = find-IsIn (is_identity provider uid) w.identities row e in
      let whose : row.user_id ≡ u.id = sym (user_by_id-id row.user_id w.users u found) in
      let is_row : IsIn u w.users =
        (find-IsIn (λ (v : User). v.id == row.user_id) w.users u found).0 in
      if_both (Explained w) u.email_verified _ _
        (by_known (record {
          row = row;
          stored = stored;
          is_identity = row-IsIdentity row passes;
          before = u;
          is_row = is_row;
          whose = whose;
          same_user = refl;
          users = inl refl;
          only_users = refl;
        }))
        (by_known (record {
          row = row;
          stored = stored;
          is_identity = row-IsIdentity row passes;
          before = u;
          is_row = is_row;
          whose = whose;
          same_user = verified-id u;
          users = inr refl;
          only_users = refl;
        }))

  -- The user that the lookups of an address give is a row that holds it.
  holder_by_link :
      (w : World) (user : User) (o : Option LinkedEmail)
      → linked_row email w ≡ o
      → row_user w o ≡ some (some user)
      → IsIn user w.users × Holds w user
  holder_by_link w user none e h = absurd (cc)
  holder_by_link w user (some row) e h =
      let found : user_by_id row.user_id w.users ≡ some user = some-injective _ _ h in
      let (stored, passes) =
        find-IsIn (λ (r : LinkedEmail). r.email == email) w.linked_emails row e in
      (
        (find-IsIn (λ (v : User). v.id == row.user_id) w.users user found).0,
        linked row stored ((eq_iff row.email email).0 passes)
            (sym (user_by_id-id row.user_id w.users user found)),
      )

  holder_row :
      (w : World) (user : User) (o : Option User)
      → user_by_email email w.users ≡ o
      → or_linked email w o ≡ some (some user)
      → IsIn user w.users × Holds w user
  holder_row w user none e h = holder_by_link w user _ refl h
  holder_row w user (some v) e h =
      let same : v ≡ user = some-injective _ _ (some-injective _ _ h) in
      let found : user_by_email email w.users ≡ some user = e ∙ ap some same in
      (
        (find-IsIn (has_email email) w.users user found).0,
        own (user_by_email-email email w.users user found),
      )

  has_email-own : (v : User) → v.email ≡ some email → has_email email v ≡ true
  has_email-own v h = rw (h, has_email, eq_refl email)

  unheld_link :
      (w : World) (o : Option LinkedEmail)
      → linked_row email w ≡ o
      → row_user w o ≡ none
      → (row : LinkedEmail) → IsIn row w.linked_emails
      → row.email ≢ email
  unheld_link w (some found) e h row m same = absurd (cc)
  unheld_link w none e h row m same = ground (
    arith,
    find-none (λ (r : LinkedEmail). r.email == email) w.linked_emails row e m,
    eq_iff row.email email,
  )

  unheld :
      (w : World) (o : Option User)
      → user_by_email email w.users ≡ o
      → or_linked email w o ≡ none
      → ((v : User) → IsIn v w.users → v.email ≢ some email)
        × ((row : LinkedEmail) → IsIn row w.linked_emails → row.email ≢ email)
  unheld w (some v) e h = absurd (cc)
  unheld w none e h = (
    λ v m own_email.
        absurd (cc (find-none (has_email email) w.users v e m, has_email-own v own_email)),
    unheld_link w _ refl h,
  )

  -- The address and its time are the only fields that the verification writes.
  verified-user :
      (v : User)
      → with_verified_email env v ≡ record v {
        email_verified = true;
        email_verified_at = (with_verified_email env v).email_verified_at;
      }
  verified-user v =
      if_split
        (λ (x : User).
          x ≡ record v { email_verified = true; email_verified_at = x.email_verified_at })
        v.email_verified _ _ (λ e. ap (λ b. record v { email_verified = b }) e) (λ e. refl)

  link_identity-LinkedTo :
      (u : User) (rows : List FederatedIdentity)
      → LinkedTo u rows (link_identity u provider uid rows)
  unfolding link_identity
  link_identity-LinkedTo u rows =
      if_split (LinkedTo u rows) (any (has_provider u provider) rows) _ _
        (λ there. inl (refl, has_provider-row u provider rows there)) (λ absent. inr refl)

  module _ (w : World) (user : User) (unlinked : identity_of provider uid w ≡ none)
      (holds : holder email w ≡ some (some user)) where
    guarded-Explained :
        (is_sovereign_account user ≡ true → is_session_of user request_user ≡ true)
        → Explained w (guarded env provider uid user w)
    guarded-Explained allowed =
        let (is_row, held) = holder_row w user _ refl holds in
        if_split (Explained w) (has_usable_password user) _ _
          (λ e. (refl, (user, is_row, held, refl, e)))
          (λ e. by_address (record {
            before = user;
            unlinked = identity_of-Unlinked w unlinked;
            is_row = is_row;
            holds = held;
            passwordless = e;
            own_session = allowed;
            same_user = verified-user (set_unusable_password user);
            users = refl;
            identities = link_identity-LinkedTo _ w.identities;
            only_those = refl;
          }))

    merged-Explained : Explained w (merged env provider uid request_user user w)
    merged-Explained =
        if_split (Explained w) (is_sovereign_account user && not (is_session_of user request_user))
          _ _ (λ e. refl) (λ e. guarded-Explained (λ h. allowed _ _ e h))
      where
        allowed : (a b : Bool) → (a && not b) ≡ false → a ≡ true → b ≡ true
        allowed a true e h = refl
        allowed true false e h = absurd (cc)
        allowed false false e h = absurd (cc)

  by_holder-Explained :
      (w : World) (o : Option (Option User))
      → identity_of provider uid w ≡ none
      → holder email w ≡ o
      → Explained w (by_holder env provider uid email request_user w o)
  by_holder-Explained w none unlinked e =
      let (no_user, no_link) = unheld w _ refl e in
      by_creation (record {
        unlinked = identity_of-Unlinked w unlinked;
        no_user = no_user;
        no_link = no_link;
        id = refl;
        did = refl;
        address = refl;
        verified = refl;
        passwordless = refl;
        unprivileged = refl;
        users = refl;
        identities = refl;
        only_those = refl;
      })
  by_holder-Explained w (some none) unlinked e = refl
  by_holder-Explained w (some (some user)) unlinked e = merged-Explained w user unlinked e

  by_identity-Explained :
      (w : World) (o : Option FederatedIdentity)
      → identity_of provider uid w ≡ o
      → Explained w (by_identity env provider uid email request_user w o)
  by_identity-Explained w (some row) e = known-Explained w row _ e refl
  by_identity-Explained w none e = by_holder-Explained w _ e refl

-- The outcome of the pipeline for a profile: a login only if the provider asserted the address, and
-- then, where an identity of this provider and uid is stored, of the user that it names; otherwise of
-- a user who has the address, by the row of the user or of a linked address, who had no usable
-- password and, if sovereign, is the user who asks; or else of a new, unprivileged user of that
-- address, which no user and no linked row has. Of the tables only the users and the identities may
-- change. A password is asked for only of a user who has the address and a usable password, and
-- with every outcome but a login nothing changes.
pub process_oauth_identity-Explained :
    (env : Env) (provider uid email : String) (other : Option String) (verified : Bool)
    (request_user : Option User) (w : World)
    → Explained env provider uid
        (address env email other)
        request_user
        w
        (process_oauth_identity env provider uid email other verified request_user w)
      × (verified ≡ false
          → process_oauth_identity env provider uid email other verified request_user w
            ≡ (w, permission_denied "OAuth provider did not assert email verification."))
unfolding process_oauth_identity
process_oauth_identity-Explained env provider uid email other false request_user w =
    (refl, λ e. refl)
process_oauth_identity-Explained env provider uid email other true request_user w = (
  if_both (Explained env provider uid (address env email other) request_user w)
      (address env email other == "") _ _ refl
      (by_identity-Explained env provider uid (address env email other) request_user w _ refl),
  λ e. absurd (cc (e)),
)

-- The pipeline does not touch the session.
module _ (env : Env) (provider uid email : String) (request_user : Option User) (w : World) where
  abbrev SameSession : World × Outcome → Type 0
  SameSession r = r.0.session ≡ w.session

  known-session : (o : Option User) → SameSession (known env w o)
  known-session none = refl
  known-session (some u) = if_both SameSession u.email_verified _ _ refl refl

  by_holder-session :
      (o : Option (Option User)) → SameSession (by_holder env provider uid email request_user w o)
  by_holder-session none = refl
  by_holder-session (some none) = refl
  by_holder-session (some (some user)) =
      if_both SameSession (is_sovereign_account user && not (is_session_of user request_user)) _ _
        refl (if_both SameSession (has_usable_password user) _ _ refl refl)

  by_identity-session :
      (o : Option FederatedIdentity)
      → SameSession (by_identity env provider uid email request_user w o)
  by_identity-session (some row) = known-session _
  by_identity-session none = by_holder-session (holder email w)

pub process_oauth_identity-session :
    (env : Env) (provider uid email : String) (other : Option String) (verified : Bool)
    (request_user : Option User) (w : World)
    → (process_oauth_identity env provider uid email other verified request_user w).0.session
      ≡ w.session
unfolding process_oauth_identity
process_oauth_identity-session env provider uid email other verified request_user w =
    if_both (SameSession env provider uid email request_user w) (not verified) _ _ refl (
      if_both (SameSession env provider uid email request_user w) (address env email other == "") _
        _ refl (by_identity-session env provider uid (address env email other) request_user w _))

module _ (check_password : (encoded password : String) → Bool)
    (user_id password provider uid : String) where
  -- What each result of the confirmation says.
  abbrev pub Confirmed : World → World × Confirmation → Type 0
  Confirmed w (w', success u) =
      (user_by_id user_id w.users ≡ some u)
      × (check_password u.password password ≡ true)
      × (w' ≡ record w { identities = w'.identities })
      × (((w'.identities ≡ w.identities)
            × ((i : FederatedIdentity) × IsIn i w.identities
                × (i.user_id ≡ u.id)
                × (i.provider ≡ provider)))
          ⊎ (w'.identities
              ≡ w.identities
                ++ record { user_id = u.id; provider = provider; provider_user_id = uid } ∷ []))
  Confirmed w (w', failure error) = w' ≡ w
  Confirmed w (w', integrity_error) = w' ≡ w

  confirm_user-Confirmed :
      (w : World) (o : Option User)
      → user_by_id user_id w.users ≡ o
      → Confirmed w (confirm_user check_password password provider uid w o)
  confirm_user-Confirmed w none e = refl
  confirm_user-Confirmed w (some u) e =
      if_split (Confirmed w) (check_password u.password password) _ _
        (λ right.
          if_split (Confirmed w) (any (has_provider u provider) w.identities) _ _
            (λ there. (e, right, refl, inl (refl, has_provider-row u provider w.identities there)))
            (λ absent.
              if_both (Confirmed w) (any (is_identity provider uid) w.identities) _ _ refl
                (e, right, refl, inr refl)))
        (λ wrong. refl)

  -- A confirmation succeeds only for the user of the id with the right password, and then
  -- nothing changes but the identities: the new one is added at the end, or the user had one at the
  -- provider and all stay as they were. Otherwise nothing changes.
  pub confirm_password_and_link-Confirmed :
      (w : World)
      → Confirmed w (confirm_password_and_link check_password user_id password provider uid w)
  unfolding confirm_password_and_link
  confirm_password_and_link-Confirmed w = confirm_user-Confirmed w _ refl
