-- ===== src/Views/Graduation/Custody.antt =====
-- Who holds a user's key: the specification that graduation implements, for any sequence of requests.
use Prim.Native.String.{◌++◌}
use text.Mathlib.TextLemmas.{append_cancel_left, append_cancel_right}
use iyou_idp.Prelude.{
  String, ◌≡◌, ◌≢◌, refl, sym, ap, ◌∙◌, ◌⊎◌, inl, inr, false, Option, none, some, List, [], ◌∷◌,
  ◌==◌, eq_iff, eq_refl, if◌then◌else◌, Bool-cases, subst, IsIn,
}
use iyou_idp.Crypto.{Crypto, Bytes}
use iyou_idp.Json.{Json, Props}
use iyou_idp.Server.{User, World, Session, Env, Response}
use iyou_idp.Server.Users.{save, user_by_id, request_user}
use iyou_idp.Server.Users.Laws.{user_by_id-id, user_by_id-save_if}
use iyou_idp.Vault.{Vault, IsLawful, Reply, failed, missing, found, key_path, read_identity_key}
use iyou_idp.Views.Graduation.{
  Keys, loaded, of_reply, load_vault_keypair, promoted, Saving, Outcome, graduate_confirm,
}
use iyou_idp.Views.Graduation.Laws.{Graduated, shred_failed, graduate_confirm-Graduated}

-- The custody of a user id: no such user, managed with what the vault answers, or sovereign.
pub data Custody : Type 0 where
  unknown : Custody
  managed : Reply → Custody
  sovereign : Reply → Custody

-- The specification: custody stays, or a managed key that is held becomes a sovereign user's, and
-- the vault holds nothing of it any more.
pub data Step (a b : Custody) : Type 0 where
  stays : b ≡ a → Step a b
  graduates :
      (secret : Props) (left : Reply)
      → a ≡ managed (found secret)
      → b ≡ sovereign left
      → ((rest : Props) → left ≢ found rest)
      → Step a b

pub data Steps (a : Custody) : Custody → Type 0 where
  done : Steps a a
  next : {m b : Custody} → Steps a m → Step m b → Steps a b

prepended : {a m b : Custody} → Step a m → Steps m b → Steps a b
prepended st done = next done st
prepended st (next rest last) = next (prepended st rest) last

-- A held key stays where it is until it is given up for good.
abbrev pub KeptOrGivenUp : Props → Custody → Type 0
KeptOrGivenUp secret b =
    (b ≡ managed (found secret))
    ⊎ ((left : Reply) × (b ≡ sovereign left) × ((rest : Props) → left ≢ found rest))

Steps-KeptOrGivenUp :
    {a b : Custody} (secret : Props)
    → a ≡ managed (found secret)
    → Steps a b
    → KeptOrGivenUp secret b
Steps-KeptOrGivenUp secret e done = inl e
Steps-KeptOrGivenUp secret e (next rest (stays same)) =
    subst (KeptOrGivenUp secret) (sym same) (Steps-KeptOrGivenUp secret e rest)
Steps-KeptOrGivenUp secret e (next rest (graduates s left from to gone)) = inr (left, to, gone)

module _ (V : Vault) where
  abbrev pub custody_of : Option User → V.Store → Custody
  custody_of none s = unknown
  custody_of (some u) s =
      if u.is_sovereign
      then sovereign (read_identity_key V u.custodial_did s)
      else managed (read_identity_key V u.custodial_did s)

  abbrev pub custody : (id : String) → World → V.Store → Custody
  custody id w s = custody_of (user_by_id id w.users) s

-- The column custodial_did is unique.
abbrev pub IsUnique : List User → Type 0
IsUnique users =
    (i j : String) (u v : User)
    → user_by_id i users ≡ some u
    → user_by_id j users ≡ some v
    → u.custodial_did ≡ v.custodial_did
    → i ≡ j

key_path-injective : (a b : String) → key_path a ≡ key_path b → a ≡ b
key_path-injective a b h =
    append_cancel_right a b "/ed25519"
      (append_cancel_left "identity/" (a ++ "/ed25519") (b ++ "/ed25519") h)

user_of-session :
    (w : World) (u : User) (o : Option String)
    → w.session.user ≡ o
    → request_user w ≡ some u
    → user_by_id u.id w.users ≡ some u
user_of-session w u none e h = absurd (cc (rw e at h))
user_of-session w u (some id) e h =
    let found_by : user_by_id id w.users ≡ some u = rw e at h in
    subst (λ x. user_by_id x w.users ≡ some u) (sym (user_by_id-id id w.users u found_by)) found_by

module _ (V : Vault) (c : Crypto) (keys : Keys) (env : Env) where
  loaded-found :
      (reply : Reply) (seed : Bytes)
      → of_reply keys reply ≡ loaded seed
      → (secret : Props) × (reply ≡ found secret)
  loaded-found failed seed h = absurd (cc)
  loaded-found missing seed h = absurd (cc)
  loaded-found (found secret) seed h = (secret, refl)

  held-found :
      (did : String) (s : V.Store) (seed : Bytes)
      → load_vault_keypair V c keys env did s ≡ loaded seed
      → (secret : Props) × (read_identity_key V did s ≡ found secret)
  unfolding load_vault_keypair
  held-found did s seed h = loaded-found _ seed h

  -- A row found after the promotion was found before, with the same DID.
  found_before :
      (users : List User) (u : User) (i : String) (v : User)
      → user_by_id u.id users ≡ some u
      → user_by_id i (save (promoted u) users) ≡ some v
      → (v' : User) × (user_by_id i users ≡ some v') × (v'.custodial_did ≡ v.custodial_did)
  found_before users u i v here h =
      let after = sym (user_by_id-save_if (promoted u) users i) ∙ h in
      elim (Bool-cases (u.id == i)) [
        | inl e ↦ (
          u,
          subst (λ x. user_by_id x users ≡ some u) ((eq_iff u.id i).0 e) here,
          ap did_of (rw e at after),
        )
        | inr e ↦ (v, rw e at after, refl)
      ]
    where
      did_of : Option User → String
      did_of none = ""
      did_of (some x) = x.custodial_did

  promoted-IsUnique :
      (users : List User) (u : User)
      → IsUnique users
      → user_by_id u.id users ≡ some u
      → IsUnique (save (promoted u) users)
  promoted-IsUnique users u unique here i j a b x y same =
      let (a', fa, da) = found_before users u i a here x in
      let (b', fb, db) = found_before users u j b here y in
      unique i j a' b' fa fb (da ∙ same ∙ sym db)

  module _ (lawful : IsLawful V) (db : Saving) (body : Option Json) (w : World) (s : V.Store)
      (unique : IsUnique w.users) (r : Outcome V c keys env db)
      (g : Graduated V c keys env db body w s r) where
    here_now : user_by_id g.by.user.id w.users ≡ some g.by.user
    here_now = user_of-session w g.by.user _ refl g.by.authenticated

    rows_now :
        (id : String)
        → user_by_id id r.0.0.users
          ≡ (if g.by.user.id == id then some (promoted g.by.user) else user_by_id id w.users)
    rows_now id =
        ap (λ (v : World). user_by_id id v.users) g.only_promoted
        ∙ user_by_id-save_if (promoted g.by.user) w.users id

    -- The promoted user's own custody.
    own_Step : Step (custody V g.by.user.id w s) (custody V g.by.user.id r.0.0 r.1)
    own_Step =
        let (secret, read_before) = held-found g.by.user.custodial_did s g.by.seed g.by.held in
        graduates secret (read_identity_key V g.by.user.custodial_did r.1)
          (rw (here_now, g.by.managed) (ap managed read_before))
          (rw (rows_now g.by.user.id, eq_refl g.by.user.id))
          (λ rest h.
            lawful.delete_done _ s rest g.deleted
              (ap (read_identity_key V g.by.user.custodial_did) (sym g.shredded) ∙ h))

    -- Another user's custody: the vault is another path.
    other_vault :
        (id : String) (v : User)
        → (g.by.user.id == id) ≡ false
        → user_by_id id w.users ≡ some v
        → read_identity_key V v.custodial_did r.1 ≡ read_identity_key V v.custodial_did s
    other_vault id v e here =
        ap (read_identity_key V v.custodial_did) g.shredded
        ∙ lawful.delete_other _ _ s (λ h.
          let same : g.by.user.id ≡ id =
            unique g.by.user.id id g.by.user v here_now here (key_path-injective _ _ h) in
          cc (sym e ∙ (eq_iff g.by.user.id id).1 same))

    other_custody :
        (id : String) (o : Option User)
        → (g.by.user.id == id) ≡ false
        → user_by_id id w.users ≡ o
        → custody_of V o r.1 ≡ custody_of V o s
    other_custody id none e here = refl
    other_custody id (some v) e here =
        ap (λ r. if v.is_sovereign then sovereign r else managed r) (other_vault id v e here)

    Graduated-Step : (id : String) → Step (custody V id w s) (custody V id r.0.0 r.1)
    Graduated-Step id = elim (Bool-cases (g.by.user.id == id)) [
      | inl e ↦
          subst (λ x. Step (custody V x w s) (custody V x r.0.0 r.1)) ((eq_iff g.by.user.id id).0 e)
            own_Step
      | inr e ↦ stays (rw (rows_now id, e) (other_custody id _ e refl))
    ]

    Graduated-IsUnique : IsUnique r.0.0.users
    Graduated-IsUnique =
        subst (λ (v : World). IsUnique v.users) (sym g.only_promoted)
          (promoted-IsUnique w.users g.by.user unique here_now)

  -- A confirmation that is not answered with a failed deletion is at most one step of the
  -- specification, for every user; DIDs stay unique.
  pub graduate_confirm-Step :
      (lawful : IsLawful V) (db : Saving) (body : Option Json) (w : World) (s : V.Store)
      → IsUnique w.users
      → (graduate_confirm V c keys env db body w s).0.1 ≢ shred_failed
      → IsUnique (graduate_confirm V c keys env db body w s).0.0.users
        × ((id : String)
            → Step (custody V id w s) (
                custody V id
                  (graduate_confirm V c keys env db body w s).0.0
                  (graduate_confirm V c keys env db body w s).1))
  graduate_confirm-Step lawful db body w s unique answered =
      elim (graduate_confirm-Graduated V c keys env db body w s) [
        | inl (same, kept) ↦ (
          subst (λ (v : World). IsUnique v.users) (sym same) unique,
          λ id. stays (
              ap (λ (v : World). custody V id v (graduate_confirm V c keys env db body w s).1) same
              ∙ ap (custody V id w) kept),
        )
        | inr (inl g) ↦ (
          Graduated-IsUnique lawful db body w s unique _ g,
          Graduated-Step lawful db body w s unique _ g,
        )
        | inr (inr failure) ↦ absurd (answered failure.answered)
      ]

-- A request of any session at any time, with how the database takes it.
pub record Request : Type 0 where
  pub env : Env
  pub db : Saving
  pub session : Session
  pub body : Option Json

module _ (V : Vault) (c : Crypto) (keys : Keys) where
  -- A sequence of confirmations, by any sessions, with their responses.
  unfoldable pub confirm_all : List Request → World → V.Store → (World × V.Store) × List Response
  confirm_all [] w s = ((w, s), [])
  confirm_all (r ∷ rs) w s =
      let done = graduate_confirm V c keys r.env r.db r.body (record w { session = r.session }) s in
      let rest = confirm_all rs done.0.0 done.1 in (rest.0, done.0.1 ∷ rest.1)

  confirm_all-Steps :
      (lawful : IsLawful V) (rs : List Request) (w : World) (s : V.Store) (id : String)
      → IsUnique w.users
      → ¬ (IsIn shred_failed (confirm_all rs w s).1)
      → Steps (custody V id w s) (custody V id (confirm_all rs w s).0.0 (confirm_all rs w s).0.1)
  unfolding confirm_all
  confirm_all-Steps lawful [] w s id unique none_failed = done
  confirm_all-Steps lawful (r ∷ rs) w s id unique none_failed =
      let (still, step) =
        graduate_confirm-Step V c keys r.env lawful r.db r.body (record w { session = r.session }) s
          unique (λ e. none_failed (IsIn.head (sym e))) in
      prepended (step id)
        (confirm_all-Steps lawful rs _ _ id still (λ m. none_failed (IsIn.tail m)))

  -- Over any sequence of confirmations by any sessions, whatever the database does, a key that the
  -- vault holds for a managed user stays there with the user managed, or the user is sovereign and the
  -- vault holds nothing of it; provided that none of them was answered vault_shred_failed. The vault
  -- is lawful and DIDs are unique at the start.
  pub confirm_all-KeptOrGivenUp :
      (lawful : IsLawful V) (rs : List Request) (w : World) (s : V.Store) (id : String)
      (secret : Props)
      → IsUnique w.users
      → custody V id w s ≡ managed (found secret)
      → ¬ (IsIn shred_failed (confirm_all rs w s).1)
      → KeptOrGivenUp secret (custody V id (confirm_all rs w s).0.0 (confirm_all rs w s).0.1)
  confirm_all-KeptOrGivenUp lawful rs w s id secret unique held none_failed =
      Steps-KeptOrGivenUp secret held (confirm_all-Steps lawful rs w s id unique none_failed)
