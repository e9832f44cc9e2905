-- ===== src/Views/Challenge/Safety.antt =====
-- Who a challenge login opens a session for.
use iyou_idp.Prelude.{
  String, ◌≡◌, ◌≢◌, refl, ap, ◌∙◌, ◌⊎◌, inl, inr, true, Option, none, some, Bool-cases,
  Option-cases, IsIn, subst, sym,
}
use iyou_idp.Json.Fields.{is_text-eq}
use iyou_idp.Json.{Json, str, obj, Props, get?, is_text}
use iyou_idp.Server.{User, World, Env, Response}
use iyou_idp.Server.Users.{login}
use iyou_idp.Server.Users.Laws.{
  get_or_create-did, elevation-did, login-user, get_or_create-IsIn, elevation-IsIn,
}
use iyou_idp.Views.Gate.{did_passes_gate, gate_response}
use iyou_idp.Views.Gate.Laws.{gate_open, gate_blocked}
use iyou_idp.Views.Oidc.Laws.{session-resume, users-resume}
use iyou_idp.Views.Challenge.Login.{
  resolve_user, finish_status, finish_root, finish_bridged, check_challenge_status, gated,
  polled_did, polled_status, polled,
}

-- A session of an active user with this DID, who is a row of the table.
pub record Opened (did : String) (w : World) : Type 0 where
  pub user : User
  pub who : user.custodial_did ≡ did
  pub row : IsIn user w.users
  pub active : user.is_active ≡ true
  pub session_user : w.session.user ≡ some user.id

-- Either nobody was logged in, or an active user with the DID was.
abbrev pub SameUserOr : Type 0 → World → World → Type 0
SameUserOr P w w' = (w'.session.user ≡ w.session.user) ⊎ P

module _ (env : Env) (did : String) (w : World) where
  resolve_user-did : (resolve_user env did w).1.custodial_did ≡ did
  unfolding resolve_user
  resolve_user-did = elevation-did env.settings _ _ ∙ get_or_create-did env.new_id did w.users

  resolve_user-session : (resolve_user env did w).0.session ≡ w.session
  unfolding resolve_user
  resolve_user-session = refl

  resolve_user-IsIn : IsIn (resolve_user env did w).1 (resolve_user env did w).0.users
  unfolding resolve_user
  resolve_user-IsIn = elevation-IsIn env.settings _ _ (get_or_create-IsIn env.new_id did w.users)

  finish_status-cases :
      (challenge next : String)
      → SameUserOr
          (Opened did (finish_status env challenge did next w).0)
          w
          (finish_status env challenge did next w).0
  unfolding finish_status
  finish_status-cases challenge next = elim (Bool-cases (resolve_user env did w).1.is_active) [
    | inr off ↦ inl (rw off (ap (λ s. s.user) resolve_user-session))
    | inl on ↦ inr (
        rw on (record {
          user = (resolve_user env did w).1;
          who = resolve_user-did;
          row =
              subst (IsIn (resolve_user env did w).1) (sym (users-resume env next _ _))
                resolve_user-IsIn;
          active = on;
          session_user =
              ap (λ s. s.user) (session-resume env next _ _)
              ∙ login-user (resolve_user env did w).1 _;
        }))
  ]

  pub finish_root-cases :
      (challenge next : String)
      → SameUserOr
          (Opened did (finish_root env challenge did next w).0)
          w
          (finish_root env challenge did next w).0
  unfolding finish_root
  finish_root-cases challenge next = elim (Bool-cases (resolve_user env did w).1.is_active) [
    | inr off ↦ inl (rw off (ap (λ s. s.user) resolve_user-session))
    | inl on ↦ inr (
        rw on (record {
          user = (resolve_user env did w).1;
          who = resolve_user-did;
          row = resolve_user-IsIn;
          active = on;
          session_user = login-user (resolve_user env did w).1 _;
        }))
  ]

  pub finish_bridged-cases :
      (next : String)
      → SameUserOr
          (Opened did (finish_bridged env did next w).0)
          w
          (finish_bridged env did next w).0
  unfolding finish_bridged
  finish_bridged-cases next = elim (Bool-cases (resolve_user env did w).1.is_active) [
    | inr off ↦ inl (rw off (ap (λ s. s.user) resolve_user-session))
    | inl on ↦ inr (
        rw on (record {
          user = (resolve_user env did w).1;
          who = resolve_user-did;
          row =
              subst (IsIn (resolve_user env did w).1) (sym (users-resume env next _ _))
                resolve_user-IsIn;
          active = on;
          session_user =
              ap (λ s. s.user) (session-resume env next _ _)
              ∙ login-user (resolve_user env did w).1 _;
        }))
  ]

  pub gated-cases :
      (challenge : String) (next : Option String) (rest : World × Response)
      → SameUserOr (Opened did rest.0) w rest.0
      → SameUserOr
          ((did_passes_gate env.settings w.session did ≡ true)
            × Opened did (gated env challenge (gate_response env.settings w did next) rest).0)
          w
          (gated env challenge (gate_response env.settings w did next) rest).0
  gated-cases challenge next rest h = elim (Option-cases (gate_response env.settings w did next)) [
    | inl e ↦ elim h [
      | inl same ↦ inl (rw e same)
      | inr opened ↦ inr (rw e (gate_open env.settings w did next e, opened))
    ]
    | inr ((w', r), e) ↦ inl (rw e ((gate_blocked env.settings w did next w' r e).4))
  ]

-- A poll of a challenge that was solved by a DID, which the gate lets through.
pub record PolledLogin (env : Env) (id : String) (w w' : World) : Type 0 where
  pub cached : Props
  pub did : String
  pub entry : w.cache id ≡ some (obj cached)
  pub solved : get? "status" cached ≡ some (str "solved")
  pub solver : get? "did" cached ≡ some (str did)
  pub passes : did_passes_gate env.settings w.session did ≡ true
  pub opened : Opened did w'

module _ (env : Env) (id : String) (w : World) where
  polled_did-cases :
      (cached : Props) (next : String) (o : Option Json)
      → w.cache id ≡ some (obj cached)
      → get? "status" cached ≡ some (str "solved")
      → get? "did" cached ≡ o
      → SameUserOr
          (PolledLogin env id w (polled_did env id next w o).0)
          w
          (polled_did env id next w o).0
  polled_did-cases cached next none entry solved e = inl refl
  polled_did-cases cached next (some (str did)) entry solved e =
      elim (gated-cases env did w id (some next) (finish_status env id did next w)
        (finish_status-cases env did w id next)) [
          | inl same ↦ inl same
          | inr (passes, opened) ↦ inr (record {
            cached = cached;
            did = did;
            entry = entry;
            solved = solved;
            solver = e;
            passes = passes;
            opened = opened;
          })
        ]
  polled_did-cases cached next (some _) entry solved e = inl refl

  polled_status-cases :
      (cached : Props) (o : Option Json)
      → w.cache id ≡ some (obj cached)
      → get? "status" cached ≡ o
      → SameUserOr
          (PolledLogin env id w (polled_status env id cached w o).0)
          w
          (polled_status env id cached w o).0
  polled_status-cases cached none entry e = inl refl
  polled_status-cases cached (some status) entry e = elim (Bool-cases (is_text "solved" status)) [
    | inl solved ↦
        rw solved
          (polled_did-cases cached _ _ entry (e ∙ ap some (is_text-eq status "solved" solved)) refl)
    | inr open' ↦ rw open' (inl refl)
  ]

  polled-cases :
      (o : Option Json)
      → w.cache id ≡ o
      → SameUserOr (PolledLogin env id w (polled env id w o).0) w (polled env id w o).0
  polled-cases none e = inl refl
  polled-cases (some (obj cached)) e = polled_status-cases cached _ e refl
  polled-cases (some _) e = inl refl

  -- A poll that changes who the session belongs to finds the challenge solved by a DID, which passes
  -- the gate, and opens the session for an active user with that DID.
  pub poll-opens-solver :
      (check_challenge_status env id w).0.session.user ≢ w.session.user
      → PolledLogin env id w (check_challenge_status env id w).0
  unfolding check_challenge_status
  poll-opens-solver changed = elim (polled-cases (w.cache id) refl) [
    | inl same ↦ absurd (changed same)
    | inr login ↦ login
  ]
