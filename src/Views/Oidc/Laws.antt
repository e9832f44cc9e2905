-- ===== src/Views/Oidc/Laws.antt =====
-- What building an authorization redirect changes.
use Prim.Native.String.{◌++◌}
use iyou_idp.Prelude.{String, ◌≡◌, ◌≢◌, Option-cases, inl, inr, arith, eq_iff}
use iyou_idp.Server.{User, World, Env}
use iyou_idp.Views.Oidc.{authorize_request, issue_code, build_oidc_redirect, resume}

module _ (env : Env) (url : String) (u : User) (w : World) where
  pub session-build : (build_oidc_redirect env url u w).0.session ≡ w.session
  unfolding build_oidc_redirect issue_code
  session-build = elim (Option-cases (authorize_request env url w.clients)) [
    | inl e ↦ rw (e, build_oidc_redirect)
    | inr (r, e) ↦ rw (e, build_oidc_redirect)
  ]

  pub users-build : (build_oidc_redirect env url u w).0.users ≡ w.users
  unfolding build_oidc_redirect issue_code
  users-build = elim (Option-cases (authorize_request env url w.clients)) [
    | inl e ↦ rw (e, build_oidc_redirect)
    | inr (r, e) ↦ rw (e, build_oidc_redirect)
  ]

  pub users-resume : (resume env url u w).0.users ≡ w.users
  users-resume = users-build

  pub session-resume : (resume env url u w).0.session ≡ w.session
  session-resume = session-build

  pub cache-build :
      (k : String)
      → "pkce:" ++ env.new_code ≢ k
      → (build_oidc_redirect env url u w).0.cache k ≡ w.cache k
  unfolding build_oidc_redirect issue_code
  cache-build k other = elim (Option-cases (authorize_request env url w.clients)) [
    | inl e ↦ rw (e, build_oidc_redirect)
    | inr (r, e) ↦ rw (e, build_oidc_redirect) (ground (arith, eq_iff ("pkce:" ++ env.new_code) k))
  ]
