-- ===== src/Views/Redeem/Laws.antt =====
-- What redeems an invite, and how often the sponsor is read.
use iyou_idp.Prelude.{
  String, ◌≡◌, refl, ◌⊎◌, inl, inr, true, ◌||◌, [], ◌∷◌, member, is_some, Bool-cases,
}
use iyou_idp.Text.{strip}
use iyou_idp.Crypto.{Crypto}
use iyou_idp.Json.{str, null}
use iyou_idp.Cache.{Backend, Caches}
use iyou_idp.Invite.{granted}
use iyou_idp.Invite.Admission.{verify_invite_token}
use iyou_idp.Server.{World, Env, json}
use iyou_idp.Server.Users.{request_user}
use iyou_idp.Views.Gate.{is_admin_did, beta_allowlisted_did}
use iyou_idp.Views.Redeem.{
  Redemption, submitted_key, Outcome, token_accepted, key_accepted, redeemed, airlock_sponsor,
}

module _ (c : Crypto) (P F : Backend) (env : Env) where
  -- What an outcome says of the submitted key and DID.
  abbrev pub Shows : (key did : String) → Caches P F → Outcome c P F env → Type 0
  Shows key did s (token_accepted token) =
      (verify_invite_token c env.settings P F key env.now s).1 ≡ granted token
  Shows key did s key_accepted =
      (member key env.settings.beta_invite_keys ≡ true)
      ⊎ ((is_admin_did env.settings did || beta_allowlisted_did env.settings did) ≡ true)
  Shows key did s _ = Unit

-- A granted redemption: what was shown, and what the session has now.
pub record Redeemed (c : Crypto) (P F : Backend) (env : Env) (r : Redemption) (s : Caches P F)
    (w' : World) : Type 0 where
  pub outcome : Outcome c P F env
  pub accepted : redeemed c P F env outcome ≡ true
  pub shown : Shows c P F env (submitted_key r) (strip r.did) s outcome
  pub opened : w'.session.beta_access ≡ true

module _ (c : Crypto) (P F : Backend) (env : Env) where
  abbrev Open : World → Type 0
  Open w = w.session.beta_access ≡ true

-- The sponsor is read once: a second read answers null, or both are refused with 401 and change
-- nothing.
pub airlock_sponsor-once :
    (w : World)
    → ((airlock_sponsor (airlock_sponsor w).0).1 ≡ json 200 (("sponsor_did", null) ∷ []))
      ⊎ ((airlock_sponsor (airlock_sponsor w).0 ≡ airlock_sponsor w)
          × (airlock_sponsor w ≡ (w, json 401 (("error", str "authentication_required") ∷ []))))
unfolding airlock_sponsor
airlock_sponsor-once w = elim (Bool-cases (is_some (request_user w) || w.session.beta_access)) [
  | inl e ↦ inl (rw (e, e))
  | inr e ↦ inr (rw (e, e) (refl, refl))
]
