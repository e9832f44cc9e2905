-- ===== src/Views/Challenge/Proof.antt =====
-- What a presentation has to prove before it opens a session or solves a challenge.
use iyou_idp.Prelude.{String, ◌≡◌, ◌≢◌, ◌⊎◌, true, false, none, some, ◌==◌, if◌then◌else◌}
use iyou_idp.Json.{Json, str, obj, Props, get?}
use iyou_idp.Crypto.{Crypto}
use iyou_idp.Server.{World, Env}
use iyou_idp.Views.Gate.{did_passes_gate}
use iyou_idp.Views.Challenge.{submission_of, Submission, loaded, dev_bypass_enabled}
use iyou_idp.Views.Challenge.Presentation.{proven, bridged, check_presentation}
use iyou_idp.Views.Challenge.Safety.{Opened}
use iyou_idp.Views.Challenge.{solved}

-- A presentation that was checked for a challenge, with the DID that it proves.
pub record ProvenLogin (c : Crypto) (env : Env) (body : Props) (w w' : World) : Type 0 where
  pub sent : Submission
  pub vp : Json
  pub did : String
  pub submitted : submission_of env body ≡ some sent
  pub live : w.cache sent.challenge ≢ none
  pub presented : loaded c sent.presentation ≡ some vp
  pub checked :
      (check_presentation c true sent.challenge vp ≡ proven did)
      ⊎ (check_presentation c true sent.challenge vp ≡ bridged did)
  pub passes : did_passes_gate env.settings w.session did ≡ true
  pub opened : Opened did w'

-- With DEBUG and ALLOW_EMERGENCY_BYPASS off no address is let past the signature.
pub no_bypass :
    (env : Env) (ip : String)
    → env.settings.debug ≡ false
    → env.settings.allow_emergency_bypass ≡ false
    → dev_bypass_enabled env ip ≡ false
unfolding dev_bypass_enabled
no_bypass env ip d a = rw (d, a)

-- A presentation that solves a challenge by the mobile app.
pub record Solution (c : Crypto) (env : Env) (body : Props) (w w' : World) : Type 0 where
  pub sent : Submission
  pub vp : Json
  pub did : String
  pub cached : Props
  pub submitted : submission_of env body ≡ some sent
  pub entry : w.cache sent.challenge ≡ some (obj cached)
  pub unsolved : get? "status" cached ≢ some (str "solved")
  pub presented : loaded c sent.presentation ≡ some vp
  pub checked :
      (check_presentation c false sent.challenge vp ≡ proven did)
      ⊎ (check_presentation c false sent.challenge vp ≡ bridged did)
  pub only_entry :
      (k : String)
      → w'.cache k ≡ (if sent.challenge == k then some (solved c env did cached) else w.cache k)
  pub only_cache : w' ≡ record w { cache = w'.cache }

module _ (c : Crypto) (env : Env) (ip : String) (w : World) (body : Props)
    (closed : dev_bypass_enabled env ip ≡ false) where
  abbrev Solves : World → Type 0
  Solves w' = (w' ≡ w) ⊎ Solution c env body w w'
