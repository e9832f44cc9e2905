-- ===== src/Views/Examples/Authorize.antt =====
-- A session and a challenge at which the theorems on authorization apply.
use iyou_idp.Prelude.{String, ◌≡◌, refl, ◌⊎◌, Option, none, some, [], ◌∷◌, if◌then◌else◌, ◌==◌}
use iyou_idp.Text.{lower}
use iyou_idp.Json.{str, obj, Props, prop, end}
use iyou_idp.Invite.Examples.{issuer}
use iyou_idp.Server.{User, World, Response, redirect, new_session}
use iyou_idp.Server.Users.{new_user}
use iyou_idp.Views.Gate.{did_passes_gate}
use iyou_idp.Views.Authorize.{sovereign_authorize, acknowledge_legal_disclaimer, pkce_gate}
use iyou_idp.Views.Authorize.Laws.{
  Cleared, sovereign_authorize-Cleared, acknowledge-sovereign_authorize, Met, pkce_gate-Met,
}
use iyou_idp.Views.Examples.{env, start}

abbrev operator : User
operator = new_user "u1" issuer

abbrev signed_in : World
signed_in = record start {
  users = operator ∷ [];
  session = record new_session { user = some "u1" };
}

abbrev library : World → World × Response
library w = (w, redirect "https://client.example/?code=c1")

sovereign_authorize-Cleared_example :
    ((sovereign_authorize env "/authorize" library signed_in ≡ library signed_in)
      × Cleared env signed_in operator)
    ⊎ (((sovereign_authorize env "/authorize" library signed_in).0 ≡ record signed_in {
      session = (sovereign_authorize env "/authorize" library signed_in).0.session;
    })
        × ((sovereign_authorize env "/authorize" library signed_in).0.session.user ≡ some "u1"))
sovereign_authorize-Cleared_example =
    sovereign_authorize-Cleared env "/authorize" library signed_in operator refl

abbrev agreement : Props
agreement = prop "consent_accepted" (str "YES") end

opened : Unit {0}
unfolding did_passes_gate lower
opened = tt

acknowledge-sovereign_authorize_example :
    sovereign_authorize env "/authorize" library
      (acknowledge_legal_disclaimer env agreement signed_in).0
    ≡ library (acknowledge_legal_disclaimer env agreement signed_in).0
unfolding opened
acknowledge-sovereign_authorize_example =
    acknowledge-sovereign_authorize env agreement "/authorize" library signed_in operator refl refl
      refl refl

abbrev waiting : World
waiting = record start {
  cache = λ k. if k == "pkce:c1" then some (obj (prop "code_challenge" (str "h") end)) else none;
}

abbrev challenge_of : String → Option String
challenge_of verifier = if verifier == "v" then some "h" else some "x"

pkce_gate-Met_example :
    (waiting.cache "pkce:c1" ≡ none)
    ⊎ Met challenge_of "c1" "v" waiting (pkce_gate challenge_of "c1" "v" waiting).0
unfolding pkce_gate
pkce_gate-Met_example = pkce_gate-Met challenge_of "c1" "v" waiting refl refl refl
