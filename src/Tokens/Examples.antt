-- ===== src/Tokens/Examples.antt =====
-- A registry, a ticket and requests at which the theorems on dependents apply.
use iyou_idp.Prelude.{String, ◌≡◌, refl, ap, true, false, none, some, [], ◌∷◌, if◌then◌else◌, ◌==◌}
use iyou_idp.Json.{Json, null, str, arr, obj, nil, cons, Props, end, prop}
use iyou_idp.Text.{strip}
use iyou_idp.Invite.Examples.{crypto}
use iyou_idp.Credentials.Examples.{readers, forged, token_passes}
use iyou_idp.Tokens.{
  Vector, Registry, recorded, record_revocation_ticket, is_credential_revoked,
  get_dependent_vector_for_did, inject_dependent_claims, injected, dep_claim, with_dep, validated,
}
use iyou_idp.Tokens.Laws.{
  register, record_ticket, calls, Injected, record_revocation_ticket-lasts,
  inject_dependent_claims-Injected,
}
use iyou_idp.Tokens.Middleware.{
  Grants, Request, intercept, grant_blocked, session_blocked, bearer_blocked,
}
use iyou_idp.Tokens.Intercept.{Passed, intercept-Passed}

abbrev child : Vector
child = record {
  child_did = "did:key:zChild";
  parent_did = "did:key:zParent";
  attestation_vc = str "h.p.s";
  bracket = "U14";
  wot_distance = 1;
  issued_at = none;
  expires_at = none;
  revoked = false;
}

abbrev empty : Registry
empty = record {
  dependents = λ did. if did == "did:key:zChild" then some child else none;
  revocations = [];
  issued = [];
  cache = λ k. none;
}

abbrev ticket : Json
ticket =
    obj (prop "tags" (arr (cons (arr (cons (str "p") (cons (str "did:key:zChild") nil))) nil)) end)

abbrev no_text : Json → String
no_text v = ""

abbrev ticketed : Registry
ticketed = (record_revocation_ticket readers no_text 5 false ticket empty).0

tokens : Unit {0}
unfolding record_revocation_ticket strip is_credential_revoked get_dependent_vector_for_did
    inject_dependent_claims intercept grant_blocked session_blocked bearer_blocked
tokens = tt

recording :
    record_revocation_ticket readers no_text 5 false ticket empty
    ≡ (ticketed, recorded "did:key:zChild")
unfolding tokens
recording = refl

-- The registration of the child again does not lift the revocation.
record_revocation_ticket-lasts_example :
    is_credential_revoked true "did:key:zChild"
      (calls readers no_text (register 6 true child ∷ record_ticket 7 true null ∷ []) ticketed)
    ≡ true
record_revocation_ticket-lasts_example =
    record_revocation_ticket-lasts readers no_text 5 false ticket empty ticketed "did:key:zChild"
      (register 6 true child ∷ record_ticket 7 true null ∷ []) true recording refl

-- The claims of another user than the subject of the credential.
abbrev dep : Props
dep = dep_claim crypto readers 99999999 true "https://iyou.me" forged (str "h.p.s")

abbrev claims : Props
claims = with_dep crypto readers 99999999 true "https://iyou.me" end "did:web:iyou.me:user:u9" dep

claims_of_another :
    inject_dependent_claims crypto readers 99999999 true "https://iyou.me" end
      "did:web:iyou.me:user:u9"
      (str "h.p.s")
      empty
    ≡ injected claims dep
unfolding tokens
claims_of_another =
    ap
      (validated crypto readers 99999999 true "https://iyou.me" end "did:web:iyou.me:user:u9"
        (str "h.p.s"))
      token_passes

inject_dependent_claims-Injected_example :
    Injected crypto readers 99999999 true "https://iyou.me" end "did:web:iyou.me:user:u9"
      (str "h.p.s")
      empty
      claims
      dep
inject_dependent_claims-Injected_example =
    inject_dependent_claims-Injected crypto readers 99999999 true "https://iyou.me" end
      "did:web:iyou.me:user:u9" (str "h.p.s") empty claims dep claims_of_another

abbrev grants : Grants
grants = record {
  by_refresh_token = λ t. none;
  by_access_token = λ t.
      if t == "a" then some (record { user_did = "did:key:zOther"; id_token = obj end }) else none;
  by_code = λ t. none;
}

abbrev request : Request
request = record {
  is_token_endpoint = false;
  grant_type = null;
  refresh_token = null;
  code = null;
  body = none;
  user_did = some "did:key:zOther";
  session_dep = null;
  authorization = "Bearer a";
  dep_revoked = false;
}

passes : intercept true ticketed grants request ≡ none
unfolding tokens
passes = refl

intercept-Passed_example : Passed true ticketed grants request
intercept-Passed_example = intercept-Passed true ticketed grants request passes
