-- ===== src/Views/Locker.antt =====
-- auth_bridge/views_email_locker.py: further addresses of a user, each proven by a code.
-- Locker/Rows has the views on the rows that there are.
pub mod Rows
pub mod Laws
pub mod Exclusive
pub mod Steps
pub mod Foreign
use Prim.Native.String.{◌++◌}
use iyou_idp.Prelude.{
  ℕ, String, Bool, true, false, not, ◌&&◌, ◌||◌, Option, none, some, List, [], ◌∷◌, ◌++◌ as ◌++ₗ◌,
  find, any, member, leb, if◌then◌else◌, ◌==◌,
}
use iyou_idp.Prelude.Int.{pos}
use iyou_idp.Text.{strip, lower}
use iyou_idp.Json.{
  Json, null, bool, int, str, arr, obj, Items, nil, cons, Props, end, prop, get?, get, get_or,
  truthy,
}
use iyou_idp.Json.Dumps.{dumps, canonical_ascii}
use iyou_idp.Server.{User, LinkedEmail, World, Env, Response, json, Cache, put_key, delete_key}
use iyou_idp.Server.Users.{request_user, has_email}
use iyou_idp.Views.Challenge.Presentation.{name_in}
use iyou_idp.Views.Email.{digits, otp_text, compare_digest}

-- What the views call of PyJWT, hmac and django.core.validators: signing with the first RSA key of
-- the provider, if there is one, and the HMAC of a text under SECRET_KEY; `vc_id` is a fresh uuid4.
pub record Signer : Type 0 where
  pub rsa_sign : Option (Props → String)
  pub hmac_hex : String → String
  pub isoformat : ℕ → String
  pub vc_id : String
  pub valid_email : String → Bool

abbrev pub locker_error : (status : ℕ) → String → Response
locker_error status error = json status (("error", str error) ∷ [])

abbrev pub described : (status : ℕ) → (error description : String) → Response
described status error description =
    json status (("error", str error) ∷ ("error_description", str description) ∷ [])

abbrev pub authentication_required : Response
authentication_required = locker_error 401 "authentication_required"

abbrev pub invalid_json : Response
invalid_json = described 400 "invalid_payload" "Invalid JSON payload."

abbrev pub uncaught : Response
uncaught = json 500 []

-- str(value); the values that the views store are texts
abbrev pub text_of_json : Json → String
text_of_json (str s) = s
text_of_json v = otp_text v

abbrev pub link_key : String → String
link_key email = "email_link_otp:" ++ email

abbrev pub valid_labels : List String
valid_labels = "personal" ∷ "work" ∷ "alias" ∷ []

abbrev pub label_text : Json → String
label_text (str s) = lower (strip s)
label_text _ = "personal"

abbrev pub or_personal : String → String
or_personal label = if member label valid_labels then label else "personal"

abbrev pub has_address : String → LinkedEmail → Bool
has_address email row = row.email == email

-- Whether a user or a linked row holds the address.
abbrev pub claimed : String → World → Bool
claimed email w = any (has_email email) w.users || any (has_address email) w.linked_emails

-- The row that `filter(id=id, user=request.user)` finds.
abbrev pub is_own : (id : String) → User → LinkedEmail → Bool
is_own id user row = (row.id == id) && (row.user_id == user.id)

-- linked_email.save() and linked_email.delete(), on the row that was found
unfoldable pub change_first :
    (LinkedEmail → Bool) → (LinkedEmail → LinkedEmail) → List LinkedEmail → List LinkedEmail
change_first p f [] = []
change_first p f (r ∷ rows) = if p r then f r ∷ rows else r ∷ change_first p f rows

unfoldable pub remove_first : (LinkedEmail → Bool) → List LinkedEmail → List LinkedEmail
remove_first p [] = []
remove_first p (r ∷ rows) = if p r then rows else r ∷ remove_first p rows

module _ (env : Env) (signer : Signer) where
  abbrev issued : String
  issued = signer.isoformat env.now

  abbrev subject : User → (email : Json) → String → Props
  subject user email label =
      prop "id" (str user.custodial_did)
        (prop "email" email (prop "label" (str label) (prop "verified_at" (str issued) end)))

  abbrev credential_with : User → Json → String → (proof : Props) → Props
  credential_with user email label proof =
      prop "@context"
        (arr (
          cons (str "https://www.w3.org/2018/credentials/v1")
            (cons (str "https://iyou.me/credentials/email-ownership/v1") nil)))
        (prop "id" (str ("urn:uuid:" ++ signer.vc_id)) (
          prop "type"
            (arr (cons (str "VerifiableCredential") (cons (str "EmailOwnershipCredential") nil)))
            (prop "issuer" (str "did:web:iyou.me") (
              prop "issuanceDate" (str issued)
                (prop "credentialSubject" (obj (subject user email label)) proof)))))

  abbrev jwt_claims : User → Json → String → Props
  jwt_claims user email label = prop "sub" (str user.custodial_did) (
      prop "iss" (str "did:web:iyou.me") (
        prop "iat" (int (pos env.now)) (
          prop "nbf" (int (pos env.now))
            (prop "vc" (obj (credential_with user email label end)) end))))

  abbrev proof_of : (type method field value : String) → Props
  proof_of type method field value =
      prop "proof"
        (obj (
          prop "type" (str type) (
            prop "created" (str issued) (
              prop "verificationMethod" (str method)
                (prop "proofPurpose" (str "assertionMethod") (prop field (str value) end))))))
        end

  abbrev signed_with : User → Json → String → Option (Props → String) → Props
  signed_with user email label (some sign) =
      proof_of "RsaSignature2018" "did:web:iyou.me#keys-1" "jws"
        (sign (jwt_claims user email label))
  signed_with user email label none =
      proof_of "HmacSha256Signature2020" "did:web:iyou.me#keys-hmac" "proofValue"
        (signer.hmac_hex (dumps canonical_ascii (obj (credential_with user email label end))))

  unfoldable pub issue_email_ownership_credential : User → (email : Json) → (label : String) → Json
  issue_email_ownership_credential user email label =
      obj (credential_with user email label (signed_with user email label signer.rsa_sign))

  abbrev pub link_entry : User → (label : String) → Json
  link_entry user label =
      obj
        (prop "user_id" (str user.id) (prop "otp" (str env.new_otp) (prop "label" (str label) end)))

  abbrev pub challenge_address : User → Props → String → World → World × Response
  challenge_address user body email w =
      let label = or_personal (label_text (get_or (str "personal") "label" body)) in
      if not (signer.valid_email email)
      then (w, described 400 "invalid_email" "Invalid email address format.")
      else if claimed email w
      then (w, locker_error 409 "email_already_claimed")
      else (
        record w { cache = put_key (link_key email) (link_entry user label) w.cache },
        json 200 (("success", bool true) ∷ ("message", str "Verification code dispatched.") ∷ []),
      )

  abbrev pub challenge_email_field : User → Props → Json → World → World × Response
  challenge_email_field user body (str raw) w =
      if raw == ""
      then (w, described 400 "missing_email" "Email address is required.")
      else challenge_address user body (lower (strip raw)) w
  challenge_email_field user body _ w =
      (w, described 400 "missing_email" "Email address is required.")

  abbrev pub challenge_user : Option Json → World → Option User → World × Response
  challenge_user body w none = (w, authentication_required)
  challenge_user none w (some user) = (w, invalid_json)
  challenge_user (some (obj body)) w (some user) =
      challenge_email_field user body (get_or (str "") "email" body) w
  challenge_user (some _) w (some user) = (w, uncaught)

  -- ChallengeLinkEmailView.post
  unfoldable pub challenge_link_email : Option Json → World → World × Response
  challenge_link_email body w = challenge_user body w (request_user w)

  abbrev pub linked : User → (email label : String) → LinkedEmail
  linked user email label = record {
    id = env.new_id;
    user_id = user.id;
    email = email;
    label = label;
    verified_at = env.now;
    is_public = false;
  }

  abbrev verified_reply : User → (email label : String) → Response
  verified_reply user email label = json 200 (
      ("success", bool true)
      ∷ ("email", str email)
      ∷ ("label", str label)
      ∷ ("vc", issue_email_ownership_credential user (str email) label)
      ∷ [])

  -- get_or_create(email=email), by the row that there is
  abbrev pub add_link :
      User → (email label : String) → World → Option LinkedEmail → World × Response
  add_link user email label w none = (
    record w { linked_emails = w.linked_emails ++ₗ linked user email label ∷ [] },
    verified_reply user email label,
  )
  add_link user email label w (some row) =
      if row.user_id == user.id
      then (w, verified_reply user email label)
      else (w, locker_error 409 "email_already_claimed")

  -- Once the code matched; it is gone already.
  abbrev pub finish_link : User → (email label : String) → World → World × Response
  finish_link user email label w =
      if claimed email w
      then (w, locker_error 409 "email_already_claimed")
      else add_link user email label w (find (has_address email) w.linked_emails)

  abbrev pub spent_link : (email : String) → World → World
  spent_link email w = record w { cache = delete_key (link_key email) w.cache }

  abbrev pub matched_link : User → String → Props → World → Option Bool → World × Response
  matched_link user email cached w none = (w, uncaught)
  matched_link user email cached w (some false) =
      (w, described 400 "invalid_otp" "Invalid verification code.")
  matched_link user email cached w (some true) =
      finish_link user email (text_of_json (get_or (str "personal") "label" cached))
        (spent_link email w)

  abbrev pub entry_link : User → (email otp : String) → World → Option Json → World × Response
  entry_link user email otp w none =
      (w, described 400 "expired_or_invalid_otp" "Verification code expired or not found.")
  entry_link user email otp w (some (obj cached)) =
      if text_of_json (get_or (str "") "user_id" cached) == user.id
      then matched_link user email cached w
          (compare_digest otp (str (text_of_json (get_or (str "") "otp" cached))))
      else (
        w,
        described 403 "user_mismatch" "Verification code does not belong to current session.",
      )
  entry_link user email otp w (some _) = (w, uncaught)

  abbrev pub email_field : Json → String
  email_field (str s) = lower (strip s)
  email_field _ = ""

  abbrev pub verify_fields : User → (email otp : String) → World → World × Response
  verify_fields user email otp w =
      if email == "" || otp == ""
      then (w, described 400 "missing_parameters" "Email and OTP are required.")
      else entry_link user email otp w (w.cache (link_key email))

  abbrev pub verify_user : Option Json → World → Option User → World × Response
  verify_user body w none = (w, authentication_required)
  verify_user none w (some user) = (w, invalid_json)
  verify_user (some (obj body)) w (some user) =
      verify_fields user (email_field (get "email" body))
        (digits (otp_text (get_or (str "") "otp" body))) w
  verify_user (some _) w (some user) = (w, uncaught)

  -- VerifyLinkEmailView.post
  unfoldable pub verify_link_email : Option Json → World → World × Response
  unfolding issue_email_ownership_credential
  verify_link_email body w = verify_user body w (request_user w)
