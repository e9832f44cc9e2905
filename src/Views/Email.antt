-- ===== src/Views/Email.antt =====
-- auth_bridge/views.py: ChallengeEmailView and VerifyEmailView, the login by a code sent by email.
-- The message itself is not part of the state.
pub mod Keys
pub mod Safety
pub mod RoundTrip
use Prim.Native.String.{◌++◌}
use text.Mathlib.Text.{starts_with}
use iyou_idp.Prelude.{
  ℕ, Char, code, String, Bool, true, false, not, ◌&&◌, ◌||◌, Option, none, some, List, [], ◌∷◌, leb,
  is_some, if◌then◌else◌, ◌==◌,
}
use iyou_idp.Text.{strip, lower, contains, ends_with, all_chars}
use iyou_idp.Json.{Json, null, bool, str, obj, Props, end, prop, get?, get, get_or, or, truthy}
use iyou_idp.Json.Dumps.{dumps, in_order_ascii}
use iyou_idp.Server.{
  User, World, Session, Env, Response, json, redirect, Cache, put_key, delete_key,
}
use iyou_idp.Server.Users.{
  new_user, save, user_by_email, evaluate_sovereign_admin_posture, establish,
}
use iyou_idp.Views.Gate.{gate_response}
use iyou_idp.Views.Oidc.{safe_or_default, resume}

abbrev pub bad_request : String → Response
bad_request message = json 400 (("error", str message) ∷ [])

-- An exception that leaves the view.
abbrev pub uncaught : Response
uncaught = json 500 []

abbrev pub otp_key : String → String
otp_key email = "email_otp:" ++ email

abbrev pub token_key : String → String
token_key token = "email_otp_token:" ++ token

abbrev pub is_address : String → Bool
is_address email = contains "@" email && not (starts_with email "@") && not (ends_with "@" email)

-- re.sub(r"\D", "", value), on the ASCII digits
abbrev pub digits : String → String
digits String.[] = ""
digits (String.◌∷◌ c s) =
    if leb 48 (code c) && leb (code c) 57 then String.◌∷◌ c (digits s) else digits s

-- str(value); only the digits of it are used
abbrev pub otp_text : Json → String
otp_text (str s) = s
otp_text v = dumps in_order_ascii v

-- hmac.compare_digest, which raises unless both are ASCII texts
abbrev pub compare_digest : String → Json → Option Bool
compare_digest given (str kept) =
    if all_chars (λ c. leb c 127) given && all_chars (λ c. leb c 127) kept
    then some (kept == given)
    else none
compare_digest given _ = none

-- `matched` of _verify: the token is compared where one was given, and the code otherwise.
unfoldable pub matched : (token otp : String) → Props → Option Bool
matched token otp cached =
    if not (token == "") && is_some (get? "token" cached)
    then compare_digest token (get "token" cached)
    else if not (otp == "") && is_some (get? "otp" cached)
    then compare_digest otp (get "otp" cached)
    else some false

-- The user whose address was proven: no password is left, and the first proof keeps its time.
abbrev pub verified_user : (now : ℕ) → User → User
verified_user now u = record u {
  email_verified = true;
  email_verified_at = elim u.email_verified_at [ none ↦ some now | some t ↦ some t ];
  password = "!";
}

module _ (env : Env) where
  abbrev pub next_of : Json → String
  next_of (str s) = safe_or_default env s
  next_of _ = env.settings.idp_wun_url

  -- cache_payload
  abbrev pub sent : (next_url email : String) → Props
  sent next_url email = prop "otp" (str env.new_otp) (
      prop "token" (str env.new_token)
        (prop "next_url" (str next_url) (prop "email" (str email) end)))

  abbrev pub dispatched : (next_url email : String) → World → World
  dispatched next_url email w = record w {
    cache =
        put_key (token_key env.new_token) (str email)
          (put_key (otp_key email) (obj (sent next_url email)) w.cache);
  }

  abbrev challenge_for : Props → String → World → World × Response
  challenge_for body email w =
      let next_url = next_of (or (get "next_url" body) (or (get "next" body) (str ""))) in
      if is_address email
      then (
        dispatched next_url email w,
        json 200 (("success", bool true) ∷ ("message", str "Verification code dispatched.") ∷ []),
      )
      else (w, bad_request "Invalid email address")

  abbrev challenge_to : Props → Json → World → World × Response
  challenge_to body (str raw) w =
      if raw == ""
      then (w, bad_request "Email is required")
      else challenge_for body (lower (strip raw)) w
  challenge_to body _ w = (w, bad_request "Email is required")

  -- ChallengeEmailView.post
  unfoldable pub challenge_email : Option Json → World → World × Response
  challenge_email none w = (w, bad_request "Invalid JSON payload")
  challenge_email (some (obj body)) w = challenge_to body (get_or (str "") "email" body) w
  challenge_email (some _) w = (w, uncaught)

  abbrev pub provisioned : (email : String) → User
  provisioned email = record (verified_user env.now (new_user env.new_id env.new_did)) {
    email = some email;
  }

  abbrev pub verified : String → Option User → User
  verified email (some u) = verified_user env.now u
  verified email none = provisioned email

  -- The user of the address, or a new one, with the elevation of the operator's DID.
  unfoldable pub account_of : (email : String) → World → World × User
  account_of email w =
      let u = verified email (user_by_email email w.users) in
      let (users, user) = evaluate_sovereign_admin_posture env.settings u (save u w.users) in
      (record w { users = users }, user)

  abbrev verified_json : User → Json
  verified_json user = obj (
      prop "email" (elim user.email [ none ↦ null | some e ↦ str e ])
        (prop "did" (str user.custodial_did) (
          prop "email_verified" (bool user.email_verified) (
            prop "account_tier" (str user.account_tier) (
              prop "is_authenticated" (bool true)
                (prop "show_legal_disclaimer" (bool user.show_legal_disclaimer) end))))))

  abbrev answer : (is_get : Bool) → (next_url url : String) → User → Response
  answer is_get next_url url user =
      if is_get
      then (if user.show_legal_disclaimer
          then redirect (env.disclaimer_url next_url)
          else redirect url)
      else json 200 (
          ("success", bool true)
          ∷ ("redirect_url", str url)
          ∷ ("show_legal_disclaimer", bool user.show_legal_disclaimer)
          ∷ ("user", verified_json user)
          ∷ [])

  abbrev pub enter : User → (next_url : String) → World → World
  enter user next_url w =
      let entered = establish user "otp:email" w in
      if user.show_legal_disclaimer
      then record entered {
        session = record entered.session { post_disclaimer_redirect = some next_url };
      }
      else entered

  abbrev pub through_gate :
      Bool → String → User → World → Option (World × Response) → World × Response
  through_gate is_get next_url user w (some blocked) = blocked
  through_gate is_get next_url user w none =
      let (w', url) = resume env next_url user (enter user next_url w) in
      (w', answer is_get next_url url user)

  -- Once the code matched: both keys are gone, whatever the gate says.
  unfoldable pub finish_email : Bool → (email next_url : String) → World → World × Response
  unfolding account_of
  finish_email is_get email next_url w =
      let (w', user) = account_of email w in
      through_gate is_get next_url user w'
        (gate_response env.settings w' user.custodial_did (some next_url))

  abbrev pub drop_token : Option Json → Cache → Cache
  drop_token (some (str token)) cache = delete_key (token_key token) cache
  drop_token _ cache = cache

  abbrev pub spent : (email : String) → Props → World → World
  spent email cached w = record w {
    cache = drop_token (get? "token" cached) (delete_key (otp_key email) w.cache);
  }

  abbrev pub checked : Bool → String → Props → World → Option Bool → World × Response
  checked is_get email cached w none = (w, uncaught)
  checked is_get email cached w (some false) = (w, bad_request "Invalid verification code.")
  checked is_get email cached w (some true) =
      finish_email is_get email
        (next_of (or (get "next_url" cached) (str env.settings.idp_wun_url))) (spent email cached w)

  abbrev pub with_entry : Bool → (email otp token : String) → World → Option Json → World × Response
  with_entry is_get email otp token w none =
      (w, bad_request "Verification code expired or not found.")
  with_entry is_get email otp token w (some (obj cached)) =
      checked is_get email cached w (matched token otp cached)
  with_entry is_get email otp token w (some _) = (w, uncaught)

  abbrev pub with_email : Bool → (email otp token : String) → World → World × Response
  with_email is_get email otp token w =
      with_entry is_get email otp token w (w.cache (otp_key email))

  -- The address that a token stands for.
  abbrev pub with_token : Bool → (otp token : String) → World → Option Json → World × Response
  with_token is_get otp token w none = (w, bad_request "Invalid or expired verification token.")
  with_token is_get otp token w (some (str kept)) =
      if kept == ""
      then (w, bad_request "Invalid or expired verification token.")
      else with_email is_get (lower (strip kept)) otp token w
  with_token is_get otp token w (some _) = (w, uncaught)

  -- VerifyEmailView._verify
  unfoldable pub verify_email :
      (email otp token : String) → (is_get : Bool) → World → World × Response
  unfolding matched finish_email
  verify_email email otp token is_get w =
      if (token == "") && (email == "" || otp == "")
      then (w, bad_request "Email and OTP or token are required.")
      else if email == ""
      then with_token is_get otp token w (w.cache (token_key token))
      else with_email is_get email otp token w

  -- VerifyEmailView.get
  unfoldable pub verify_email_get : (email otp token : String) → World → World × Response
  unfolding verify_email
  verify_email_get email otp token w =
      verify_email (lower (strip email)) (digits otp) (strip token) true w

  abbrev verify_fields : Json → Json → Json → World → World × Response
  verify_fields (str email) (str token) otp w =
      verify_email (lower (strip email)) (digits (otp_text otp)) (strip token) false w
  verify_fields _ _ otp w = (w, uncaught)

  -- VerifyEmailView.post
  unfoldable pub verify_email_post : Option Json → World → World × Response
  unfolding verify_email
  verify_email_post none w = (w, bad_request "Invalid JSON payload")
  verify_email_post (some (obj body)) w =
      verify_fields (get_or (str "") "email" body) (get_or (str "") "token" body)
        (get_or (str "") "otp" body) w
  verify_email_post (some _) w = (w, uncaught)
