-- ===== src/Views/Email/RoundTrip.antt =====
-- A code that was sent for an address opens a session for its user.
use iyou_idp.Prelude.{
  String, ◌≡◌, refl, ◌≢◌, ap, ◌∙◌, Bool, true, false, some, arith, ◌==◌, eq_iff, Bool-cases, inl,
  inr, eq_refl, leb, none, ◌&&◌,
}
use iyou_idp.Text.{strip, lower, all_chars}
use iyou_idp.Json.{str, obj, Props, get?}
use iyou_idp.Server.{World, Env}
use iyou_idp.Views.Gate.{did_passes_gate}
use iyou_idp.Views.Gate.Laws.{gate_passes}
use iyou_idp.Views.Oidc.Laws.{session-build}
use iyou_idp.Views.Email.{
  otp_key, token_key, is_address, matched, account_of, finish_email, dispatched, sent,
  challenge_email, verify_email, verify_email_get, verify_email_post, digits, spent,
}
use iyou_idp.Views.Email.Keys.{token_key-ne-otp_key}
use iyou_idp.Views.Email.Safety.{enter-user}

module _ (env : Env) (address : String) where
  finish_email-user :
      (is_get : Bool) (next : String) (w : World)
      → did_passes_gate env.settings w.session (account_of env address w).1.custodial_did ≡ true
      → (finish_email env is_get address next w).0.session.user
        ≡ some (account_of env address w).1.id
  unfolding finish_email
  finish_email-user is_get next w passes =
      let u = (account_of env address w).1 in
      let w' = (account_of env address w).0 in
      rw (gate_passes env.settings w' u.custodial_did (some next) passes)
        (ap (λ s. s.user) (session-build env next u _) ∙ enter-user env address u next w')

  dispatched-entry :
      (next : String) (w : World)
      → (dispatched env next address w).cache (otp_key address) ≡ some (obj (sent env next address))
  dispatched-entry next w =
      let other = token_key-ne-otp_key env.new_token address in
      ground (arith, eq_refl (otp_key address), eq_iff (token_key env.new_token) (otp_key address))

  module _ (given : (env.new_otp == "") ≡ false)
      (ascii : all_chars (λ c. leb c 127) env.new_otp ≡ true) where
    sent_code-matched : (next : String) → matched "" env.new_otp (sent env next address) ≡ some true
    unfolding matched
    sent_code-matched next = rw (given, ascii, eq_refl env.new_otp)

    accepted :
        (is_get : Bool) (next : String) (w : World)
        → (address == "") ≡ false
        → did_passes_gate env.settings w.session (account_of env address w).1.custodial_did ≡ true
        → (verify_email env address env.new_otp "" is_get
            (dispatched env next address w)).0.session.user
          ≡ some (account_of env address w).1.id
    unfolding verify_email account_of
    accepted is_get next w written passes =
        rw (given, written, dispatched-entry next w, sent_code-matched next)
          (finish_email-user is_get _
            (spent env address (sent env next address) (dispatched env next address w)) passes)

-- An address is not empty, nor is the text it was read from.
written : (s : String) → s ≢ "" → (s == "") ≡ false
written s h = elim (Bool-cases (s == "")) [ inl e ↦ absurd (h ((eq_iff s "").0 e)) | inr e ↦ e ]

is_address-written : (s : String) → is_address s ≡ true → (s == "") ≡ false
is_address-written s h = written s (λ p. cc (rw p at h))

raw-written : (raw : String) → is_address (lower (strip raw)) ≡ true → (raw == "") ≡ false
unfolding lower strip
raw-written raw h = written raw (λ p. cc (rw p at h))

-- A text of decimal digits is what its digits are, and is ASCII.
digits_same : (s : String) → all_chars (λ c. leb 48 c && leb c 57) s ≡ true → digits s ≡ s
digits_same String.[] h = refl
digits_same (String.◌∷◌ c s) h = ground (arith, h, digits_same s)

digits_ascii :
    (s : String)
    → all_chars (λ c. leb 48 c && leb c 57) s ≡ true
    → all_chars (λ c. leb c 127) s ≡ true
digits_ascii String.[] h = refl
digits_ascii (String.◌∷◌ c s) h = ground (arith, h, digits_ascii s)

sent_code-verify_email :
    (env : Env) (body : Props) (raw : String) (w : World) (is_get : Bool)
    → get? "email" body ≡ some (str raw)
    → is_address (lower (strip raw)) ≡ true
    → (env.new_otp == "") ≡ false
    → all_chars (λ c. leb c 127) env.new_otp ≡ true
    → did_passes_gate env.settings w.session (account_of env (lower (strip raw)) w).1.custodial_did
      ≡ true
    → (verify_email env
        (lower (strip raw))
        env.new_otp
        ""
        is_get
        (challenge_email env (some (obj body)) w).0).0.session.user
      ≡ some (account_of env (lower (strip raw)) w).1.id
unfolding challenge_email
sent_code-verify_email env body raw w is_get e address given ascii passes =
    rw (e, raw-written raw address, address)
      (accepted env (lower (strip raw)) given ascii is_get _ w (is_address-written _ address)
        passes)

-- The code that ChallengeEmailView sends for an address is accepted by VerifyEmailView, by GET and
-- by POST, from any state: if the DID of the address's user passes the gate, the session is that
-- user's. The code is of decimal digits and not empty, no token is given, and the address may be
-- typed with other blanks around it and in another case. Whether the user is active is not asked.
pub challenge_email-verify_email :
    (env : Env) (body reply : Props) (raw typed : String) (w : World)
    → get? "email" body ≡ some (str raw)
    → is_address (lower (strip raw)) ≡ true
    → lower (strip typed) ≡ lower (strip raw)
    → (env.new_otp == "") ≡ false
    → all_chars (λ c. leb 48 c && leb c 57) env.new_otp ≡ true
    → get? "email" reply ≡ some (str typed)
    → get? "otp" reply ≡ some (str env.new_otp)
    → get? "token" reply ≡ none
    → did_passes_gate env.settings w.session (account_of env (lower (strip raw)) w).1.custodial_did
      ≡ true
    → ((verify_email_get env typed env.new_otp ""
          (challenge_email env (some (obj body)) w).0).0.session.user
        ≡ some (account_of env (lower (strip raw)) w).1.id)
      × ((verify_email_post env
            (some (obj reply))
            (challenge_email env (some (obj body)) w).0).0.session.user
          ≡ some (account_of env (lower (strip raw)) w).1.id)
unfolding verify_email_get verify_email_post strip
challenge_email-verify_email env body reply raw typed w e address same given decimal by code none_
      passes =
    let ascii = digits_ascii env.new_otp decimal in
    (
      rw (same, digits_same env.new_otp decimal)
          (sent_code-verify_email env body raw w true e address given ascii passes),
      rw (by, code, none_, same, digits_same env.new_otp decimal)
          (sent_code-verify_email env body raw w false e address given ascii passes),
    )
