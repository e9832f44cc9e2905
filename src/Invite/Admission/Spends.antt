-- ===== src/Invite/Admission/Spends.antt =====
-- What one submission does to the two counters of a token.
use native.Mathlib.Decide.{dec_lt}
use iyou_idp.Prelude.{
  ℕ, suc, ◌+◌, ◌≤◌, ◌<◌, String, ◌≡◌, ◌≢◌, refl, ◌⊎◌, inl, inr, true, some, arith, leb, Bool-cases,
  Option-cases, eq_iff, eq_refl,
}
use iyou_idp.Crypto.{Crypto}
use iyou_idp.Settings.{Settings}
use iyou_idp.Cache.{Backend, IsLawful, Caches, claim_unit}
use iyou_idp.Cache.Laws.{
  Spent-later, Spent-suc, BothSpent, claim_unit_counts, claim_unit_raised, claim_unit_other,
}
use iyou_idp.Json.{Props}
use iyou_idp.Invite.{Verdict, granted, raised, ◌>>=◌, Reason, parse_token_input}
use iyou_idp.Invite.Schema.{validate_schema, validate_expiry}
use iyou_idp.Invite.Admission.{
  claim_key, cap, floor, ttl, consume_use, admit, check_token, verify_invite_token,
}
use iyou_idp.Invite.Admission.Keys.{probe-ne-claim_key, uses_cache_key-injective}
use iyou_idp.Invite.Admission.Schedule.{
  submit, NeverDown, nonce_of, expires_of, tally, budget, IsSeparate,
}

leb→le : (a b : ℕ) → leb a b ≡ true → a ≤ b
leb→le a b h = ground arith

Verdict-cases : (r : Verdict (Unit {0})) → (r ≡ granted tt) ⊎ ((e : Reason) × (r ≡ raised e))
Verdict-cases (granted tt) = inl refl
Verdict-cases (raised e) = inr (e, refl)

tally_other :
    (t : Props) (nonce : String) (r : Verdict ℕ)
    → nonce_of t ≢ nonce
    → tally nonce (r >>= λ _. granted t) ≡ 0
tally_other t nonce (granted n) ne = ground (arith, eq_iff (nonce_of t) nonce)
tally_other t nonce (raised e) ne = refl

module _ (c : Crypto) (settings : Settings) where
  expired-check_token :
      (token : Props) (now : ℕ) (u : Unit {0})
      → expires_of token ≤ now
      → check_token c settings token now ≢ granted u
  unfolding check_token validate_expiry
  expired-check_token token now u le h = ground (arith, validate_schema c token)

module _ (c : Crypto) (settings : Settings) (P F : Backend) (lp : IsLawful P) (lf : IsLawful F)
    (token : Props) where
  abbrev pub Inv : (now : ℕ) → Caches P F → ℕ → ℕ → Type 0
  Inv now s p f =
      (expires_of token ≤ now)
      ⊎ BothSpent lp lf (claim_key token) (floor token) (expires_of token) now s p f

  pub record Spends (now : ℕ) (s : Caches P F) (p f n : ℕ) : Type 0 where
    pub p' : ℕ
    pub f' : ℕ
    pub total : n + p + f ≤ p' + f'
    pub p_fits : p' ≤ budget token
    pub f_fits : f' ≤ budget token
    pub inv : Inv now s p' f'
    pub steady : NeverDown P → f' ≡ f

  module _ (now p f : ℕ) (pb : p ≤ budget token) (fb : f ≤ budget token) where
    unspent : (s : Caches P F) → Inv now s p f → Spends now s p f 0
    unspent s i = record {
      p' = p;
      f' = f;
      total = omega arith;
      p_fits = pb;
      f_fits = fb;
      inv = i;
      steady = λ _. refl;
    }

    -- A count within the cap is within the budget, and is one claim more on its backend.
    spent_on_primary :
        (s : Caches P F) (r : ℕ)
        → BothSpent lp lf (claim_key token) (floor token) (expires_of token) now s (suc p) f
        → floor token + suc p ≤ r
        → r ≤ cap token
        → Spends now s p f 1
    spent_on_primary s r sp le le' = record {
      p' = suc p;
      f' = f;
      total = omega arith;
      p_fits = omega arith;
      f_fits = fb;
      inv = inr sp;
      steady = λ _. refl;
    }

    spent_on_fallback :
        (s : Caches P F) (r : ℕ)
        → BothSpent lp lf (claim_key token) (floor token) (expires_of token) now s p (suc f)
        → floor token + suc f ≤ r
        → r ≤ cap token
        → ¬ NeverDown P
        → Spends now s p f 1
    spent_on_fallback s r sp le le' down = record {
      p' = p;
      f' = suc f;
      total = omega arith;
      p_fits = pb;
      f_fits = omega arith;
      inv = inr sp;
      steady = λ up. absurd (down up);
    }

    module _ (s : Caches P F) (lt : now < expires_of token)
        (sp : BothSpent lp lf (claim_key token) (floor token) (expires_of token) now s p f) where
      counted_claim :
          (r : ℕ)
          → (claim_unit P F now (claim_key token) (floor token) (ttl token now) s).1 ≡ some r
          → r ≤ cap token
          → Spends now
              (claim_unit P F now (claim_key token) (floor token) (ttl token now) s).0
              p
              f
              1
      counted_claim r e fits =
          elim (claim_unit_counts lp lf (claim_key token) (floor token) (expires_of token) now
            (ttl token now) p f s (probe-ne-claim_key (claim_key token) (nonce_of token))
            (omega arith) (omega arith) sp r e) [
              | inl (sp', le) ↦ spent_on_primary _ r sp' le fits
              | inr (sp', le, down) ↦
                  spent_on_fallback _ r sp' le fits (λ up. cc (up now _ _ 5 s.primary))
            ]

      uncounted_claim :
          (r : ℕ)
          → (claim_unit P F now (claim_key token) (floor token) (ttl token now) s).1 ≡ some r
          → BothSpent lp lf
              (claim_key token)
              (floor token)
              (expires_of token)
              now
              (claim_unit P F now (claim_key token) (floor token) (ttl token now) s).0
              p
              f
      uncounted_claim r e =
          elim (claim_unit_counts lp lf (claim_key token) (floor token) (expires_of token) now
            (ttl token now) p f s (probe-ne-claim_key (claim_key token) (nonce_of token))
            (omega arith) (omega arith) sp r e) [
              | inl ((spp, spf), le) ↦
                  (Spent-suc lp (claim_key token) (floor token) (expires_of token) now _ p spp, spf)
              | inr ((spp, spf), le, down) ↦
                  (spp, Spent-suc lf (claim_key token) (floor token) (expires_of token) now _ f spf)
            ]

    admit-Spends :
        (s : Caches P F)
        → now < expires_of token
        → BothSpent lp lf (claim_key token) (floor token) (expires_of token) now s p f
        → Spends now
            (admit c settings P F token now s (granted tt)).0
            p
            f
            (tally (nonce_of token) (admit c settings P F token now s (granted tt)).1)
    unfolding consume_use
    admit-Spends s lt sp =
        let apart = probe-ne-claim_key (claim_key token) (nonce_of token) in
        let t = ttl token now in
        let pt : 0 < t = omega arith in
        let le : expires_of token ≤ now + t = omega arith in
        elim (Option-cases (claim_unit P F now (claim_key token) (floor token) t s).1) [
          | inl e ↦ rw e (
              unspent _ (
                inr (
                  claim_unit_raised lp lf (claim_key token) (floor token) (expires_of token) now t p
                    f s apart pt le sp e)))
          | inr (r, e) ↦ elim (Bool-cases (leb r (cap token))) [
            | inl fits ↦
                rw (e, fits, eq_refl (nonce_of token))
                  (counted_claim s lt sp r e (omega (arith, leb→le r (cap token))))
            | inr over ↦ rw (e, over) (unspent _ (inr (uncounted_claim s lt sp r e)))
          ]
        ]

  module _ (now p f : ℕ) (pb : p ≤ budget token) (fb : f ≤ budget token) where
    still-Inv_other :
        (t : Props) (s : Caches P F)
        → nonce_of t ≢ nonce_of token
        → Inv now s p f
        → Inv now (claim_unit P F now (claim_key t) (floor t) (ttl t now) s).0 p f
    still-Inv_other t s ne (inl gone) = inl gone
    still-Inv_other t s ne (inr sp) = inr (
        claim_unit_other lp lf (claim_key token) (floor token) (expires_of token) now (floor t)
          (ttl t now) p f (claim_key t) s
          (λ same. ne (uses_cache_key-injective (nonce_of t) (nonce_of token) same))
          (probe-ne-claim_key (claim_key t) (nonce_of token)) sp)

    admit_other-Spends :
        (t : Props) (s : Caches P F)
        → nonce_of t ≢ nonce_of token
        → Inv now s p f
        → Spends now
            (admit c settings P F t now s (granted tt)).0
            p
            f
            (tally (nonce_of token) (admit c settings P F t now s (granted tt)).1)
    unfolding consume_use
    admit_other-Spends t s ne i =
        rw (tally_other t (nonce_of token) _ ne)
          (unspent now p f pb fb _ (still-Inv_other t s ne i))

    admit_this-Spends :
        (s : Caches P F)
        → check_token c settings token now ≡ granted tt
        → Inv now s p f
        → Spends now
            (admit c settings P F token now s (granted tt)).0
            p
            f
            (tally (nonce_of token) (admit c settings P F token now s (granted tt)).1)
    admit_this-Spends s passed (inl gone) =
        absurd (expired-check_token c settings token now tt gone passed)
    admit_this-Spends s passed (inr sp) = elim (dec_lt now (expires_of token)) [
      | yes lt ↦ admit-Spends now p f pb fb s lt sp
      | no late ↦ absurd (expired-check_token c settings token now tt (omega arith) passed)
    ]

    -- One submission, whatever it is, accounts for the token if it admits it.
    pub verify-Spends :
        (raw : String) (s : Caches P F)
        → IsSeparate c settings token (submit raw)
        → Inv now s p f
        → Spends now
            (verify_invite_token c settings P F raw now s).0
            p
            f
            (tally (nonce_of token) (verify_invite_token c settings P F raw now s).1)
    unfolding verify_invite_token
    verify-Spends raw s sep i = elim (Option-cases (parse_token_input c raw)) [
      | inl e ↦ rw e (unspent now p f pb fb s i)
      | inr (t, e) ↦ elim (Verdict-cases (check_token c settings t now)) [
        | inr (r, failed) ↦ rw (e, failed) (unspent now p f pb fb s i)
        | inl passed ↦ elim (sep t e) [
          | inl same ↦ rw (e, passed, same) (admit_this-Spends s (rw same at passed) i)
          | inr ne ↦ rw (e, passed) (admit_other-Spends t s ne i)
        ]
      ]
    ]

  pub Inv-later : (now m p f : ℕ) (s : Caches P F) → now ≤ m → Inv now s p f → Inv m s p f
  Inv-later now m p f s le (inl gone) = inl (omega arith)
  Inv-later now m p f s le (inr sp) = elim (dec_lt m (expires_of token)) [
    | yes lt ↦ inr (
      Spent-later lp (claim_key token) (floor token) (expires_of token) now m _ p le lt sp.0,
      Spent-later lf (claim_key token) (floor token) (expires_of token) now m _ f le lt sp.1,
    )
    | no late ↦ inl (omega arith)
  ]
