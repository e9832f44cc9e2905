-- ===== src/Invite/Admission/Budget.antt =====
-- How often one invite token can be admitted, over any sequence of submissions and pauses.
use iyou_idp.Prelude.{ℕ, ◌+◌, ◌≤◌, ◌≡◌, refl, ◌∙◌, inr, none, List, [], ◌∷◌, All, arith}
use iyou_idp.Crypto.{Crypto}
use iyou_idp.Settings.{Settings}
use iyou_idp.Cache.{Backend, IsLawful, Caches}
use iyou_idp.Cache.Laws.{fresh}
use iyou_idp.Json.{Props}
use iyou_idp.Invite.Admission.{claim_key}
use iyou_idp.Invite.Admission.Schedule.{
  Event, submit, wait, NeverDown, nonce_of, budget, IsSeparate, admitted,
}
use iyou_idp.Invite.Admission.Spends.{Inv, verify-Spends, Inv-later}

module _ (c : Crypto) (settings : Settings) (P F : Backend) (lp : IsLawful P) (lf : IsLawful F)
    (token : Props) where
  record Total (p f n : ℕ) : Type 0 where
    p' : ℕ
    f' : ℕ
    total : n + p + f ≤ p' + f'
    p_fits : p' ≤ budget token
    f_fits : f' ≤ budget token
    steady : NeverDown P → f' ≡ f

  admitted-Total :
      (es : List Event) (now p f : ℕ) (s : Caches P F)
      → All (IsSeparate c settings token) es
      → p ≤ budget token
      → f ≤ budget token
      → Inv c settings P F lp lf token now s p f
      → Total p f (admitted c settings P F (nonce_of token) es now s)
  unfolding admitted
  admitted-Total [] now p f s sep pb fb i = record {
    p' = p;
    f' = f;
    total = omega arith;
    p_fits = pb;
    f_fits = fb;
    steady = λ _. refl;
  }
  admitted-Total (wait n ∷ es) now p f s sep pb fb i =
      admitted-Total es (now + n) p f s sep.1 pb fb
        (Inv-later c settings P F lp lf token now (now + n) p f s (omega arith) i)
  admitted-Total (submit raw ∷ es) now p f s sep pb fb i =
      let h = verify-Spends c settings P F lp lf token now p f pb fb raw s sep.0 i in
      let r = admitted-Total es now h.p' h.f' _ sep.1 h.p_fits h.f_fits h.inv in
      record {
        p' = r.p';
        f' = r.f';
        total = omega (arith, h.total, r.total);
        p_fits = r.p_fits;
        f_fits = r.f_fits;
        steady = λ up. r.steady up ∙ h.steady up;
      }

-- With lawful caches, however a token is submitted between others and pauses, if the primary accepts every
-- probe, it is admitted at most its unspent budget (max_uses - uses_count), provided that neither
-- cache had its counter before and every other token has another nonce. Other calls of the primary
-- may raise.
pub admitted-le-budget :
    (c : Crypto) (settings : Settings) (P F : Backend) (lp : IsLawful P) (lf : IsLawful F)
    (token : Props) (es : List Event) (now : ℕ) (s : Caches P F)
    → NeverDown P
    → All (IsSeparate c settings token) es
    → P.peek now (claim_key token) s.primary ≡ none
    → F.peek now (claim_key token) s.fallback ≡ none
    → admitted c settings P F (nonce_of token) es now s ≤ budget token
admitted-le-budget c settings P F lp lf token es now s up sep p f =
    let t =
      admitted-Total c settings P F lp lf token es now 0 0 s sep (omega arith) (omega arith)
        (inr (fresh p refl, fresh f refl)) in
    omega (arith, t.total, t.p_fits, t.steady up)
