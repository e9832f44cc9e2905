-- ===== src/Text/Prefixes.antt =====
-- Texts that differ at a place of their prefixes are different.
use Prim.Native.String.{◌++◌}
use text.Mathlib.TextLemmas.{cons-append}
use iyou_idp.Prelude.{ℕ, zero, suc, Bool, true, false, code, String, ◌≡◌, ◌≢◌, sym, ap, ◌∙◌}

-- The code point at a place; 0 behind the end.
unfoldable pub nth : ℕ → String → ℕ
nth n String.[] = 0
nth zero (String.◌∷◌ c s) = code c
nth (suc n) (String.◌∷◌ c s) = nth n s

unfoldable pub is_inside : ℕ → String → Bool
is_inside n String.[] = false
is_inside zero (String.◌∷◌ c s) = true
is_inside (suc n) (String.◌∷◌ c s) = is_inside n s

nth-append : (n : ℕ) (s t : String) → is_inside n s ≡ true → nth n (s ++ t) ≡ nth n s
unfolding nth is_inside
nth-append n String.[] t h = absurd (cc)
nth-append zero (String.◌∷◌ c s) t h = ap (nth 0) (cons-append c s t)
nth-append (suc n) (String.◌∷◌ c s) t h = ap (nth (suc n)) (cons-append c s t) ∙ nth-append n s t h

pub prefixes_differ :
    (n : ℕ) (a b s t : String)
    → is_inside n a ≡ true
    → is_inside n b ≡ true
    → nth n a ≢ nth n b
    → a ++ s ≢ b ++ t
prefixes_differ n a b s t p q other h =
    other (sym (nth-append n a s p) ∙ ap (nth n) h ∙ nth-append n b t q)
