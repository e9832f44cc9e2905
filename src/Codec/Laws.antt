-- ===== src/Codec/Laws.antt =====
-- Bytes survive their hexadecimal text.
use iyou_idp.Prelude.{
  ℕ, zero, suc, ◌+◌, ◌*◌, ◌/◌, ◌%◌, ◌<◌, code, ◌≡◌, refl, Bool, true, false, ◌&&◌, Option, none,
  some, [], ◌∷◌, All, arith, eqb,
}
use iyou_idp.Crypto.{Bytes}
use iyou_idp.Codec.{hex_char, hex_value, hexlify, unhexlify}

same_value : ℕ → Option ℕ → Bool
same_value n none = false
same_value n (some m) = eqb m n

-- Every check below a bound, by evaluation.
all_below : ℕ → (ℕ → Bool) → Bool
all_below zero p = true
all_below (suc n) p = p n && all_below n p

all_below-holds : (n : ℕ) (p : ℕ → Bool) (x : ℕ) → all_below n p ≡ true → x < n → p x ≡ true
unfolding all_below
all_below-holds zero p x h lt = absurd (omega arith)
all_below-holds (suc n) p x h lt = ground (arith, all_below-holds n p x)

digits_table : all_below 16 (λ n. same_value n (hex_value (code (hex_char n)))) ≡ true
unfolding all_below same_value
digits_table = refl

same_value-eq : (n : ℕ) (o : Option ℕ) → same_value n o ≡ true → o ≡ some n
unfolding same_value
same_value-eq n none h = absurd (cc)
same_value-eq n (some m) h = ground arith

hex_value-hex_char : (n : ℕ) → n < 16 → hex_value (code (hex_char n)) ≡ some n
hex_value-hex_char n h =
    same_value-eq n _
      (all_below-holds 16 (λ m. same_value m (hex_value (code (hex_char m)))) n digits_table h)

pub unhexlify-hexlify : (bs : Bytes) → All (λ b. b < 256) bs → unhexlify (hexlify bs) ≡ some bs
unfolding unhexlify hexlify
unhexlify-hexlify [] h = refl
unhexlify-hexlify (b ∷ bs) h =
    let whole : 16 * (b / 16) + b % 16 ≡ b = omega arith in
    rw (
      hex_value-hex_char (b / 16) (omega (arith, h.0)),
      hex_value-hex_char (b % 16) (omega arith),
      unhexlify-hexlify bs h.1,
      whole,
    )
