-- ===== src/Invite/Admission/Keys.antt =====
-- The cache keys of the counters: distinct nonces have distinct keys, and no probe key is one.
use Prim.Native.String.{◌++◌}
use text.Mathlib.TextLemmas.{nil-append, cons-append, append_cancel_left, append_cancel_right}
use iyou_idp.Prelude.{ℕ, String, ◌≡◌, ◌≢◌, ap, ◌∙◌, arith, code}
use iyou_idp.Invite.Admission.{uses_cache_key}

-- The last character of a text; 0 for the empty one.
last : ℕ → String → ℕ
last n String.[] = n
last n (String.◌∷◌ c s) = last (code c) s

last-append : (n : ℕ) (s t : String) → last n (s ++ t) ≡ last (last n s) t
unfolding last
last-append n String.[] t = ap (last n) (nil-append t)
last-append n (String.◌∷◌ c s) t = ap (last n) (cons-append c s t) ∙ last-append (code c) s t

pub probe-ne-claim_key : (k nonce : String) → k ++ ":probe" ≢ uses_cache_key nonce
unfolding last
probe-ne-claim_key k nonce h =
    let e : last 0 (k ++ ":probe") ≡ last 0 ("airlock:nonce:" ++ (nonce ++ ":uses")) =
      ap (last 0) h in
    let p : last 0 (k ++ ":probe") ≡ 101 = last-append 0 k ":probe" in
    let q : last 0 ("airlock:nonce:" ++ (nonce ++ ":uses")) ≡ 115 =
      last-append 0 "airlock:nonce:" (nonce ++ ":uses") ∙ last-append _ nonce ":uses" in
    omega (arith, e, p, q)

pub uses_cache_key-injective : (m n : String) → uses_cache_key m ≡ uses_cache_key n → m ≡ n
uses_cache_key-injective m n h =
    append_cancel_right m n ":uses"
      (append_cancel_left "airlock:nonce:" (m ++ ":uses") (n ++ ":uses") h)
