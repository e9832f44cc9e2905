-- ===== src/Codec.antt =====
-- The functions of Python's `binascii` that auth_bridge/views_graduation.py calls.
pub mod Laws
use iyou_idp.Prelude.{
  ℕ, zero, suc, ◌+◌, ◌-◌, ◌*◌, ◌/◌, ◌%◌, Char, code, String, ◌≡◌, refl, Bool, true, false, ◌&&◌,
  Option, none, some, List, [], ◌∷◌, ◌++◌, leb, eqb, if◌then◌else◌,
}
use iyou_idp.Text.{all_chars}
use iyou_idp.Crypto.{Bytes}

abbrev pub char_at : ℕ → String → Char → Char
char_at n String.[] d = d
char_at zero (String.◌∷◌ c s) d = c
char_at (suc n) (String.◌∷◌ c s) d = char_at n s d

abbrev pub hex_char : ℕ → Char
hex_char n = char_at n "0123456789abcdef" "0"

-- binascii.hexlify(data).decode("ascii")
unfoldable pub hexlify : Bytes → String
hexlify [] = ""
hexlify (b ∷ bs) = String.◌∷◌ (hex_char (b / 16)) (String.◌∷◌ (hex_char (b % 16)) (hexlify bs))

-- The value of a code point as a hexadecimal digit of either case.
abbrev pub hex_value : ℕ → Option ℕ
hex_value c =
    if leb 48 c && leb c 57
    then some (c - 48)
    else if leb 97 c && leb c 102
    then some (c - 87)
    else if leb 65 c && leb c 70
    then some (c - 55)
    else none

abbrev pub with_byte : Option ℕ → Option ℕ → Option Bytes → Option Bytes
with_byte (some high) (some low) (some rest) = some ((16 * high + low) ∷ rest)
with_byte _ _ _ = none

-- binascii.unhexlify(text); none where it raises
unfoldable pub unhexlify : String → Option Bytes
unhexlify String.[] = some []
unhexlify (String.◌∷◌ c String.[]) = none
unhexlify (String.◌∷◌ c (String.◌∷◌ d s)) =
    with_byte (hex_value (code c)) (hex_value (code d)) (unhexlify s)

-- The value of a code point in the base64 alphabet; none outside it.
abbrev pub sextet : ℕ → Option ℕ
sextet c =
    if leb 65 c && leb c 90
    then some (c - 65)
    else if leb 97 c && leb c 122
    then some (c - 71)
    else if leb 48 c && leb c 57
    then some (c + 4)
    else if eqb c 43
    then some 62
    else if eqb c 47
    then some 63
    else none

-- What a2b_base64 has read of the current group: its place there, the bits left over, and the
-- padding since the last sextet.
pub record Group : Type 0 where
  pub place : ℕ
  pub left : ℕ
  pub pads : ℕ

-- The byte that a sextet completes, and the group after it.
abbrev pub take_sextet : ℕ → Group → Bytes × Group
take_sextet v g =
    if eqb g.place 0
    then ([], record { place = 1; left = v; pads = 0 })
    else if eqb g.place 1
    then ((4 * g.left + v / 16) ∷ [], record { place = 2; left = v % 16; pads = 0 })
    else if eqb g.place 2
    then ((16 * g.left + v / 4) ∷ [], record { place = 3; left = v % 4; pads = 0 })
    else ((64 * g.left + v) ∷ [], record { place = 0; left = 0; pads = 0 })

abbrev prepend : Bytes → Option Bytes → Option Bytes
prepend bs none = none
prepend bs (some rest) = some (bs ++ rest)

-- A `=` ends the text once it fills a group; before the third place it is skipped.
abbrev padded_group : Group → Group
padded_group g = if leb 2 g.place then record g { pads = g.pads + 1 } else g

abbrev ends : Group → Bool
ends g = leb 2 g.place && leb 4 (g.place + (g.pads + 1))

-- The loop of a2b_base64 in its lenient mode: code points outside the alphabet are skipped.
unfoldable pub base64_from : Group → String → Option Bytes
base64_from g String.[] = if eqb g.place 0 then some [] else none
base64_from g (String.◌∷◌ c s) = elim (eqb (code c) 61) [
  | true ↦ elim (ends g) [ true ↦ some [] | false ↦ base64_from (padded_group g) s ]
  | false ↦ elim (sextet (code c)) [
    | none ↦ base64_from g s
    | some v ↦ prepend (take_sextet v g).0 (base64_from (take_sextet v g).1 s)
  ]
]

-- binascii.a2b_base64(text); none where it raises
unfoldable pub a2b_base64 : String → Option Bytes
unfolding base64_from
a2b_base64 s =
    if all_chars (λ c. leb c 127) s
    then base64_from (record { place = 0; left = 0; pads = 0 }) s
    else none

base64_test : a2b_base64 "aGk=" ≡ some (104 ∷ 105 ∷ [])
unfolding a2b_base64
base64_test = refl

base64_short_test : a2b_base64 "aGk" ≡ none
unfolding a2b_base64
base64_short_test = refl

hex_test : hexlify (171 ∷ 0 ∷ []) ≡ "ab00"
unfolding hexlify
hex_test = refl
