-- ===== src/Text.antt =====
-- The methods of `str` that the program calls, over code points.
pub mod Prefixes
use Prim.Native.String.{◌++◌}
use text.Mathlib.Text.{starts_with}
use iyou_idp.Prelude.{
  List, [], ◌∷◌, ℕ, zero, suc, ◌+◌, Char, code, String, Bool, true, false, ◌&&◌, ◌||◌, leb, eqb,
  if◌then◌else◌, ◌==◌, ◌≡◌, refl,
}

-- `str.isspace` of one character: what `str.strip` removes
abbrev pub is_space : ℕ → Bool
is_space c =
    (leb 9 c && leb c 13)
    || (leb 28 c && leb c 32)
    || eqb c 133
    || eqb c 160
    || eqb c 5760
    || (leb 8192 c && leb c 8202)
    || eqb c 8232
    || eqb c 8233
    || eqb c 8239
    || eqb c 8287
    || eqb c 12288

abbrev pub strip_left : String → String
strip_left String.[] = ""
strip_left (String.◌∷◌ c s) = elim (is_space (code c)) [
  | true ↦ strip_left s
  | false ↦ String.◌∷◌ c s
]

abbrev pub cons_unless_blank : Char → String → String
cons_unless_blank c s = if is_space (code c) && (s == "") then "" else String.◌∷◌ c s

abbrev pub strip_right : String → String
strip_right String.[] = ""
strip_right (String.◌∷◌ c s) = cons_unless_blank c (strip_right s)

-- s.strip()
unfoldable pub strip : String → String
strip s = strip_right (strip_left s)

-- The letter below `c` in `from`, read off `to` at the same place; other characters stay.
abbrev pub translate : String → String → Char → Char
translate String.[] to c = c
translate (String.◌∷◌ a from) String.[] c = c
translate (String.◌∷◌ a from) (String.◌∷◌ b to) c = elim (eqb (code a) (code c)) [
  | true ↦ b
  | false ↦ translate from to c
]

-- s.lower(), on the ASCII letters; a letter outside ASCII is left as it is
unfoldable pub lower : String → String
lower String.[] = ""
lower (String.◌∷◌ c s) =
    String.◌∷◌ (translate "ABCDEFGHIJKLMNOPQRSTUVWXYZ" "abcdefghijklmnopqrstuvwxyz" c) (lower s)

abbrev pub hex_digit : ℕ → Bool
hex_digit c = (leb 48 c && leb c 57) || (leb 97 c && leb c 102) || (leb 65 c && leb c 70)

abbrev pub all_chars : (ℕ → Bool) → String → Bool
all_chars p String.[] = true
all_chars p (String.◌∷◌ c s) = p (code c) && all_chars p s

-- len(s), in code points
abbrev pub len : String → ℕ
len String.[] = 0
len (String.◌∷◌ c s) = 1 + len s

-- s[n:]
abbrev pub drop : ℕ → String → String
drop zero s = s
drop (suc n) String.[] = ""
drop (suc n) (String.◌∷◌ c s) = drop n s

abbrev pub snoc : String → Char → String
snoc s c = s ++ String.◌∷◌ c ""

abbrev pub with_word : String → List String → List String
with_word word words = if word == "" then words else word ∷ words

abbrev pub split_from : String → String → List String
split_from word String.[] = with_word word []
split_from word (String.◌∷◌ c s) = elim (is_space (code c)) [
  | true ↦ with_word word (split_from "" s)
  | false ↦ split_from (snoc word c) s
]

-- s.split()
unfoldable pub split : String → List String
split s = split_from "" s

-- `needle in text`
abbrev pub contains : String → String → Bool
contains needle String.[] = needle == ""
contains needle (String.◌∷◌ c s) = starts_with (String.◌∷◌ c s) needle || contains needle s

-- text.endswith(suffix)
abbrev pub ends_with : String → String → Bool
ends_with suffix String.[] = suffix == ""
ends_with suffix (String.◌∷◌ c s) = (String.◌∷◌ c s == suffix) || ends_with suffix s

split_test : split " openid  profile" ≡ "openid" ∷ "profile" ∷ []
unfolding split
split_test = refl

strip_test : strip " \t a b \n" ≡ "a b"
unfolding strip
strip_test = refl

lower_test : lower "Ab@X.ORG" ≡ "ab@x.org"
unfolding lower
lower_test = refl
