-- ===== src/Json/Dumps.antt =====
-- json.dumps(value, separators=(",", ":")), with and without `sort_keys` and `ensure_ascii`.
use Prim.Native.String
use Prim.Native.Nat.{Ordering}
use iyou_idp.Prelude.{
  ℕ, zero, suc, ◌+◌, ◌-◌, ◌/◌, ◌%◌, Char, code, String, Bool, true, false, ◌&&◌, List, [], ◌∷◌, ltb,
  eqb, if◌then◌else◌, ◌≡◌, refl,
}
use iyou_idp.Prelude.Int.{ℤ, pos, negsuc}
use iyou_idp.Json.{Json, null, bool, int, float, str, arr, obj, Items, nil, cons, Props, end, prop}

infixr 60 ◌++◌
abbrev ◌++◌ : String → String → String
s ++ t = String.◌++◌ s t

pub record Style : Type 0 where
  pub sort_keys : Bool
  pub ensure_ascii : Bool

-- The one character text at place `n` of `s`.
abbrev nth : String → ℕ → String
nth String.[] n = ""
nth (String.◌∷◌ c s) zero = String.◌∷◌ c ""
nth (String.◌∷◌ c s) (suc n) = nth s n

abbrev digit : ℕ → String
digit n = nth "0123456789abcdef" n

-- Decimal digits; the number itself is fuel enough, since n / 10 < n.
decimal_fuel : ℕ → ℕ → String
decimal_fuel zero n = digit n
decimal_fuel (suc f) n =
    let rest = decimal_fuel f (n / 10) ++ digit (n % 10) in if ltb n 10 then digit n else rest

unfoldable pub decimal : ℕ → String
unfolding decimal_fuel
decimal n = decimal_fuel n n

number : ℤ → String
unfolding decimal
number (pos n) = decimal n
number (negsuc n) = "-" ++ decimal (suc n)

abbrev hex4 : ℕ → String
hex4 n = digit (n / 4096 % 16) ++ digit (n / 256 % 16) ++ digit (n / 16 % 16) ++ digit (n % 16)

abbrev unicode_escape : ℕ → String
unicode_escape n =
    if ltb n 65536
    then "\\u" ++ hex4 n
    else "\\u" ++ hex4 (55296 + (n - 65536) / 1024) ++ "\\u" ++ hex4 (56320 + (n - 65536) % 1024)

escape_char : Bool → Char → String
escape_char ascii c =
    let n = code c in
    if eqb n 34
    then "\\\""
    else if eqb n 92
    then "\\\\"
    else if eqb n 10
    then "\\n"
    else if eqb n 13
    then "\\r"
    else if eqb n 9
    then "\\t"
    else if eqb n 8
    then "\\b"
    else if eqb n 12
    then "\\f"
    else if ltb n 32
    then unicode_escape n
    else if ascii && ltb 126 n
    then unicode_escape n
    else String.◌∷◌ c ""

escape : Bool → String → String
unfolding escape_char
escape ascii String.[] = ""
escape ascii (String.◌∷◌ c s) = escape_char ascii c ++ escape ascii s

quote : Bool → String → String
unfolding escape
quote ascii s = "\"" ++ escape ascii s ++ "\""

-- The printed entries of an object, by key.
insert_entry : String → String → List (String × String) → List (String × String)
insert_entry k e [] = (k, e) ∷ []
insert_entry k e ((j, f) ∷ es) = elim (String.compare j k) [
  | Ordering.gt ↦ (k, e) ∷ (j, f) ∷ es
  | _ ↦ (j, f) ∷ insert_entry k e es
]

place : Bool → String → String → List (String × String) → List (String × String)
unfolding insert_entry
place true k e es = insert_entry k e es
place false k e es = (k, e) ∷ es

join_entries : List (String × String) → String
join_entries [] = ""
join_entries ((k, e) ∷ []) = e
join_entries ((k, e) ∷ f ∷ es) = e ++ "," ++ join_entries (f ∷ es)

unfoldable mutual
  unfolding quote number place join_entries

  pub dumps : Style → Json → String
  dumps st null = "null"
  dumps st (bool true) = "true"
  dumps st (bool false) = "false"
  dumps st (int n) = number n
  dumps st (float repr whole) = repr
  dumps st (str s) = quote st.ensure_ascii s
  dumps st (arr nil) = "[]"
  dumps st (arr (cons v vs)) = "[" ++ dumps st v ++ dumps_items st vs
  dumps st (obj ps) = "{" ++ join_entries (dumps_props st ps) ++ "}"

  pub dumps_items : Style → Items → String
  dumps_items st nil = "]"
  dumps_items st (cons v vs) = "," ++ dumps st v ++ dumps_items st vs

  pub dumps_props : Style → Props → List (String × String)
  dumps_props st end = []
  dumps_props st (prop k v ps) =
      place st.sort_keys k (quote st.ensure_ascii k ++ ":" ++ dumps st v) (dumps_props st ps)

abbrev pub canonical : Style
canonical = record { sort_keys = true; ensure_ascii = false }

abbrev pub canonical_ascii : Style
canonical_ascii = record { sort_keys = true; ensure_ascii = true }

abbrev pub in_order_ascii : Style
in_order_ascii = record { sort_keys = false; ensure_ascii = true }

dumps_test :
    dumps canonical
      (obj (prop "b" (int (negsuc 41)) (prop "a" (arr (cons (str "x\"é") (cons null nil))) end)))
    ≡ "{\"a\":[\"x\\\"é\",null],\"b\":-42}"
unfolding dumps
dumps_test = refl

dumps_ascii_test : dumps in_order_ascii (str "é") ≡ "\"\\u00e9\""
unfolding dumps
dumps_ascii_test = refl
