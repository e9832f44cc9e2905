-- ===== src/Json.antt =====
-- JSON values as `json.loads` yields them, and Python's reading of them.
-- A float stands as its `repr` and its integer part; an object lists each key once.
pub mod Fields
pub mod Dumps
use iyou_idp.Prelude.{
  String, Bool, true, false, not, ◌&&◌, ◌||◌, Option, none, some, List, [], ◌∷◌, ◌==◌,
  if◌then◌else◌, zero, suc,
}
use iyou_idp.Prelude.Int.{ℤ, pos, negsuc}

mutual
  pub data Json : Type 0 where
    null : Json
    bool : Bool → Json
    int : ℤ → Json
    float : (repr : String) → (whole : ℤ) → Json
    str : String → Json
    arr : Items → Json
    obj : Props → Json

  pub data Items : Type 0 where
    nil : Items
    cons : Json → Items → Items

  pub data Props : Type 0 where
    end : Props
    prop : String → Json → Props → Props

-- d.get(key), as an option
abbrev pub get? : String → Props → Option Json
get? key end = none
get? key (prop k v ps) = elim (k == key) [ true ↦ some v | false ↦ get? key ps ]

abbrev pub or_else : Json → Option Json → Json
or_else d none = d
or_else d (some v) = v

-- d.get(key, default)
abbrev pub get_or : Json → String → Props → Json
get_or d key ps = or_else d (get? key ps)

-- d.get(key): a missing key reads as None
abbrev pub get : String → Props → Json
get key ps = get_or null key ps

-- d[key] = value
unfoldable pub put : String → Json → Props → Props
put key v end = prop key v end
put key v (prop k w ps) = elim (k == key) [ true ↦ prop k v ps | false ↦ prop k w (put key v ps) ]

-- {k: v for k, v in d.items() if k != key}
unfoldable pub without : String → Props → Props
without key end = end
without key (prop k v ps) = elim (k == key) [
  | true ↦ without key ps
  | false ↦ prop k v (without key ps)
]

abbrev pub items : Items → List Json
items nil = []
items (cons v vs) = v ∷ items vs

-- bool(value)
abbrev pub truthy : Json → Bool
truthy null = false
truthy (bool b) = b
truthy (int (pos zero)) = false
truthy (int (pos (suc n))) = true
truthy (int (negsuc n)) = true
truthy (float repr whole) = not (repr == "0.0" || repr == "-0.0")
truthy (str s) = not (s == "")
truthy (arr nil) = false
truthy (arr (cons v vs)) = true
truthy (obj end) = false
truthy (obj (prop k v ps)) = true

-- a or b
abbrev pub or : Json → Json → Json
or a b = if truthy a then a else b

-- isinstance(value, str)
abbrev pub is_str : Json → Bool
is_str (str s) = true
is_str _ = false

-- value == s, for a text s
abbrev pub is_text : String → Json → Bool
is_text s (str t) = t == s
is_text s _ = false

-- value is True
abbrev pub is_true : Json → Bool
is_true (bool b) = b
is_true _ = false

abbrev pub is_null : Json → Bool
is_null null = true
is_null _ = false
