-- ===== src/Cache/Memory.antt =====
-- An in-memory backend, as a value of the parameter `Backend`: entries with deadlines, and a flag
-- that makes every call raise.
pub mod Lawful
use iyou_idp.Prelude.{
  ℕ, suc, ◌+◌, String, Bool, true, false, Option, none, some, List, [], ◌∷◌, ltb, ◌||◌,
  if◌then◌else◌, ◌==◌,
}
use iyou_idp.Prelude.Int.{pos}
use iyou_idp.Json.{Json, int}
use iyou_idp.Cache.{Backend}

pub record Memory : Type 0 where
  pub up : Bool
  pub entries : List (String × Json × ℕ)

abbrev pub peek_entries : ℕ → String → List (String × Json × ℕ) → Option (Json × ℕ)
peek_entries now k [] = none
peek_entries now k ((j, v, d) ∷ es) = elim (j == k) [
  | true ↦ if ltb now d then some (v, d) else none
  | false ↦ peek_entries now k es
]

abbrev pub value_of : Option (Json × ℕ) → Option Json
value_of none = none
value_of (some (v, d)) = some v

abbrev pub remove : String → List (String × Json × ℕ) → List (String × Json × ℕ)
remove k [] = []
remove k ((j, v, d) ∷ es) = elim (j == k) [ true ↦ remove k es | false ↦ (j, v, d) ∷ remove k es ]

abbrev pub add_entry :
    Option (Json × ℕ) → String → Json → ℕ → List (String × Json × ℕ) → List (String × Json × ℕ)
add_entry none k v d es = (k, v, d) ∷ es
add_entry (some c) k v d es = es

abbrev pub incr_entry : Option (Json × ℕ) → String → Memory → Memory × Option ℕ
incr_entry (some (int (pos c), d)) k m =
    (record m { entries = (k, int (pos (suc c)), d) ∷ m.entries }, some (suc c))
incr_entry (some _) k m = (m, none)
incr_entry none k m = (m, none)

-- The backend, with calls that never raise where `steady` is true.
abbrev pub memory_that : (steady : Bool) → Backend
memory_that steady = record {
  Store = Memory;
  get = λ now k m. if steady || m.up then some (value_of (peek_entries now k m.entries)) else none;
  set = λ now k v t m.
      if steady || m.up
      then (record m { entries = (k, v, now + t) ∷ m.entries }, true)
      else (m, false);
  delete = λ now k m.
      if steady || m.up then (record m { entries = remove k m.entries }, true) else (m, false);
  clear = λ now m. if steady || m.up then (record m { entries = [] }, true) else (m, false);
  add = λ now k v t m.
      if steady || m.up
      then (
        record m { entries = add_entry (peek_entries now k m.entries) k v (now + t) m.entries },
        true,
      )
      else (m, false);
  incr = λ now k m.
      if steady || m.up then incr_entry (peek_entries now k m.entries) k m else (m, none);
  peek = λ now k m. peek_entries now k m.entries;
}

abbrev pub memory : Backend
memory = memory_that false

abbrev pub steady_memory : Backend
steady_memory = memory_that true
