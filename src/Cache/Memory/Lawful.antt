-- ===== src/Cache/Memory/Lawful.antt =====
-- The in-memory backend meets what is assumed of a backend.
use iyou_idp.Prelude.{
  ℕ, suc, ◌≤◌, ◌<◌, String, ◌≡◌, refl, Bool, Option, none, some, List, [], ◌∷◌, if◌then◌else◌, ◌||◌,
  eq_iff, eq_refl, arith,
}
use iyou_idp.Prelude.Int.{pos}
use iyou_idp.Json.{Json, int}
use iyou_idp.Cache.{IsLawful}
use iyou_idp.Cache.Memory.{Memory, memory_that, peek_entries, incr_entry}

peek_entries-later :
    (n m : ℕ) (k : String) (es : List (String × Json × ℕ)) (v : Json) (d : ℕ)
    → peek_entries n k es ≡ some (v, d)
    → n ≤ m
    → m < d
    → peek_entries m k es ≡ some (v, d)
peek_entries-later n m k [] v d h le lt = cc
peek_entries-later n m k ((j, w, e) ∷ es) v d h le lt =
    ground (arith, peek_entries-later n m k es v d)

peek_entries-absent :
    (n m : ℕ) (k : String) (es : List (String × Json × ℕ))
    → peek_entries n k es ≡ none
    → n ≤ m
    → peek_entries m k es ≡ none
peek_entries-absent n m k [] h le = refl
peek_entries-absent n m k ((j, w, e) ∷ es) h le = ground (arith, peek_entries-absent n m k es)

peek_entries-live :
    (n : ℕ) (k : String) (es : List (String × Json × ℕ)) (v : Json) (d : ℕ)
    → peek_entries n k es ≡ some (v, d)
    → n < d
peek_entries-live n k [] v d h = absurd (cc)
peek_entries-live n k ((j, w, e) ∷ es) v d h = ground (arith, peek_entries-live n k es v d)

incr_entry-counter :
    (b : Bool) (n : ℕ) (k : String) (s : Memory) (c d r : ℕ) (o : Option (Json × ℕ))
    → o ≡ some (int (pos c), d)
    → n < d
    → (if b || s.up then incr_entry o k s else (s, none)).1 ≡ some r
    → (r ≡ suc c)
      × (peek_entries n k (if b || s.up then incr_entry o k s else (s, none)).0.entries
          ≡ some (int (pos (suc c)), d))
incr_entry-counter b n k s c d r o e lt h = rw e (ground (arith, eq_refl k))

pub memory-IsLawful : (b : Bool) → IsLawful (memory_that b)
memory-IsLawful b = record {
  peek_later = λ n m k s v d h le lt. peek_entries-later n m k s.entries v d h le lt;
  peek_absent = λ n m k s h le. peek_entries-absent n m k s.entries h le;
  set_raised = λ n k v t s h. ground arith;
  set_other = λ n k j v t s ne. ground (arith, eq_iff k j);
  add_raised = λ n k v t s h. ground arith;
  add_new = λ n k v t s h e p. ground (arith, eq_refl k);
  add_old = λ n k v t s w d e. ground (arith);
  add_other = λ n k j v t s ne. ground (arith, eq_iff k j);
  incr_raised = λ n k s h. ground arith;
  incr_counter = λ n k s c d r e h.
      incr_entry-counter b n k s c d r _ e (peek_entries-live n k s.entries _ d e) h;
  incr_other = λ n k j s ne. ground (arith, eq_iff k j);
}
