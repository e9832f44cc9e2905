-- ===== src/Cache.antt =====
-- auth_bridge/resilient_cache.py: a primary cache with an in-memory fallback.
-- Django's cache backends are third-party code: `Backend` is what the program calls of one, and
-- `IsLawful` is the documented behaviour that it relies on. Every call of the primary may raise.
pub mod Memory
pub mod Laws
use iyou_idp.Prelude.{
  ℕ, suc, ◌+◌, ◌≤◌, ◌<◌, String, ◌≡◌, ◌≢◌, Bool, true, false, Option, none, some, if◌then◌else◌,
}
use iyou_idp.Prelude.Int.{pos}
use iyou_idp.Json.{Json, int}
use Prim.Native.String.{◌++◌}

-- One cache backend. Each call is made at a time; the Boolean is false where the call raised, and
-- an outer `none` stands for an exception too.
pub record Backend : Type 1 where
  pub Store : Type 0
  pub get : (now : ℕ) → String → Store → Option (Option Json)
  pub set : (now : ℕ) → String → Json → (timeout : ℕ) → Store → Store × Bool
  pub delete : (now : ℕ) → String → Store → Store × Bool
  pub clear : (now : ℕ) → Store → Store × Bool
  pub add : (now : ℕ) → String → Json → (timeout : ℕ) → Store → Store × Bool
  pub incr : (now : ℕ) → String → Store → Store × Option ℕ
  -- the live value of a key with its deadline, which no call reports
  pub peek : (now : ℕ) → String → Store → Option (Json × ℕ)

-- The documented behaviour of a backend that drops nothing before its time; a call that raises wrote
-- nothing. A LocMemCache keeps it while it holds no more than its MAX_ENTRIES, from where it culls.
pub record IsLawful (B : Backend) : Type 0 where
  pub peek_later :
      (n m : ℕ) (k : String) (s : B.Store) (v : Json) (d : ℕ)
      → B.peek n k s ≡ some (v, d)
      → n ≤ m
      → m < d
      → B.peek m k s ≡ some (v, d)
  pub peek_absent :
      (n m : ℕ) (k : String) (s : B.Store) → B.peek n k s ≡ none → n ≤ m → B.peek m k s ≡ none
  pub set_raised :
      (n : ℕ) (k : String) (v : Json) (t : ℕ) (s : B.Store)
      → (B.set n k v t s).1 ≡ false
      → (B.set n k v t s).0 ≡ s
  pub set_other :
      (n : ℕ) (k j : String) (v : Json) (t : ℕ) (s : B.Store)
      → k ≢ j
      → B.peek n j (B.set n k v t s).0 ≡ B.peek n j s
  pub add_raised :
      (n : ℕ) (k : String) (v : Json) (t : ℕ) (s : B.Store)
      → (B.add n k v t s).1 ≡ false
      → (B.add n k v t s).0 ≡ s
  pub add_new :
      (n : ℕ) (k : String) (v : Json) (t : ℕ) (s : B.Store)
      → (B.add n k v t s).1 ≡ true
      → B.peek n k s ≡ none
      → 0 < t
      → B.peek n k (B.add n k v t s).0 ≡ some (v, n + t)
  pub add_old :
      (n : ℕ) (k : String) (v : Json) (t : ℕ) (s : B.Store) (w : Json) (d : ℕ)
      → B.peek n k s ≡ some (w, d)
      → B.peek n k (B.add n k v t s).0 ≡ some (w, d)
  pub add_other :
      (n : ℕ) (k j : String) (v : Json) (t : ℕ) (s : B.Store)
      → k ≢ j
      → B.peek n j (B.add n k v t s).0 ≡ B.peek n j s
  pub incr_raised :
      (n : ℕ) (k : String) (s : B.Store) → (B.incr n k s).1 ≡ none → (B.incr n k s).0 ≡ s
  pub incr_counter :
      (n : ℕ) (k : String) (s : B.Store) (c d r : ℕ)
      → B.peek n k s ≡ some (int (pos c), d)
      → (B.incr n k s).1 ≡ some r
      → (r ≡ suc c) × (B.peek n k (B.incr n k s).0 ≡ some (int (pos (suc c)), d))
  pub incr_other :
      (n : ℕ) (k j : String) (s : B.Store) → k ≢ j → B.peek n j (B.incr n k s).0 ≡ B.peek n j s

-- The primary of `ResilientCache` is reached by every worker; the fallback is one process's own:
-- with several workers this is the state that one of them sees.
module _ (P F : Backend) where
  pub record Caches : Type 0 where
    pub primary : P.Store
    pub fallback : F.Store

  abbrev value_or_fallback :
      (now : ℕ) → String → F.Store → Option (Option Json) → Option (Option Json)
  value_or_fallback now key f none = F.get now key f
  value_or_fallback now key f (some none) = F.get now key f
  value_or_fallback now key f (some (some v)) = some (some v)

  -- ResilientCache.get with the default None; an outer `none` is an exception of the fallback
  unfoldable pub cache_get : (now : ℕ) → String → Caches → Option (Option Json)
  cache_get now key s = value_or_fallback now key s.fallback (P.get now key s.primary)

  -- ResilientCache.set: the fallback is written in both cases
  unfoldable pub cache_set : (now : ℕ) → String → Json → (timeout : ℕ) → Caches → Caches
  cache_set now key v timeout s = record {
    primary = (P.set now key v timeout s.primary).0;
    fallback = (F.set now key v timeout s.fallback).0;
  }

  -- ResilientCache.delete: a failure of the primary is logged and passed over
  unfoldable pub cache_delete : (now : ℕ) → String → Caches → Caches
  cache_delete now key s = record {
    primary = (P.delete now key s.primary).0;
    fallback = (F.delete now key s.fallback).0;
  }

  -- ResilientCache.clear
  unfoldable pub cache_clear : (now : ℕ) → Caches → Caches
  cache_clear now s = record {
    primary = (P.clear now s.primary).0;
    fallback = (F.clear now s.fallback).0;
  }

-- `backend.add` and `backend.incr` of claim_unit, on the backend that was chosen
abbrev pub claim_on :
    (B : Backend) (now : ℕ) (key : String) (initial timeout : ℕ) → B.Store → B.Store × Option ℕ
claim_on B now key initial timeout s =
    let (s', added) = B.add now key (int (pos initial)) timeout s in
    if added then B.incr now key s' else (s', none)

module _ (P F : Backend) where
  -- ResilientCache.claim_unit; `_live_backend` is the write to the probe key
  unfoldable pub claim_unit :
      (now : ℕ) (key : String) (initial timeout : ℕ) → Caches P F → Caches P F × Option ℕ
  claim_unit now key initial timeout s =
      let (p, live) = P.set now (key ++ ":probe") (int (pos 1)) 5 s.primary in
      let (p', n) = claim_on P now key initial timeout p in
      let (f', m) = claim_on F now key initial timeout s.fallback in
      if live
      then (record { primary = p'; fallback = s.fallback }, n)
      else (record { primary = p; fallback = f' }, m)
