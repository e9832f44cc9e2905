-- ===== src/Cache/Laws.antt =====
-- Counters of a lawful backend: what a claim does to the counter that it counts on, and to others.
use iyou_idp.Prelude.{
  ℕ, suc, ◌+◌, ◌≤◌, ◌<◌, String, ◌≡◌, ◌≢◌, refl, ◌∙◌, true, false, none, some, arith, Bool-cases,
  inl, inr, ◌⊎◌,
}
use iyou_idp.Prelude.Int.{pos}
use iyou_idp.Json.{int}
use iyou_idp.Cache.{Backend, IsLawful, Caches, claim_on, claim_unit}
use Prim.Native.String.{◌++◌}

-- At time `now` the counter `key`, seeded with `floor`, accounts for at least `a` claims, and lives
-- until `e`; or it was never written and `a` is 0.
pub data Spent (B : Backend) (key : String) (floor e now : ℕ) (s : B.Store) (a : ℕ) : Type 0 where
  fresh : B.peek now key s ≡ none → a ≡ 0 → Spent B key floor e now s a
  counting :
      (c d : ℕ)
      → B.peek now key s ≡ some (int (pos c), d)
      → floor + a ≤ c
      → e ≤ d
      → Spent B key floor e now s a

module _ {B : Backend} (laws : IsLawful B) (key : String) (floor e : ℕ) where
  pub Spent-later :
      (n m : ℕ) (s : B.Store) (a : ℕ)
      → n ≤ m
      → m < e
      → Spent B key floor e n s a
      → Spent B key floor e m s a
  Spent-later n m s a le lt (fresh p z) = fresh (laws.peek_absent n m key s p le) z
  Spent-later n m s a le lt (counting c d p q r) =
      counting c d (laws.peek_later n m key s (int (pos c)) d p le (omega arith)) q r

  pub Spent-suc :
      (n : ℕ) (s : B.Store) (a : ℕ) → Spent B key floor e n s (suc a) → Spent B key floor e n s a
  Spent-suc n s a (fresh p z) = absurd (omega arith)
  Spent-suc n s a (counting c d p q r) = counting c d p (omega arith) r

  pub Spent-eq :
      (n : ℕ) (s t : B.Store) (a : ℕ)
      → B.peek n key t ≡ B.peek n key s
      → Spent B key floor e n s a
      → Spent B key floor e n t a
  Spent-eq n s t a same (fresh p z) = fresh (same ∙ p) z
  Spent-eq n s t a same (counting c d p q r) = counting c d (same ∙ p) q r

  -- `add` seeds the counter where it is absent, and otherwise leaves it.
  counter_after_add :
      (now t : ℕ) (s : B.Store) (a : ℕ)
      → 0 < t
      → e ≤ now + t
      → (B.add now key (int (pos floor)) t s).1 ≡ true
      → Spent B key floor e now s a
      → (c d : ℕ) × (B.peek now key (B.add now key (int (pos floor)) t s).0 ≡ some (int (pos c), d))
        × (floor + a ≤ c)
        × (e ≤ d)
  counter_after_add now t s a pt le done (fresh p z) =
      (floor, now + t, laws.add_new now key (int (pos floor)) t s done p pt, omega arith, le)
  counter_after_add now t s a pt le done (counting c d p q r) =
      (c, d, laws.add_old now key (int (pos floor)) t s (int (pos c)) d p, q, r)

  -- A claim that is counted accounts for one more, and its count is above the floor by all of them.
  pub claim_on_counts :
      (now t : ℕ) (s : B.Store) (a r : ℕ)
      → 0 < t
      → e ≤ now + t
      → Spent B key floor e now s a
      → (claim_on B now key floor t s).1 ≡ some r
      → Spent B key floor e now (claim_on B now key floor t s).0 (suc a) × (floor + suc a ≤ r)
  claim_on_counts now t s a r pt le sp h =
      elim (Bool-cases (B.add now key (int (pos floor)) t s).1) [
        | inl done ↦
            let (c, d, p, q, w) = counter_after_add now t s a pt le done sp in
            let after = (B.add now key (int (pos floor)) t s).0 in
            let counted : (B.incr now key after).1 ≡ some r = rw done at h in
            let (e1, e2) = laws.incr_counter now key after c d r p counted in
            rw done (counting (suc c) d e2 (omega arith) w, omega arith)
        | inr raised ↦ absurd (cc (rw raised at h))
      ]

  -- A claim that raised accounts for no more.
  pub claim_on_raised :
      (now t : ℕ) (s : B.Store) (a : ℕ)
      → 0 < t
      → e ≤ now + t
      → Spent B key floor e now s a
      → (claim_on B now key floor t s).1 ≡ none
      → Spent B key floor e now (claim_on B now key floor t s).0 a
  claim_on_raised now t s a pt le sp h = elim (Bool-cases (B.add now key (int (pos floor)) t s).1) [
    | inl done ↦
        let (c, d, p, q, w) = counter_after_add now t s a pt le done sp in
        let after = (B.add now key (int (pos floor)) t s).0 in
        let same : (B.incr now key after).0 ≡ after =
          laws.incr_raised now key after (rw done at h) in
        rw (done, same) (counting c d p q w)
    | inr raised ↦ rw (raised, laws.add_raised now key (int (pos floor)) t s raised) sp
  ]

module _ {B : Backend} (laws : IsLawful B) where
  -- A claim on another key leaves the counter alone.
  pub peek-claim_on_other :
      (now : ℕ) (k j : String) (initial t : ℕ) (s : B.Store)
      → k ≢ j
      → B.peek now j (claim_on B now k initial t s).0 ≡ B.peek now j s
  peek-claim_on_other now k j initial t s ne =
      let added = laws.add_other now k j (int (pos initial)) t s ne in
      elim (Bool-cases (B.add now k (int (pos initial)) t s).1) [
        | inl done ↦ rw done (laws.incr_other now k j _ ne ∙ added)
        | inr raised ↦ rw raised added
      ]

module _ {P F : Backend} (lp : IsLawful P) (lf : IsLawful F) (key : String) (floor e : ℕ) where
  -- What both backends of the cache account for.
  abbrev pub BothSpent : (now : ℕ) → Caches P F → ℕ → ℕ → Type 0
  BothSpent now s p f = Spent P key floor e now s.primary p × Spent F key floor e now s.fallback f

  module _ (now t p f : ℕ) (s : Caches P F) (apart : key ++ ":probe" ≢ key) (pt : 0 < t)
      (le : e ≤ now + t) (sp : BothSpent now s p f) where
    probed : Spent P key floor e now (P.set now (key ++ ":probe") (int (pos 1)) 5 s.primary).0 p
    probed =
        Spent-eq lp key floor e now s.primary _ p
          (lp.set_other now (key ++ ":probe") key (int (pos 1)) 5 s.primary apart) sp.0

    -- A counted claim is accounted for on one backend, and the count is above all claims there.
    pub claim_unit_counts :
        (r : ℕ)
        → (claim_unit P F now key floor t s).1 ≡ some r
        → (BothSpent now (claim_unit P F now key floor t s).0 (suc p) f × (floor + suc p ≤ r))
          ⊎ (BothSpent now (claim_unit P F now key floor t s).0 p (suc f)
              × (floor + suc f ≤ r)
              × ((P.set now (key ++ ":probe") (int (pos 1)) 5 s.primary).1 ≡ false))
    unfolding claim_unit
    claim_unit_counts r h =
        elim (Bool-cases (P.set now (key ++ ":probe") (int (pos 1)) 5 s.primary).1) [
          | inl live ↦
              let (sp', le') =
                claim_on_counts lp key floor e now t _ p r pt le probed (rw live at h) in
              rw live (inl ((sp', sp.1), le'))
          | inr down ↦
              let (sf', le') =
                claim_on_counts lf key floor e now t s.fallback f r pt le sp.1 (rw down at h) in
              rw down (inr ((probed, sf'), le', refl))
        ]

    pub claim_unit_raised :
        (claim_unit P F now key floor t s).1 ≡ none
        → BothSpent now (claim_unit P F now key floor t s).0 p f
    unfolding claim_unit
    claim_unit_raised h =
        elim (Bool-cases (P.set now (key ++ ":probe") (int (pos 1)) 5 s.primary).1) [
          | inl live ↦
              rw live (claim_on_raised lp key floor e now t _ p pt le probed (rw live at h), sp.1)
          | inr down ↦
              rw down (
                probed,
                claim_on_raised lf key floor e now t s.fallback f pt le sp.1 (rw down at h),
              )
        ]

  -- A claim on another key accounts for nothing here.
  pub claim_unit_other :
      (now i t p f : ℕ) (k : String) (s : Caches P F)
      → k ≢ key
      → k ++ ":probe" ≢ key
      → BothSpent now s p f
      → BothSpent now (claim_unit P F now k i t s).0 p f
  unfolding claim_unit
  claim_unit_other now i t p f k s ne apart sp =
      let probe = lp.set_other now (k ++ ":probe") key (int (pos 1)) 5 s.primary apart in
      elim (Bool-cases (P.set now (k ++ ":probe") (int (pos 1)) 5 s.primary).1) [
        | inl live ↦ rw live (
          Spent-eq lp key floor e now _ _ p (peek-claim_on_other lp now k key i t _ ne ∙ probe)
              sp.0,
          sp.1,
        )
        | inr down ↦ rw down (
          Spent-eq lp key floor e now _ _ p probe sp.0,
          Spent-eq lf key floor e now _ _ f (peek-claim_on_other lf now k key i t s.fallback ne)
              sp.1,
        )
      ]
