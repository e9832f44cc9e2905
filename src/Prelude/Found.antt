-- ===== src/Prelude/Found.antt =====
-- What `find` and `any` say of the elements of a list.
use mathlib.Core.Path.{◌≡◌, refl, sym, ap, ◌∙◌}
use mathlib.Core.Bool.{Bool, true, false, ◌||◌, ◌&&◌}
use mathlib.Core.Option.{Option, none, some}
use mathlib.Core.List.{List, [], ◌∷◌, ◌++◌, Memᴰ as IsIn}
use mathlib.Core.List.Memᴰ
use native.Mathlib.Omega.{arith}
use iyou_idp.Prelude.Lists.{find, any}

-- Both halves of a conjunction.
pub and_true : {a b : Bool} → (a && b) ≡ true → (a ≡ true) × (b ≡ true)
and_true {a = true} h = (refl, h)
and_true {a = false} h = absurd (cc (h))

pub last-IsIn {ℓ} : {A : Type ℓ} (xs : List A) (a : A) → IsIn a (xs ++ a ∷ [])
last-IsIn [] a = IsIn.head refl
last-IsIn (x ∷ xs) a = IsIn.tail (last-IsIn xs a)

module _ {ℓ} {A : Type ℓ} (p : A → Bool) where
  or_else : A → Option A → A
  or_else d none = d
  or_else d (some a) = a

  found_step :
      (x a : A) (xs : List A) (b : Bool)
      → (find p xs ≡ some a → IsIn a xs × (p a ≡ true))
      → p x ≡ b
      → (elim b [ true ↦ some x | false ↦ find p xs ]) ≡ some a
      → IsIn a (x ∷ xs) × (p a ≡ true)
  unfolding or_else
  found_step x a xs true rest e f =
      let same : x ≡ a = ap (or_else x) f in (IsIn.head (sym same), ap p (sym same) ∙ e)
  found_step x a xs false rest e f = (IsIn.tail (rest f).0, (rest f).1)

  -- An element that is found is one, and passes.
  pub find-IsIn : (xs : List A) (a : A) → find p xs ≡ some a → IsIn a xs × (p a ≡ true)
  find-IsIn [] a h = absurd (cc)
  find-IsIn (x ∷ xs) a h = found_step x a xs (p x) (find-IsIn xs a) refl h

  -- If nothing is found, no element passes.
  pub find-none : (xs : List A) (a : A) → find p xs ≡ none → IsIn a xs → p a ≡ false
  find-none [] a h m = absurd (Memᴰ.not-nil m)
  find-none (x ∷ xs) a h (IsIn.head e) = ground (arith, e)
  find-none (x ∷ xs) a h (IsIn.tail m) = ground (arith, find-none xs a)

  pub any-none : (xs : List A) (a : A) → any p xs ≡ false → IsIn a xs → p a ≡ false
  any-none [] a h m = absurd (Memᴰ.not-nil m)
  any-none (x ∷ xs) a h (IsIn.head e) = ground (arith, e)
  any-none (x ∷ xs) a h (IsIn.tail m) = ground (arith, any-none xs a)

  some_step :
      (x : A) (xs : List A) (b : Bool)
      → (any p xs ≡ true → (a : A) × IsIn a xs × (p a ≡ true))
      → p x ≡ b
      → (b || any p xs) ≡ true
      → (a : A) × IsIn a (x ∷ xs) × (p a ≡ true)
  some_step x xs true rest e h = (x, IsIn.head refl, e)
  some_step x xs false rest e h = let (a, m, passes) = rest h in (a, IsIn.tail m, passes)

  -- Where an element passes, there is one.
  pub any-some : (xs : List A) → any p xs ≡ true → (a : A) × IsIn a xs × (p a ≡ true)
  any-some [] h = absurd (cc)
  any-some (x ∷ xs) h = some_step x xs (p x) (any-some xs) refl h
