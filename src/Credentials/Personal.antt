-- ===== src/Credentials/Personal.antt =====
-- _find_pii_fields of auth_bridge/credentials.py finds a prohibited key however deep it stands.
use iyou_idp.Prelude.{
  ℕ, zero, suc, String, ◌≡◌, refl, sym, ap, ◌∙◌, Bool, true, false, Option, none, some, List, [],
  ◌∷◌, ◌++◌, if◌then◌else◌, ◌==◌, eq_iff, Bool-cases, inl, inr, subst,
}
use iyou_idp.Json.{
  Json, null, bool, int, float, str, arr, obj, Items, nil, cons, Props, end, prop, get?,
}
use iyou_idp.Credentials.{is_pii, find_pii_fields, pii_of_items, pii_of_props}

-- One step into a value: the value of a key, or an element of a list.
pub data Into : Type 0 where
  key : String → Into
  index : ℕ → Into

abbrev element : ℕ → Items → Option Json
element i nil = none
element zero (cons v vs) = some v
element (suc i) (cons v vs) = element i vs

abbrev pub step_into : Into → Json → Option Json
step_into (key k) (obj ps) = get? k ps
step_into (index i) (arr vs) = element i vs
step_into _ _ = none

-- The value at the end of a path.
abbrev and_then : (Json → Option Json) → Option Json → Option Json
and_then f none = none
and_then f (some v) = f v

unfoldable pub reach : List Into → Json → Option Json
reach [] v = some v
reach (i ∷ path) v = and_then (reach path) (step_into i v)

append-nil : (a b : List String) → a ++ b ≡ [] → (a ≡ []) × (b ≡ [])
append-nil [] b h = (refl, h)
append-nil (x ∷ a) b h = absurd (cc)

-- What the search finds in a value that may be there.
pii_of_option : Option Json → List String
pii_of_option none = []
pii_of_option (some v) = find_pii_fields v

unlisted : (b : Bool) (k : String) → (if b then k ∷ [] else []) ≡ [] → b ≡ false
unlisted true k h = absurd (cc)
unlisted false k h = refl

element-clean :
    (i : ℕ) (vs : Items) (v : Json)
    → pii_of_items vs ≡ []
    → element i vs ≡ some v
    → find_pii_fields v ≡ []
unfolding find_pii_fields pii_of_option
element-clean i nil v h e = absurd (cc)
element-clean zero (cons u vs) v h e =
    ap pii_of_option (sym e) ∙ (append-nil (find_pii_fields u) (pii_of_items vs) h).0
element-clean (suc i) (cons u vs) v h e =
    element-clean i vs v (append-nil (find_pii_fields u) (pii_of_items vs) h).1 e

entry-clean :
    (k : String) (ps : Props) (v : Json)
    → pii_of_props ps ≡ []
    → get? k ps ≡ some v
    → (is_pii k ≡ false) × (find_pii_fields v ≡ [])
unfolding find_pii_fields pii_of_option
entry-clean k end v h e = absurd (cc)
entry-clean k (prop j u ps) v h e =
    let (here, rest) =
      append-nil (if is_pii j then j ∷ [] else []) (find_pii_fields u ++ pii_of_props ps) h in
    let (inside, later) = append-nil (find_pii_fields u) (pii_of_props ps) rest in
    let chosen : (b : Bool)
        → (j == k) ≡ b
        → (elim b [ true ↦ some u | false ↦ get? k ps ]) ≡ some v =
      λ b test. ap (λ x. elim x [ true ↦ some u | false ↦ get? k ps ]) (sym test) ∙ e in
    elim (Bool-cases (j == k)) [
      | inl same ↦ (
        subst (λ x. is_pii x ≡ false) ((eq_iff j k).0 same) (unlisted (is_pii j) j here),
        ap pii_of_option (sym (chosen true same)) ∙ inside,
      )
      | inr other ↦ entry-clean k ps v later (chosen false other)
    ]

step_into-clean :
    (i : Into) (v u : Json)
    → find_pii_fields v ≡ []
    → step_into i v ≡ some u
    → find_pii_fields u ≡ []
unfolding find_pii_fields
step_into-clean (key k) (obj ps) u h e = (entry-clean k ps u h e).1
step_into-clean (index i) (arr vs) u h e = element-clean i vs u h e
step_into-clean (key k) null u h e = absurd (cc)
step_into-clean (key k) (bool b) u h e = absurd (cc)
step_into-clean (key k) (int n) u h e = absurd (cc)
step_into-clean (key k) (float r n) u h e = absurd (cc)
step_into-clean (key k) (str s) u h e = absurd (cc)
step_into-clean (key k) (arr vs) u h e = absurd (cc)
step_into-clean (index i) null u h e = absurd (cc)
step_into-clean (index i) (bool b) u h e = absurd (cc)
step_into-clean (index i) (int n) u h e = absurd (cc)
step_into-clean (index i) (float r n) u h e = absurd (cc)
step_into-clean (index i) (str s) u h e = absurd (cc)
step_into-clean (index i) (obj ps) u h e = absurd (cc)

-- If the search finds nothing in a value, no path into the value, through objects and lists to any
-- depth, reaches an object that has a prohibited key, in any case, with blanks around it or with
-- hyphens for its underscores.
pub find_pii_fields-nil :
    (path : List Into) (v : Json) (ps : Props) (k : String) (u : Json)
    → find_pii_fields v ≡ []
    → reach path v ≡ some (obj ps)
    → get? k ps ≡ some u
    → is_pii k ≡ false
unfolding reach find_pii_fields pii_of_option
find_pii_fields-nil [] v ps k u h r e = (entry-clean k ps u (ap pii_of_option (sym r) ∙ h) e).0
find_pii_fields-nil (i ∷ path) v ps k u h r e =
    go (λ w clean onward. find_pii_fields-nil path w ps k u clean onward e) (step_into i v) refl r
  where
    go :
        ((w : Json) → find_pii_fields w ≡ [] → reach path w ≡ some (obj ps) → is_pii k ≡ false)
        → (o : Option Json) → step_into i v ≡ o
        → and_then (reach path) o ≡ some (obj ps)
        → is_pii k ≡ false
    go rest none f onward = absurd (cc)
    go rest (some w) f onward = rest w (step_into-clean i v w h f) onward
