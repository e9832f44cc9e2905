-- ===== src/Views/Locker/Exclusive.antt =====
-- What a request to the views of auth_bridge/views_email_locker.py may do to the rows, and that each
-- address keeps one holder.
use iyou_idp.Prelude.{
  String, ◌≡◌, refl, sym, ap, ◌∙◌, Bool, true, false, ◌||◌, Option, none, some, List, [], ◌∷◌, ◌++◌,
  ◌==◌, eq_iff, arith, find, any, if_both, if_split, subst,
}
use iyou_idp.Server.{User, LinkedEmail}
use iyou_idp.Server.Users.{has_email}
use iyou_idp.Views.Locker.{has_address, is_own, change_first, remove_first}

-- A row in place of another: only the label and the visibility may differ.
pub record Relabelled (old row : LinkedEmail) : Type 0 where
  pub same_id : row.id ≡ old.id
  pub same_user : row.user_id ≡ old.user_id
  pub same_email : row.email ≡ old.email
  pub same_time : row.verified_at ≡ old.verified_at

-- The specification of a change by a user: there is one more row of the user, for an address that
-- nobody has, or a row of the user is relabelled, or removed.
pub data RowStep (users : List User) (user : User) (rows rows' : List LinkedEmail) : Type 0 where
  added :
      (row : LinkedEmail)
      → row.user_id ≡ user.id
      → any (has_email row.email) users ≡ false
      → any (has_address row.email) rows ≡ false
      → rows' ≡ rows ++ row ∷ []
      → RowStep users user rows rows'
  relabelled :
      (id : String) (old row : LinkedEmail)
      → find (is_own id user) rows ≡ some old
      → Relabelled old row
      → rows' ≡ change_first (is_own id user) (λ _. row) rows
      → RowStep users user rows rows'
  removed :
      (id : String) → rows' ≡ remove_first (is_own id user) rows → RowStep users user rows rows'

-- No user's address is a linked one, and no address is linked twice.
abbrev pub IsExclusive : List User → List LinkedEmail → Type 0
IsExclusive users [] = Unit
IsExclusive users (r ∷ rows) =
    (any (has_email r.email) users ≡ false)
    × (any (has_address r.email) rows ≡ false)
    × IsExclusive users rows

any-append-one :
    (p : LinkedEmail → Bool) (rows : List LinkedEmail) (row : LinkedEmail)
    → any p rows ≡ false
    → p row ≡ false
    → any p (rows ++ row ∷ []) ≡ false
any-append-one p [] row h e = ground (arith, e)
any-append-one p (r ∷ rows) row h e = ground (arith, any-append-one p rows row)

eq_comm : (a b : String) → (a == b) ≡ false → (b == a) ≡ false
eq_comm a b h = ground (arith, eq_iff a b, eq_iff b a)

module _ (p : LinkedEmail → Bool) (r : LinkedEmail) (rows : List LinkedEmail) (old : LinkedEmail)
    (found : find p (r ∷ rows) ≡ some old) where
  find-first : p r ≡ true → r.email ≡ old.email
  find-first e =
      ap email_of (sym (ap (λ b. elim b [ true ↦ some r | false ↦ find p rows ]) e) ∙ found)
    where
      email_of : Option LinkedEmail → String
      email_of none = ""
      email_of (some x) = x.email

  find-later : p r ≡ false → find p rows ≡ some old
  find-later e = sym (ap (λ b. elim b [ true ↦ some r | false ↦ find p rows ]) e) ∙ found

module _ (users : List User) where
  append-IsExclusive :
      (rows : List LinkedEmail) (row : LinkedEmail)
      → IsExclusive users rows
      → any (has_email row.email) users ≡ false
      → any (has_address row.email) rows ≡ false
      → IsExclusive users (rows ++ row ∷ [])
  append-IsExclusive [] row x free new = (free, refl, tt)
  append-IsExclusive (r ∷ rows) row x free new = (
    x.0,
    any-append-one (has_address r.email) rows row x.1
        (eq_comm r.email row.email (ground (arith, new))),
    append-IsExclusive rows row x.2 free (ground (arith, new)),
  )

  module _ (p : LinkedEmail → Bool) where
    any-remove_first :
        (a : String) (rows : List LinkedEmail)
        → any (has_address a) rows ≡ false
        → any (has_address a) (remove_first p rows) ≡ false
    unfolding remove_first
    any-remove_first a [] h = refl
    any-remove_first a (r ∷ rows) h = ground (arith, any-remove_first a rows)

    remove_first-IsExclusive :
        (rows : List LinkedEmail) → IsExclusive users rows → IsExclusive users (remove_first p rows)
    unfolding remove_first
    remove_first-IsExclusive [] x = tt
    remove_first-IsExclusive (r ∷ rows) x =
        if_both (IsExclusive users) (p r) _ _ x.2
          (x.0, any-remove_first r.email rows x.1, remove_first-IsExclusive rows x.2)

    module _ (old row : LinkedEmail) (same : row.email ≡ old.email) where
      any-change_first :
          (a : String) (rows : List LinkedEmail)
          → find p rows ≡ some old
          → any (has_address a) (change_first p (λ _. row) rows) ≡ any (has_address a) rows
      unfolding change_first
      any-change_first a [] found = absurd (cc)
      any-change_first a (r ∷ rows) found =
          if_split (λ rs. any (has_address a) rs ≡ any (has_address a) (r ∷ rows)) (p r) _ _
            (λ e.
              ap (λ x. (x == a) || any (has_address a) rows)
                (same ∙ sym (find-first p r rows old found e)))
            (λ e.
              ap (λ b. has_address a r || b)
                (any-change_first a rows (find-later p r rows old found e)))

      change_first-IsExclusive :
          (rows : List LinkedEmail)
          → find p rows ≡ some old
          → IsExclusive users rows
          → IsExclusive users (change_first p (λ _. row) rows)
      unfolding change_first
      change_first-IsExclusive [] found x = absurd (cc)
      change_first-IsExclusive (r ∷ rows) found x =
          if_split (IsExclusive users) (p r) _ _
            (λ e.
              let mail : r.email ≡ row.email = find-first p r rows old found e ∙ sym same in
              (
                subst (λ a. any (has_email a) users ≡ false) mail x.0,
                subst (λ a. any (has_address a) rows ≡ false) mail x.1,
                x.2,
              ))
            (λ e. (
              x.0,
              any-change_first r.email rows (find-later p r rows old found e) ∙ x.1,
              change_first-IsExclusive rows (find-later p r rows old found e) x.2,
            ))

  pub RowStep-IsExclusive :
      (user : User) (rows rows' : List LinkedEmail)
      → RowStep users user rows rows'
      → IsExclusive users rows
      → IsExclusive users rows'
  RowStep-IsExclusive user rows rows' (added row whose free new e) x =
      subst (IsExclusive users) (sym e) (append-IsExclusive rows row x free new)
  RowStep-IsExclusive user rows rows' (relabelled id old row found same e) x =
      subst (IsExclusive users) (sym e)
        (change_first-IsExclusive (is_own id user) old row same.same_email rows found x)
  RowStep-IsExclusive user rows rows' (removed id e) x =
      subst (IsExclusive users) (sym e) (remove_first-IsExclusive (is_own id user) rows x)
