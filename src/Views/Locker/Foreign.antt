-- ===== src/Views/Locker/Foreign.antt =====
-- The views of auth_bridge/views_email_locker.py leave the rows of other users alone.
use iyou_idp.Prelude.{
  String, ◌≡◌, refl, sym, ap, ◌∙◌, ◌⊎◌, inl, inr, true, false, Option, none, some, List, [], ◌∷◌,
  ◌++◌, if◌then◌else◌, ◌==◌, eq_iff, arith, if_split, subst,
}
use iyou_idp.Server.{User, LinkedEmail, World, Env}
use iyou_idp.Server.Users.{request_user}
use iyou_idp.Server.Users.Laws.{find-holds}
use iyou_idp.Views.Locker.{Signer, is_own, change_first, remove_first}
use iyou_idp.Views.Locker.Rows.{Request, serve, owned_by, filter_rows}
use iyou_idp.Views.Locker.Exclusive.{RowStep, added, relabelled, removed}
use iyou_idp.Views.Locker.Steps.{serve-Served}

-- The rows of another user than the one who asks.
module _ (user : User) (other : String) (apart : (user.id == other) ≡ false) where
  abbrev rows_of_other : List LinkedEmail → List LinkedEmail
  rows_of_other = filter_rows (owned_by other)

  own-foreign :
      (id : String) (row : LinkedEmail) → is_own id user row ≡ true → owned_by other row ≡ false
  own-foreign id row own = ground (arith, own, apart, eq_iff row.user_id user.id)

  filter-append :
      (rows : List LinkedEmail) (row : LinkedEmail)
      → row.user_id ≡ user.id
      → rows_of_other (rows ++ row ∷ []) ≡ rows_of_other rows
  filter-append [] row whose = ground (arith, whose, apart)
  filter-append (r ∷ rows) row whose = ground (arith, filter-append rows row whose)

  filter-remove_first :
      (id : String) (rows : List LinkedEmail)
      → rows_of_other (remove_first (is_own id user) rows) ≡ rows_of_other rows
  unfolding remove_first
  filter-remove_first id [] = refl
  filter-remove_first id (r ∷ rows) =
      if_split (λ rs. rows_of_other rs ≡ rows_of_other (r ∷ rows)) (is_own id user r) _ _
        (λ e. rw (own-foreign id r e))
        (λ e. ap (λ rs. if owned_by other r then r ∷ rs else rs) (filter-remove_first id rows))

  filter-change_first :
      (id : String) (row : LinkedEmail) (rows : List LinkedEmail)
      → owned_by other row ≡ false
      → rows_of_other (change_first (is_own id user) (λ _. row) rows) ≡ rows_of_other rows
  unfolding change_first
  filter-change_first id row [] theirs = refl
  filter-change_first id row (r ∷ rows) theirs =
      if_split (λ rs. rows_of_other rs ≡ rows_of_other (r ∷ rows)) (is_own id user r) _ _
        (λ e. rw (own-foreign id r e, theirs))
        (λ e.
          ap (λ rs. if owned_by other r then r ∷ rs else rs)
            (filter-change_first id row rows theirs))

  RowStep-foreign :
      (users : List User) (rows rows' : List LinkedEmail)
      → RowStep users user rows rows'
      → rows_of_other rows' ≡ rows_of_other rows
  RowStep-foreign users rows rows' (added row whose free new e) =
      ap rows_of_other e ∙ filter-append rows row whose
  RowStep-foreign users rows rows' (relabelled id old row found same e) =
      ap rows_of_other e
      ∙ filter-change_first id row rows (
          ap (λ x. x == other) same.same_user
          ∙ own-foreign id old (find-holds (is_own id user) rows old found))
  RowStep-foreign users rows rows' (removed id e) = ap rows_of_other e ∙ filter-remove_first id rows

module _ (signer : Signer) where
  -- A request to the locker leaves the rows of every other user as they are, in their order.
  pub serve-foreign :
      (env : Env) (r : Request) (w : World) (user : User) (other : String)
      → request_user w ≡ some user
      → (user.id == other) ≡ false
      → filter_rows (owned_by other) (serve signer env r w).0.linked_emails
        ≡ filter_rows (owned_by other) w.linked_emails
  serve-foreign env r w user other e apart = go (serve-Served signer env r w).1
    where
      go :
          ((serve signer env r w).0.linked_emails ≡ w.linked_emails)
            ⊎ ((u : User) × (request_user w ≡ some u)
                × RowStep w.users u w.linked_emails (serve signer env r w).0.linked_emails)
          → filter_rows (owned_by other) (serve signer env r w).0.linked_emails
            ≡ filter_rows (owned_by other) w.linked_emails
      go (inl same) = ap (filter_rows (owned_by other)) same
      go (inr (u, e', step)) =
          let same : user.id ≡ u.id = ap id_of (sym e ∙ e') in
          RowStep-foreign u other (subst (λ x. (x == other) ≡ false) same apart) w.users _ _ step
        where
          id_of : Option User → String
          id_of none = ""
          id_of (some v) = v.id
