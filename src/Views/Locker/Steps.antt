-- ===== src/Views/Locker/Steps.antt =====
-- The views of auth_bridge/views_email_locker.py take the steps of Locker/Exclusive, in any sequence.
use iyou_idp.Prelude.{
  String, ◌≡◌, refl, sym, ap, ◌∙◌, ◌⊎◌, inl, inr, Bool, true, false, not, ◌&&◌, Option, none, some,
  List, [], ◌∷◌, ◌==◌, arith, find, any, member, if_both, if_split, subst,
}
use iyou_idp.Json.{Json, null, bool, int, float, str, arr, obj, Props, get, get?, get_or}
use iyou_idp.Server.{User, LinkedEmail, World, Env, Session, Response}
use iyou_idp.Server.Users.{request_user, has_email}
use iyou_idp.Server.Users.Laws.{find-holds}
use iyou_idp.Views.Locker.{
  Signer, has_address, is_own, change_first, challenge_link_email, challenge_user, claimed,
  valid_labels, challenge_email_field, challenge_address, email_field,
}
use iyou_idp.Views.Locker.Rows.{
  Request, challenge, verify, patch, remove, serve, serve_all, patch_linked_email,
  remove_linked_email, with_visibility, with_label, patch_label, patch_fields, patch_row,
  patch_user, remove_row, remove_user, changed,
}
use iyou_idp.Views.Locker.Laws.{UsedLink, RowsAfter, verify_link_email-Uses}
use iyou_idp.Views.Locker.Exclusive.{
  Relabelled, RowStep, added, relabelled, removed, IsExclusive, RowStep-IsExclusive,
}

-- What a request leaves: the users, and the rows or a step of the signed-in user on them.
abbrev pub Served : World → World → Type 0
Served w w' =
    (w'.users ≡ w.users)
    × ((w'.linked_emails ≡ w.linked_emails)
        ⊎ ((user : User) × (request_user w ≡ some user)
            × RowStep w.users user w.linked_emails w'.linked_emails))

module _ (p : LinkedEmail → Bool) (a b : LinkedEmail) (h : p a ≡ true) where
  change_first-twice :
      (rows : List LinkedEmail)
      → change_first p (λ _. b) (change_first p (λ _. a) rows) ≡ change_first p (λ _. b) rows
  unfolding change_first
  change_first-twice [] = refl
  change_first-twice (r ∷ rows) =
      if_split (λ rs. change_first p (λ _. b) rs ≡ change_first p (λ _. b) (r ∷ rows)) (p r) _ _
        (λ e. rw (h, e, change_first))
        (λ e. rw (e, change_first) (ap (λ rs. r ∷ rs) (change_first-twice rows)))

with_visibility-Relabelled :
    (o : Option Json) (row : LinkedEmail) → Relabelled row (with_visibility o row)
with_visibility-Relabelled none row = record {
  same_id = refl;
  same_user = refl;
  same_email = refl;
  same_time = refl;
}
with_visibility-Relabelled (some v) row = record {
  same_id = refl;
  same_user = refl;
  same_email = refl;
  same_time = refl;
}

module _ (id : String) (user : User) (w : World) (authenticated : request_user w ≡ some user)
    (old : LinkedEmail) (found : find (is_own id user) w.linked_emails ≡ some old) where
  own_kept : (row : LinkedEmail) → Relabelled old row → is_own id user row ≡ true
  own_kept row same =
      ap (λ x. (x == id) && (row.user_id == user.id)) same.same_id
      ∙ ap (λ x. (old.id == id) && (x == user.id)) same.same_user
      ∙ find-holds (is_own id user) w.linked_emails old found

  changed-Served : (row : LinkedEmail) → Relabelled old row → Served w (changed id user row w)
  changed-Served row same = (refl, inr (user, authenticated, relabelled id old row found same refl))

  changed_twice-Served :
      (shown row : LinkedEmail)
      → Relabelled old shown
      → Relabelled old row
      → Served w (changed id user row (changed id user shown w))
  changed_twice-Served shown row first second = (
    refl,
    inr (
      user,
      authenticated,
      relabelled id old row found second
          (change_first-twice (is_own id user) shown row (own_kept shown first) w.linked_emails),
    ),
  )

  patch_label-Served :
      (shown : LinkedEmail) (o : Option Json)
      → Relabelled old shown
      → Served w (patch_label id user (changed id user shown w) (with_label o shown)).0
  patch_label-Served shown none same = changed_twice-Served shown shown same same
  patch_label-Served shown (some (str s)) same = changed_twice-Served shown _ same (
      if_both (Relabelled old) (member s valid_labels) _ _
        (record {
          same_id = same.same_id;
          same_user = same.same_user;
          same_email = same.same_email;
          same_time = same.same_time;
        })
        same)
  patch_label-Served shown (some (arr vs)) same = changed-Served shown same
  patch_label-Served shown (some (obj ps)) same = changed-Served shown same
  patch_label-Served shown (some null) same = changed_twice-Served shown shown same same
  patch_label-Served shown (some (bool b)) same = changed_twice-Served shown shown same same
  patch_label-Served shown (some (int n)) same = changed_twice-Served shown shown same same
  patch_label-Served shown (some (float x n)) same = changed_twice-Served shown shown same same

  patch_fields-Served : (v : Json) → Served w (patch_fields id user old w v).0
  patch_fields-Served (obj body) =
      patch_label-Served _ (get? "label" body)
        (with_visibility-Relabelled (get? "is_public" body) old)
  patch_fields-Served null = (refl, inl refl)
  patch_fields-Served (bool b) = (refl, inl refl)
  patch_fields-Served (int n) = (refl, inl refl)
  patch_fields-Served (float x n) = (refl, inl refl)
  patch_fields-Served (str s) = (refl, inl refl)
  patch_fields-Served (arr vs) = (refl, inl refl)

module _ (id : String) (w : World) where
  patch_row-Served :
      (user : User) (body : Option Json) (o : Option LinkedEmail)
      → request_user w ≡ some user
      → find (is_own id user) w.linked_emails ≡ o
      → Served w (patch_row id user body w o).0
  patch_row-Served user body none e found = (refl, inl refl)
  patch_row-Served user none (some row) e found = (refl, inl refl)
  patch_row-Served user (some v) (some row) e found = patch_fields-Served id user w e row found v

  patch_user-Served :
      (body : Option Json) (o : Option User)
      → request_user w ≡ o
      → Served w (patch_user id body w o).0
  patch_user-Served body none e = (refl, inl refl)
  patch_user-Served body (some user) e = patch_row-Served user body _ e refl

  remove_row-Served :
      (user : User) (o : Option LinkedEmail)
      → request_user w ≡ some user
      → Served w (remove_row id user w o).0
  remove_row-Served user none e = (refl, inl refl)
  remove_row-Served user (some row) e = (refl, inr (user, e, removed id refl))

  remove_user-Served : (o : Option User) → request_user w ≡ o → Served w (remove_user id w o).0
  remove_user-Served none e = (refl, inl refl)
  remove_user-Served (some user) e = remove_row-Served user _ e

module _ (env : Env) (signer : Signer) where
  abbrev Quiet : World → World × Response → Type 0
  Quiet w r = (r.0.users ≡ w.users) × (r.0.linked_emails ≡ w.linked_emails)

  challenge_address-Quiet :
      (user : User) (body : Props) (email : String) (w : World)
      → Quiet w (challenge_address env signer user body email w)
  challenge_address-Quiet user body email w =
      if_both (Quiet w) (not (signer.valid_email email)) _ _ (refl, refl)
        (if_both (Quiet w) (claimed email w) _ _ (refl, refl) (refl, refl))

  challenge_email_field-Quiet :
      (user : User) (body : Props) (v : Json) (w : World)
      → Quiet w (challenge_email_field env signer user body v w)
  challenge_email_field-Quiet user body (str raw) w =
      if_both (Quiet w) (raw == "") _ _ (refl, refl) (challenge_address-Quiet user body _ w)
  challenge_email_field-Quiet user body null w = (refl, refl)
  challenge_email_field-Quiet user body (bool b) w = (refl, refl)
  challenge_email_field-Quiet user body (int n) w = (refl, refl)
  challenge_email_field-Quiet user body (float x n) w = (refl, refl)
  challenge_email_field-Quiet user body (arr vs) w = (refl, refl)
  challenge_email_field-Quiet user body (obj ps) w = (refl, refl)

  challenge_user-Quiet :
      (body : Option Json) (w : World) (o : Option User)
      → Quiet w (challenge_user env signer body w o)
  challenge_user-Quiet body w none = (refl, refl)
  challenge_user-Quiet none w (some user) = (refl, refl)
  challenge_user-Quiet (some (obj body)) w (some user) =
      challenge_email_field-Quiet user body (get_or (str "") "email" body) w
  challenge_user-Quiet (some null) w (some user) = (refl, refl)
  challenge_user-Quiet (some (bool b)) w (some user) = (refl, refl)
  challenge_user-Quiet (some (int n)) w (some user) = (refl, refl)
  challenge_user-Quiet (some (float x n)) w (some user) = (refl, refl)
  challenge_user-Quiet (some (str s)) w (some user) = (refl, refl)
  challenge_user-Quiet (some (arr vs)) w (some user) = (refl, refl)

  claimed-free :
      (address : String) (w : World)
      → claimed address w ≡ false
      → (any (has_email address) w.users ≡ false)
        × (any (has_address address) w.linked_emails ≡ false)
  claimed-free address w free = (ground arith, ground arith)

  UsedLink-Served :
      (body : Option Json) (w w' : World) → UsedLink env signer body w w' → Served w w'
  UsedLink-Served body w w' used = (ap World.users used.only_rows, rows_Served used.rows)
    where
      rows_Served :
          RowsAfter env signer used.user (email_field env signer (get "email" used.fields)) w w'
          → (w'.linked_emails ≡ w.linked_emails)
            ⊎ ((user : User) × (request_user w ≡ some user)
                × RowStep w.users user w.linked_emails w'.linked_emails)
      rows_Served (inl same) = inl same
      rows_Served (inr (free, (label, more))) =
          let (users_free, rows_free) = claimed-free _ w free in
          inr (used.user, used.authenticated, added _ refl users_free rows_free more)

module _ (signer : Signer) where
  -- A request to any view of the locker leaves the users as they are, and the rows, or takes one step
  -- of the specification on the rows for the signed-in user: a row of the user for an address that no
  -- user and no row has, a row of the user with another label or visibility, or one less.
  pub serve-Served : (env : Env) (r : Request) (w : World) → Served w (serve signer env r w).0
  unfolding challenge_link_email patch_linked_email remove_linked_email
  serve-Served env (challenge body) w =
      let quiet = challenge_user-Quiet env signer body w (request_user w) in (quiet.0, inl quiet.1)
  serve-Served env (verify body) w = elim (verify_link_email-Uses env signer body w) [
    | inl same ↦ (ap World.users same, inl (ap World.linked_emails same))
    | inr used ↦ UsedLink-Served env signer body w _ used
  ]
  serve-Served env (patch id body) w = patch_user-Served id w body _ refl
  serve-Served env (remove id) w = remove_user-Served id w _ refl

  Served-IsExclusive :
      (w w' : World)
      → Served w w'
      → IsExclusive w.users w.linked_emails
      → IsExclusive w'.users w'.linked_emails
  Served-IsExclusive w w' (users, inl rows) x =
      subst (λ us. IsExclusive us w'.linked_emails) (sym users)
        (subst (IsExclusive w.users) (sym rows) x)
  Served-IsExclusive w w' (users, inr (user, e, step)) x =
      subst (λ us. IsExclusive us w'.linked_emails) (sym users)
        (RowStep-IsExclusive w.users user w.linked_emails w'.linked_emails step x)

  -- If no linked address is a user's own and none is linked twice, so it is after any sequence of
  -- requests to the locker, by any sessions.
  pub serve_all-IsExclusive :
      (rs : List (Env × Session × Request)) (w : World)
      → IsExclusive w.users w.linked_emails
      → IsExclusive (serve_all signer rs w).users (serve_all signer rs w).linked_emails
  unfolding serve_all
  serve_all-IsExclusive [] w x = x
  serve_all-IsExclusive ((env, session, r) ∷ rs) w x =
      let before : World = record w { session = session } in
      let after : World = (serve signer env r before).0 in
      serve_all-IsExclusive rs after (Served-IsExclusive before after (serve-Served env r before) x)
