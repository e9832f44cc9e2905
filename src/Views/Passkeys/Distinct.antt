-- ===== src/Views/Passkeys/Distinct.antt =====
-- The ids of the stored credentials stay distinct.
use iyou_idp.Prelude.{
  ℕ, String, ◌≡◌, refl, sym, ap, ◌∙◌, inl, inr, Bool, false, ◌||◌, Option, none, some, List, [],
  ◌∷◌, ◌++◌, arith, any, if_split, if_both, subst,
}
use iyou_idp.Crypto.{Bytes}
use iyou_idp.Json.{Json, str, obj, Props, get, without, is_text}
use iyou_idp.Server.{User, PasskeyCredential, World, Env, Response}
use iyou_idp.Server.Users.{request_user}
use iyou_idp.Views.Passkeys.{
  Fido, same_bytes, has_id, save_row, destroy_ceremony, load_ceremony, registered, register_stored,
  register_as, passkey_register_complete, passkey_authenticate_complete,
}
use iyou_idp.Views.Passkeys.Laws.{same_bytes-eq, passkey_authenticate_complete-Asserted}

abbrev pub IsDistinct : List PasskeyCredential → Type 0
IsDistinct [] = Unit
IsDistinct (r ∷ rows) = (any (has_id r.credential_id) rows ≡ false) × IsDistinct rows

same_bytes_comm : (a b : Bytes) → same_bytes a b ≡ same_bytes b a
same_bytes_comm [] [] = refl
same_bytes_comm [] (y ∷ b) = refl
same_bytes_comm (x ∷ a) [] = refl
same_bytes_comm (x ∷ a) (y ∷ b) = ground (arith, same_bytes_comm a b)

any-append-one :
    (p : PasskeyCredential → Bool) (rows : List PasskeyCredential) (row : PasskeyCredential)
    → any p rows ≡ false
    → p row ≡ false
    → any p (rows ++ row ∷ []) ≡ false
any-append-one p [] row h e = ground (arith, e)
any-append-one p (r ∷ rows) row h e = ground (arith, any-append-one p rows row)

append-IsDistinct :
    (rows : List PasskeyCredential) (row : PasskeyCredential)
    → IsDistinct rows
    → any (has_id row.credential_id) rows ≡ false
    → IsDistinct (rows ++ row ∷ [])
append-IsDistinct [] row d h = (refl, tt)
append-IsDistinct (r ∷ rows) row d h = (
  any-append-one (has_id r.credential_id) rows row d.0
      (same_bytes_comm row.credential_id r.credential_id ∙ ground (arith, h)),
  append-IsDistinct rows row d.1 (ground (arith, h)),
)

any-save_row :
    (x : Bytes) (row : PasskeyCredential) (rows : List PasskeyCredential)
    → any (has_id x) (save_row row rows) ≡ any (has_id x) rows
unfolding save_row
any-save_row x row [] = refl
any-save_row x row (r ∷ rows) =
    if_split (λ rs. any (has_id x) rs ≡ any (has_id x) (r ∷ rows)) (has_id row.credential_id r) _ _
      (λ e.
        ap (λ id. same_bytes id x || any (has_id x) rows)
          (sym (same_bytes-eq r.credential_id row.credential_id e)))
      (λ e. ap (λ b. same_bytes r.credential_id x || b) (any-save_row x row rows))

save_row-IsDistinct :
    (row : PasskeyCredential) (rows : List PasskeyCredential)
    → IsDistinct rows
    → IsDistinct (save_row row rows)
unfolding save_row
save_row-IsDistinct row [] d = tt
save_row-IsDistinct row (r ∷ rows) d =
    if_split IsDistinct (has_id row.credential_id r) _ _
      (λ e. (
        ap (λ x. any (has_id x) rows) (sym (same_bytes-eq r.credential_id row.credential_id e))
            ∙ d.0,
        d.1,
      ))
      (λ e. (any-save_row r.credential_id row rows ∙ d.0, save_row-IsDistinct row rows d.1))

module _ (env : Env) (fido : Fido) where
  abbrev Keeps : World × Response → Type 0
  Keeps r = IsDistinct r.0.passkeys

  destroy_ceremony-passkeys :
      (kind : String) (ceremony : Json) (w : World)
      → (destroy_ceremony kind ceremony w).passkeys ≡ w.passkeys
  destroy_ceremony-passkeys kind (str id) w = refl
  destroy_ceremony-passkeys kind v w = refl

  registered-IsDistinct :
      (user : User) (ceremony : Json) (w : World) (o : Option (Bytes × Bytes × ℕ))
      → IsDistinct w.passkeys
      → Keeps (registered env fido user ceremony w o)
  registered-IsDistinct user ceremony w none d = d
  registered-IsDistinct user ceremony w (some (id, key, count)) d =
      if_split Keeps (any (has_id id) w.passkeys) _ _ (λ _. d)
        (λ unused.
          subst IsDistinct (sym (destroy_ceremony-passkeys "reg" ceremony _))
            (append-IsDistinct w.passkeys _ d unused))

  register_stored-IsDistinct :
      (user : User) (ceremony : Json) (payload : Props) (w : World) (o : Option Json)
      → IsDistinct w.passkeys
      → Keeps (register_stored env fido user ceremony payload w o)
  register_stored-IsDistinct user ceremony payload w none d = d
  register_stored-IsDistinct user ceremony payload w (some (obj stored)) d =
      if_both Keeps (is_text user.id (get "user_id" stored)) _ _
        (registered-IsDistinct user ceremony w _ d) d
  register_stored-IsDistinct user ceremony payload w (some _) d = d

  register_as-IsDistinct :
      (body : Option Json) (w : World) (o : Option User)
      → IsDistinct w.passkeys
      → Keeps (register_as env fido body w o)
  register_as-IsDistinct body w none d = d
  register_as-IsDistinct none w (some user) d = d
  register_as-IsDistinct (some (obj body)) w (some user) d =
      register_stored-IsDistinct user (get "ceremony_id" body) (without "ceremony_id" body) w
        (load_ceremony "reg" (get "ceremony_id" body) w) d
  register_as-IsDistinct (some _) w (some user) d = d

  -- If the credential ids are distinct, they are after any registration and any assertion.
  pub passkeys-IsDistinct :
      (body : Option Json) (w : World)
      → IsDistinct w.passkeys
      → Keeps (passkey_register_complete env fido body w)
        × Keeps (passkey_authenticate_complete env fido body w)
  unfolding passkey_register_complete passkey_authenticate_complete
  passkeys-IsDistinct body w d = (register_as-IsDistinct body w (request_user w) d, asserted body)
    where
      asserted : (b : Option Json) → Keeps (passkey_authenticate_complete env fido b w)
      asserted none = d
      asserted (some (obj body)) = elim (passkey_authenticate_complete-Asserted env fido body w) [
        | inl same ↦ subst (λ (v : World). IsDistinct v.passkeys) (sym same) d
        | inr taken ↦ subst IsDistinct (sym taken.rows) (save_row-IsDistinct _ w.passkeys d)
      ]
      asserted (some _) = d
