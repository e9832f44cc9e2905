-- ===== src/Views/Locker/Laws.antt =====
-- What a verification of a further address has been shown, and what it leaves.
use iyou_idp.Prelude.{
  String, ◌≡◌, refl, ◌⊎◌, inl, inr, Bool, true, false, ◌||◌, Option, none, some, [], ◌∷◌, ◌++◌,
  ◌==◌, eq_iff, find, if_both, if_split,
}
use iyou_idp.Json.{Json, null, bool, int, float, str, arr, obj, Props, get, get_or}
use iyou_idp.Server.{User, LinkedEmail, World, Env, Response, delete_key}
use iyou_idp.Server.Users.{request_user}
use iyou_idp.Views.Email.{digits, otp_text, compare_digest}
use iyou_idp.Views.Locker.{
  Signer, link_key, claimed, linked, has_address, add_link, finish_link, spent_link, matched_link,
  entry_link, verify_fields, verify_user, verify_link_email, email_field, text_of_json,
}

module _ (env : Env) (signer : Signer) where
  -- The rows after a verification of an address: as they were, or with a row of the user for an
  -- address that nobody had.
  abbrev pub RowsAfter : User → (address : String) → World → World → Type 0
  RowsAfter user address w w' =
      (w'.linked_emails ≡ w.linked_emails)
      ⊎ ((claimed address w ≡ false)
          × ((label : String) × (w'.linked_emails
                ≡ w.linked_emails ++ linked env signer user address label ∷ [])))

  -- A code of the signed-in user for an address, that was shown and is gone.
  pub record UsedLink (body : Option Json) (w w' : World) : Type 0 where
    pub user : User
    pub authenticated : request_user w ≡ some user
    pub fields : Props
    pub asked : body ≡ some (obj fields)
    pub cached : Props
    pub live : w.cache (link_key (email_field env signer (get "email" fields))) ≡ some (obj cached)
    pub whose : text_of_json (get_or (str "") "user_id" cached) ≡ user.id
    pub shown :
        compare_digest
          (digits (otp_text (get_or (str "") "otp" fields)))
          (str (text_of_json (get_or (str "") "otp" cached)))
        ≡ some true
    pub rows : RowsAfter user (email_field env signer (get "email" fields)) w w'
    pub only_rows : w' ≡ record w {
      linked_emails = w'.linked_emails;
      cache = delete_key (link_key (email_field env signer (get "email" fields))) w.cache;
    }

  -- What finish_link leaves of a world whose code is spent already.
  abbrev Finished : User → String → World → World × Response → Type 0
  Finished user address w r =
      RowsAfter user address w r.0 × (r.0 ≡ record w { linked_emails = r.0.linked_emails })

  add_link-Finished :
      (user : User) (address label : String) (w : World) (o : Option LinkedEmail)
      → claimed address w ≡ false
      → Finished user address w (add_link env signer user address label w o)
  add_link-Finished user address label w none free = (inr (free, (label, refl)), refl)
  add_link-Finished user address label w (some row) free =
      if_both (Finished user address w) (row.user_id == user.id) _ _ (inl refl, refl)
        (inl refl, refl)

  finish_link-Finished :
      (user : User) (address label : String) (w : World)
      → Finished user address w (finish_link env signer user address label w)
  finish_link-Finished user address label w =
      if_split (Finished user address w) (claimed address w) _ _ (λ e. (inl refl, refl))
        (λ e. add_link-Finished user address label w (find (has_address address) w.linked_emails) e)

  abbrev Uses : Option Json → World → World × Response → Type 0
  Uses body w r = (r.0 ≡ w) ⊎ UsedLink body w r.0

  module _ (w : World) (user : User) (authenticated : request_user w ≡ some user)
      (fields : Props) where
    abbrev address : String
    address = email_field env signer (get "email" fields)

    abbrev otp : String
    otp = digits (otp_text (get_or (str "") "otp" fields))

    matched_link-Uses :
        (cached : Props) (o : Option Bool)
        → w.cache (link_key address) ≡ some (obj cached)
        → text_of_json (get_or (str "") "user_id" cached) ≡ user.id
        → compare_digest otp (str (text_of_json (get_or (str "") "otp" cached))) ≡ o
        → Uses (some (obj fields)) w (matched_link env signer user address cached w o)
    matched_link-Uses cached none live whose shown = inl refl
    matched_link-Uses cached (some false) live whose shown = inl refl
    matched_link-Uses cached (some true) live whose shown =
        let label = text_of_json (get_or (str "personal") "label" cached) in
        let done = finish_link-Finished user address label (spent_link env signer address w) in
        inr (record {
          user = user;
          authenticated = authenticated;
          fields = fields;
          asked = refl;
          cached = cached;
          live = live;
          whose = whose;
          shown = shown;
          rows = done.0;
          only_rows = done.1;
        })

    entry_link-Uses :
        (o : Option Json)
        → w.cache (link_key address) ≡ o
        → Uses (some (obj fields)) w (entry_link env signer user address otp w o)
    entry_link-Uses none live = inl refl
    entry_link-Uses (some (obj cached)) live =
        if_split (Uses (some (obj fields)) w)
          (text_of_json (get_or (str "") "user_id" cached) == user.id) _ _
          (λ e. matched_link-Uses cached _ live ((eq_iff _ _).0 e) refl) (λ e. inl refl)
    entry_link-Uses (some null) live = inl refl
    entry_link-Uses (some (bool b)) live = inl refl
    entry_link-Uses (some (int n)) live = inl refl
    entry_link-Uses (some (float r n)) live = inl refl
    entry_link-Uses (some (str s)) live = inl refl
    entry_link-Uses (some (arr vs)) live = inl refl

    verify_fields-Uses : Uses (some (obj fields)) w (verify_fields env signer user address otp w)
    verify_fields-Uses =
        if_both (Uses (some (obj fields)) w) (address == "" || otp == "") _ _ (inl refl)
          (entry_link-Uses _ refl)

  verify_user-Uses :
      (body : Option Json) (w : World) (o : Option User)
      → request_user w ≡ o
      → Uses body w (verify_user env signer body w o)
  verify_user-Uses body w none e = inl refl
  verify_user-Uses none w (some user) e = inl refl
  verify_user-Uses (some (obj fields)) w (some user) e = verify_fields-Uses w user e fields
  verify_user-Uses (some null) w (some user) e = inl refl
  verify_user-Uses (some (bool b)) w (some user) e = inl refl
  verify_user-Uses (some (int n)) w (some user) e = inl refl
  verify_user-Uses (some (float r n)) w (some user) e = inl refl
  verify_user-Uses (some (str s)) w (some user) e = inl refl
  verify_user-Uses (some (arr vs)) w (some user) e = inl refl

  -- A verification of a further address changes nothing, or it was shown the live code that the
  -- signed-in user was sent for the address: that code is gone, and the rows are as they were, or
  -- have a row of this user for an address that no user and no row had. Nothing else changes.
  pub verify_link_email-Uses :
      (body : Option Json) (w : World) → Uses body w (verify_link_email env signer body w)
  unfolding verify_link_email
  verify_link_email-Uses body w = verify_user-Uses body w (request_user w) refl
