-- ===== src/Views/Locker/Rows.antt =====
-- auth_bridge/views_email_locker.py: ListLinkedEmailsView, RemoveLinkedEmailView and
-- ExportEmailCredentialView, and a request to any view of the file that can change state.
use iyou_idp.Prelude.{
  String, Bool, true, false, Option, none, some, List, [], ◌∷◌, find, member, leb, if◌then◌else◌,
  ◌==◌,
}
use iyou_idp.Text.{strip, lower}
use iyou_idp.Json.{Json, null, bool, str, arr, obj, Items, nil, cons, end, prop, get?, truthy}
use iyou_idp.Server.{User, LinkedEmail, World, Env, Session, Response, json}
use iyou_idp.Server.Users.{request_user}
use iyou_idp.Views.Challenge.Presentation.{name_in}
use iyou_idp.Views.Locker.{
  Signer, locker_error, described, authentication_required, uncaught, valid_labels, is_own,
  change_first, remove_first, issue_email_ownership_credential, challenge_link_email,
  verify_link_email,
}

abbrev not_found : (description : String) → Response
not_found description = described 404 "not_found" description

abbrev email_json : Option String → Json
email_json none = null
email_json (some email) = str email

abbrev pub filter_rows : (LinkedEmail → Bool) → List LinkedEmail → List LinkedEmail
filter_rows p [] = []
filter_rows p (r ∷ rows) = if p r then r ∷ filter_rows p rows else filter_rows p rows

-- order_by("-verified_at"), the rows of one time as they stand
abbrev insert_row : LinkedEmail → List LinkedEmail → List LinkedEmail
insert_row r [] = r ∷ []
insert_row r (s ∷ rows) =
    if leb s.verified_at r.verified_at then r ∷ s ∷ rows else s ∷ insert_row r rows

unfoldable pub latest_first : List LinkedEmail → List LinkedEmail
latest_first [] = []
latest_first (r ∷ rows) = insert_row r (latest_first rows)

abbrev pub owned_by : (id : String) → LinkedEmail → Bool
owned_by id row = row.user_id == id

abbrev pub changed : (id : String) → User → LinkedEmail → World → World
changed id user row w = record w {
  linked_emails = change_first (is_own id user) (λ _. row) w.linked_emails;
}

abbrev patched : LinkedEmail → Response
patched row = json 200 (
    ("success", bool true)
    ∷ ("id", str row.id)
    ∷ ("email", str row.email)
    ∷ ("label", str row.label)
    ∷ ("is_public", bool row.is_public)
    ∷ [])

-- `"is_public" in data`
abbrev pub with_visibility : Option Json → LinkedEmail → LinkedEmail
with_visibility none row = row
with_visibility (some v) row = record row { is_public = truthy v }

-- `data["label"] in VALID_LABELS`; `none` where the value cannot be hashed
abbrev pub with_label : Option Json → LinkedEmail → Option LinkedEmail
with_label none row = some row
with_label (some (str s)) row =
    some (if member s valid_labels then record row { label = s } else row)
with_label (some (arr _)) row = none
with_label (some (obj _)) row = none
with_label (some _) row = some row

abbrev pub patch_label : (id : String) → User → World → Option LinkedEmail → World × Response
patch_label id user w none = (w, uncaught)
patch_label id user w (some row) = (changed id user row w, patched row)

-- A body that is no object: `in` may fail, and so does the subscript after it.
abbrev pub patch_other : LinkedEmail → (visibility label : Option Bool) → Response
patch_other row (some false) (some false) = patched row
patch_other row _ _ = uncaught

abbrev pub patch_fields : (id : String) → User → LinkedEmail → World → Json → World × Response
patch_fields id user row w (obj body) =
    let shown = with_visibility (get? "is_public" body) row in
    patch_label id user (changed id user shown w) (with_label (get? "label" body) shown)
patch_fields id user row w v = (w, patch_other row (name_in "is_public" v) (name_in "label" v))

abbrev pub patch_row :
    (id : String) → User → Option Json → World → Option LinkedEmail → World × Response
patch_row id user body w none = (w, not_found "Linked email not found.")
patch_row id user none w (some row) = (w, locker_error 400 "invalid_payload")
patch_row id user (some v) w (some row) = patch_fields id user row w v

abbrev pub patch_user : (id : String) → Option Json → World → Option User → World × Response
patch_user id body w none = (w, authentication_required)
patch_user id body w (some user) = patch_row id user body w (find (is_own id user) w.linked_emails)

-- RemoveLinkedEmailView.patch, which post calls too
unfoldable pub patch_linked_email : (id : String) → Option Json → World → World × Response
patch_linked_email id body w = patch_user id body w (request_user w)

abbrev pub remove_row : (id : String) → User → World → Option LinkedEmail → World × Response
remove_row id user w none = (w, not_found "Linked email not found.")
remove_row id user w (some row) = (
  record w { linked_emails = remove_first (is_own id user) w.linked_emails },
  json 200 (("success", bool true) ∷ ("message", str "Linked email removed.") ∷ []),
)

abbrev pub remove_user : (id : String) → World → Option User → World × Response
remove_user id w none = (w, authentication_required)
remove_user id w (some user) = remove_row id user w (find (is_own id user) w.linked_emails)

-- RemoveLinkedEmailView.delete
unfoldable pub remove_linked_email : (id : String) → World → World × Response
remove_linked_email id w = remove_user id w (request_user w)

module _ (env : Env) (signer : Signer) where
  abbrev row_json : LinkedEmail → Json
  row_json row = obj (
      prop "id" (str row.id) (
        prop "email" (str row.email) (
          prop "label" (str row.label) (
            prop "verified_at" (str (signer.isoformat row.verified_at))
              (prop "is_public" (bool row.is_public) end)))))

  abbrev rows_json : List LinkedEmail → Items
  rows_json [] = nil
  rows_json (r ∷ rows) = cons (row_json r) (rows_json rows)

  abbrev list_user : World → Option User → Response
  list_user w none = authentication_required
  list_user w (some user) = json 200 (
      ("success", bool true)
      ∷ ("primary_email", email_json user.email)
      ∷ (
        "linked_emails",
        arr (rows_json (latest_first (filter_rows (owned_by user.id) w.linked_emails))),
      )
      ∷ [])

  -- ListLinkedEmailsView.get
  unfoldable pub list_linked_emails : World → Response
  unfolding latest_first
  list_linked_emails w = list_user w (request_user w)

  abbrev show_row : User → Option LinkedEmail → Response
  show_row user none = not_found "Linked email not found."
  show_row user (some row) = json 200 (
      ("success", bool true)
      ∷ ("id", str row.id)
      ∷ ("email", str row.email)
      ∷ ("label", str row.label)
      ∷ ("verified_at", str (signer.isoformat row.verified_at))
      ∷ ("is_public", bool row.is_public)
      ∷ ("vc", issue_email_ownership_credential env signer user (str row.email) row.label)
      ∷ [])

  abbrev show_user : (id : String) → World → Option User → Response
  show_user id w none = authentication_required
  show_user id w (some user) = show_row user (find (is_own id user) w.linked_emails)

  -- RemoveLinkedEmailView.get
  unfoldable pub show_linked_email : (id : String) → World → Response
  unfolding issue_email_ownership_credential
  show_linked_email id w = show_user id w (request_user w)

  abbrev exported : User → (email : Json) → (label : String) → Response
  exported user email label = json 200 (
      ("success", bool true)
      ∷ ("email", email)
      ∷ ("label", str label)
      ∷ ("vc", issue_email_ownership_credential env signer user email label)
      ∷ [])

  abbrev is_own_address : (email : String) → User → LinkedEmail → Bool
  is_own_address email user row = if row.email == email then row.user_id == user.id else false

  abbrev export_row : User → (email : String) → Option LinkedEmail → Response
  export_row user email none = not_found "Email not linked to account."
  export_row user email (some row) = exported user (str email) row.label

  -- `request.user.email.lower()` fails for a user without an address.
  abbrev export_named : User → (email : String) → World → (primary : Option String) → Response
  export_named user email w none = uncaught
  export_named user email w (some primary) =
      if email == lower primary
      then exported user (str primary) "primary"
      else export_row user email (find (is_own_address email user) w.linked_emails)

  abbrev export_email : User → (email : Option String) → World → Response
  export_email user none w = exported user (email_json user.email) "primary"
  export_email user (some raw) w =
      if raw == ""
      then exported user (email_json user.email) "primary"
      else export_named user (lower (strip raw)) w user.email

  abbrev export_user : (email : Option String) → World → Option User → Response
  export_user email w none = authentication_required
  export_user email w (some user) = export_email user email w

  -- ExportEmailCredentialView.get
  unfoldable pub export_email_credential : (email : Option String) → World → Response
  unfolding issue_email_ownership_credential
  export_email_credential email w = export_user email w (request_user w)

-- A request to a view that can change state.
pub data Request : Type 0 where
  challenge : Option Json → Request
  verify : Option Json → Request
  patch : (id : String) → Option Json → Request
  remove : (id : String) → Request

module _ (signer : Signer) where
  abbrev pub serve : Env → Request → World → World × Response
  serve env (challenge body) w = challenge_link_email env signer body w
  serve env (verify body) w = verify_link_email env signer body w
  serve env (patch id body) w = patch_linked_email id body w
  serve env (remove id) w = remove_linked_email id w

  -- Requests in the order they come, each with its session, time and fresh values.
  unfoldable pub serve_all : List (Env × Session × Request) → World → World
  serve_all [] w = w
  serve_all ((env, session, r) ∷ rs) w =
      serve_all rs (serve env r (record w { session = session })).0
