-- ===== src/Tokens.antt =====
-- auth_bridge/tokens.py: the registries of dependents and revocations, and the claims of a dependent.
-- Tokens/Middleware has auth_bridge/middleware.py.
pub mod Middleware
pub mod Laws
pub mod Intercept
pub mod Examples
use Prim.Native.String.{◌++◌}
use text.Mathlib.Text.{starts_with}
use iyou_idp.Prelude.{
  ℕ, String, Bool, true, false, not, ◌&&◌, ◌||◌, Option, none, some, List, [], ◌∷◌, if◌then◌else◌,
  ◌==◌, find, any, member, is_some,
}
use iyou_idp.Prelude.Int.{ℤ, pos}
use iyou_idp.Text.{strip}
use iyou_idp.Json.{
  Json, null, bool, int, float, str, arr, obj, Items, nil, cons, Props, end, prop, get?, get,
  get_or, truthy, or, put, is_text,
}
use iyou_idp.Server.{Cache, put_key}
use iyou_idp.Crypto.{Crypto}
use iyou_idp.Credentials.{Readers}
use iyou_idp.Credentials.Validate.{
  Validated, Validation, valid, invalid, crashed, validate_age_bracket_vc,
}

-- An entry of _DEPENDENT_REGISTRY.
pub record Vector : Type 0 where
  pub child_did : String
  pub parent_did : String
  pub attestation_vc : Json
  pub bracket : String
  pub wot_distance : ℕ
  pub issued_at : Option ℤ
  pub expires_at : Option ℤ
  pub revoked : Bool

-- A row of IssuedCredential.
pub record IssuedCredential : Type 0 where
  pub subject_did : String
  pub issuer_did : String
  pub bracket : String
  pub wot_distance : ℕ
  pub raw_vc : Json
  pub issued_at : Option ℤ
  pub expires_at : Option ℤ
  pub revoked : Bool
  pub revoked_at : Option ℕ
  pub revocation_ticket : Option Json

-- The module's state: _DEPENDENT_REGISTRY, _REVOCATION_REGISTRY, the rows and the cache.
pub record Registry : Type 0 where
  pub dependents : String → Option Vector
  pub revocations : List String
  pub issued : List IssuedCredential
  pub cache : Cache

abbrev pub is_subject : (did : String) → IssuedCredential → Bool
is_subject did row = row.subject_did == did

-- objects.update_or_create(subject_did=..., defaults=...)
unfoldable pub update_or_create :
    IssuedCredential
    → (IssuedCredential → IssuedCredential)
    → List IssuedCredential
    → List IssuedCredential
update_or_create new change [] = new ∷ []
update_or_create new change (row ∷ rows) =
    if row.subject_did == new.subject_did
    then change row ∷ rows
    else row ∷ update_or_create new change rows

abbrev raw_or_loaded : Json → Option Json → Json
raw_or_loaded vc none = obj (prop "raw" vc end)
raw_or_loaded vc (some v) = v

unfoldable pub vc_payload : Readers → Json → Json
vc_payload readers (obj ps) = obj ps
vc_payload readers (arr vs) = arr vs
vc_payload readers (str s) =
    if starts_with (strip s) "{"
    then raw_or_loaded (str s) (readers.loads s)
    else obj (prop "raw" (str s) end)
vc_payload readers v = obj (prop "raw" v end)

module _ (readers : Readers) (now : ℕ) (db : Bool) where
  abbrev time_if : Bool → Option ℕ
  time_if true = some now
  time_if false = none

  abbrev row_of : Vector → IssuedCredential
  row_of v = record {
    subject_did = v.child_did;
    issuer_did = v.parent_did;
    bracket = v.bracket;
    wot_distance = v.wot_distance;
    raw_vc = vc_payload readers v.attestation_vc;
    issued_at = v.issued_at;
    expires_at = v.expires_at;
    revoked = v.revoked;
    revoked_at = time_if v.revoked;
    revocation_ticket = none;
  }

  -- The row keeps the ticket that it has.
  abbrev overwritten : Vector → IssuedCredential → IssuedCredential
  overwritten v row = record (row_of v) { revocation_ticket = row.revocation_ticket }

  -- register_dependent_vector; `db` is whether the database answers
  unfoldable pub register_dependent_vector : Vector → Registry → Registry
  register_dependent_vector v r = record r {
    dependents = λ did. if v.child_did == did then some v else r.dependents did;
    issued = if db then update_or_create (row_of v) (overwritten v) r.issued else r.issued;
  }

-- What record_revocation_ticket returns, or that it raises.
pub data Recorded : Type 0 where
  recorded : (did : String) → Recorded
  ignored : Recorded
  raised : Recorded

abbrev ticket_key : (did : String) → String
ticket_key did = "revocation_ticket:" ++ did

abbrev names_subject : Json → Bool
names_subject v = is_text "p" v || is_text "subject" v || is_text "did" v || is_text "child_did" v

abbrev revoked_vector : Option Vector → Option Vector
revoked_vector none = none
revoked_vector (some v) = some (record v { revoked = true })

module _ (readers : Readers) (str_of : Json → String) (now : ℕ) (db : Bool) where
  abbrev text_of : Json → String
  text_of (str s) = s
  text_of v = str_of v

  -- The DID of the first tag that names a subject.
  abbrev tag_target : Items → String
  tag_target nil = ""
  tag_target (cons (arr (cons name (cons value rest))) tags) =
      if names_subject name then strip (text_of value) else tag_target tags
  tag_target (cons _ tags) = tag_target tags

  -- `for tag in tags`, which raises where the value is no collection
  abbrev pub tags_target : Json → Option String
  tags_target (arr tags) = some (tag_target tags)
  tags_target (str s) = some ""
  tags_target (obj ps) = some ""
  tags_target _ = none

  abbrev named_in : Props → Json
  named_in ps = or (get "subject" ps) (or (get "did" ps) (get "child_did" ps))

  abbrev loaded_target : Option Json → Json
  loaded_target (some (obj ps)) = named_in ps
  loaded_target _ = null

  abbrev content_target : Json → Json
  content_target (obj ps) = named_in ps
  content_target (str s) =
      if starts_with (strip s) "{" then loaded_target (readers.loads s) else null
  content_target _ = null

  abbrev pub target_of : Props → (by_tag : String) → Json
  target_of ticket by_tag = or (str by_tag) (
      or (content_target (get "content" ticket))
        (or (get "subject" ticket) (get "child_did" ticket)))

  abbrev mark_row : Json → (did : String) → IssuedCredential → IssuedCredential
  mark_row ticket did row =
      if is_subject did row
      then record row { revoked = true; revoked_at = some now; revocation_ticket = some ticket }
      else row

  unfoldable pub mark_rows : Json → (did : String) → List IssuedCredential → List IssuedCredential
  mark_rows ticket did [] = []
  mark_rows ticket did (row ∷ rows) = mark_row ticket did row ∷ mark_rows ticket did rows

  abbrev pub revoke : Json → (did : String) → Registry → Registry
  revoke ticket did r = record {
    dependents = λ d. if did == d then revoked_vector (r.dependents d) else r.dependents d;
    revocations = did ∷ r.revocations;
    issued = if db then mark_rows ticket did r.issued else r.issued;
    cache = put_key (ticket_key did) ticket r.cache;
  }

  -- A list or an object cannot be put into the set; a number stands as its text.
  abbrev pub by_target : Json → Json → Registry → Registry × Recorded
  by_target ticket (arr vs) r = (r, raised)
  by_target ticket (obj ps) r = (r, raised)
  by_target ticket target r = (revoke ticket (text_of target) r, recorded (text_of target))

  abbrev pub unless_missing : Json → Json → Registry → Registry × Recorded
  unless_missing ticket target r = if truthy target then by_target ticket target r else (r, ignored)

  abbrev pub with_tags : Props → Option String → Registry → Registry × Recorded
  with_tags ticket none r = (r, raised)
  with_tags ticket (some by_tag) r = unless_missing (obj ticket) (target_of ticket by_tag) r

  abbrev pub record_loaded : Option Json → Registry → Registry × Recorded
  record_loaded (some (obj ticket)) r =
      with_tags ticket (tags_target (get_or (arr nil) "tags" ticket)) r
  record_loaded _ r = (r, ignored)

  -- record_revocation_ticket
  unfoldable pub record_revocation_ticket : Json → Registry → Registry × Recorded
  record_revocation_ticket (str s) r = record_loaded (readers.loads s) r
  record_revocation_ticket ticket r = record_loaded (some ticket) r

abbrev vector_revoked : Option Vector → Bool
vector_revoked none = false
vector_revoked (some v) = v.revoked

abbrev row_revoked : (did : String) → IssuedCredential → Bool
row_revoked did row = is_subject did row && row.revoked

-- A row, or an entry of the registry.
pub data Dependent : Type 0 where
  of_row : IssuedCredential → Dependent
  of_vector : Vector → Dependent

module _ (db : Bool) where
  unfoldable pub is_credential_revoked : (did : String) → Registry → Bool
  is_credential_revoked did r =
      if did == ""
      then false
      else member did r.revocations
        || is_some (r.cache (ticket_key did))
        || vector_revoked (r.dependents did)
        || (db && any (row_revoked did) r.issued)

  abbrev vector_or : Option Vector → Option IssuedCredential → Option Dependent
  vector_or none none = none
  vector_or (some v) none = some (of_vector v)
  vector_or o (some row) = some (of_row row)

  unfoldable pub get_dependent_vector_for_did : (did : String) → Registry → Option Dependent
  get_dependent_vector_for_did did r =
      if did == ""
      then none
      else vector_or (r.dependents did) (if db then find (is_subject did) r.issued else none)

  abbrev pub is_dependent_user : (did : String) → Registry → Bool
  is_dependent_user did r = is_some (get_dependent_vector_for_did did r)

  abbrev raw_of : Json → Json
  raw_of (obj ps) = if is_some (get? "raw" ps) then get "raw" ps else obj ps
  raw_of v = v

  abbrev pub held_vc : Option Dependent → Json
  held_vc none = null
  held_vc (some (of_row row)) = raw_of row.raw_vc
  held_vc (some (of_vector v)) = v.attestation_vc

  abbrev pub dependent_revoked : Option Dependent → Bool
  dependent_revoked none = false
  dependent_revoked (some (of_row row)) = row.revoked
  dependent_revoked (some (of_vector v)) = v.revoked

-- What inject_dependent_claims does (the session gets `dep` too): it gives the token back as it was, raises that the session is
-- revoked, refuses the credential by one of its three errors, fails, or adds the claims.
pub data Injection : Type 0 where
  untouched : Injection
  session_revoked : Injection
  refused : (message : String) → Injection
  failed : Injection
  injected : (id_token dep : Props) → Injection

module _ (c : Crypto) (readers : Readers) (now : ℕ) (db : Bool) (idp_base_url : String) where
  abbrev pub dep_claim : Validated → (attestation_vc : Json) → Props
  dep_claim v attestation_vc = prop "bracket" (str v.age_bracket) (
      prop "wot_distance" (int (pos 1)) (
        prop "parent_did" v.issuer (
          prop "attestation_vc" (or v.raw_payload attestation_vc) (
            prop "issued_at" (int v.issued_at)
              (prop "expires_at" (int v.expires_at) (prop "revoked" (bool false) end))))))

  abbrev pub with_issuer : Props → Props
  with_issuer id_token =
      if truthy (get "iss" id_token) then id_token else put "iss" (str idp_base_url) id_token

  abbrev pub with_dep : Props → (user_did : String) → Props → Props
  with_dep id_token user_did dep =
      put "dep" (obj dep) (with_issuer (put "sub" (str user_did) id_token))

  abbrev pub validated :
      Props → (user_did : String) → (attestation_vc : Json) → Validation → Injection
  validated id_token user_did vc (invalid message) = refused message
  validated id_token user_did vc crashed = failed
  validated id_token user_did vc (valid v) =
      injected (with_dep id_token user_did (dep_claim v vc)) (dep_claim v vc)

  abbrev pub inject_for :
      Props
      → (user_did : String) → (attestation_vc : Json) → Option Dependent
      → Registry
      → Injection
  inject_for id_token user_did vc held r =
      if not (truthy vc) && not (is_some held)
      then untouched
      else if is_credential_revoked db user_did r || dependent_revoked db held
      then session_revoked
      else validated id_token user_did vc (validate_age_bracket_vc c readers now vc)

  -- inject_dependent_claims; `attested` is the credential of the session, the form or the header
  unfoldable pub inject_dependent_claims :
      (id_token : Props) → (user_did : String) → (attested : Json) → Registry → Injection
  unfolding is_credential_revoked get_dependent_vector_for_did
  inject_dependent_claims id_token user_did attested r =
      let held = get_dependent_vector_for_did db user_did r in
      if user_did == ""
      then untouched
      else inject_for id_token user_did (or attested (held_vc db held)) held r
