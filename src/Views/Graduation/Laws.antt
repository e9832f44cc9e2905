-- ===== src/Views/Graduation/Laws.antt =====
-- What a graduation has to show.
use iyou_idp.Prelude.{
  ℕ, ◌+◌, ◌≤◌, suc, String, ◌≡◌, ◌∙◌, ap, refl, ◌⊎◌, inl, inr, Bool, true, false, ◌&&◌, Option,
  none, some, All, ◌<◌, length, if_split, arith, and_true,
}
use iyou_idp.Prelude.Int.{ℤ, pos, negsuc}
use iyou_idp.Codec.{hexlify}
use iyou_idp.Codec.Laws.{unhexlify-hexlify}
use iyou_idp.Crypto.{Crypto, Bytes}
use iyou_idp.Json.{Json, int, float, str, obj, Props, get, is_text}
use iyou_idp.Json.Fields.{is_text-eq}
use iyou_idp.Server.{User, World, Env, Response}
use iyou_idp.Server.Users.{save, request_user}
use iyou_idp.Vault.{Vault, delete_identity_key}
use iyou_idp.Views.Graduation.{
  Keys, Loaded, loaded, no_key, unavailable, decode_material, load_vault_keypair, receipt_error,
  too_far, timestamp_error, graduation_error, Saving, save_raises, saves, commit,
  canonical_receipt_bytes, Outcome, confirm_key, confirm_signature, confirm_checked,
  confirm_receipt, confirm_payload, confirm_user, graduate_confirm,
}

-- Key material that was written as hexadecimal text is read back, whatever its size.
pub decode_material-hexlify :
    (bytes : Bytes)
    → All (λ b. b < 256) bytes
    → decode_material (str (hexlify bytes)) (length bytes) ≡ some bytes
unfolding decode_material
decode_material-hexlify bytes h = rw (unhexlify-hexlify bytes h) (ground arith)

-- Within ten minutes of now, on either side.
abbrev pub IsNear : (now : ℕ) → ℤ → Type 0
IsNear now (pos n) = (now ≤ n + 600) × (n ≤ now + 600)
IsNear now (negsuc n) = now + suc n ≤ 600

-- What a receipt says: this DID, this action, and a time near now, whole or with a fraction.
pub record Claims (did : String) (now : ℕ) (receipt : Props) : Type 0 where
  pub of_did : get "did" receipt ≡ str did
  pub of_action : get "action" receipt ≡ str "graduate"
  pub time : ℤ
  pub stamped :
      (get "issued_at" receipt ≡ int time)
      ⊎ ((repr : String) × (get "issued_at" receipt ≡ float repr time))
  pub near : IsNear now time

near_lem : (now : ℕ) (z : ℤ) → too_far now z ≡ false → IsNear now z
near_lem now (pos n) h = (ground arith, ground arith)
near_lem now (negsuc n) h = ground arith

timestamp_error-none :
    (now : ℕ) (v : Json)
    → timestamp_error now v ≡ none
    → (z : ℤ) × ((v ≡ int z) ⊎ ((repr : String) × (v ≡ float repr z))) × IsNear now z
timestamp_error-none now (int z) h = (z, inl refl, near_lem now z (ground arith))
timestamp_error-none now (float repr z) h = (z, inr (repr, refl), near_lem now z (ground arith))
timestamp_error-none now v h = absurd (cc (h))

receipt_error-none :
    (user : User) (now : ℕ) (receipt : Props)
    → receipt_error user now receipt ≡ none
    → Claims user.custodial_did now receipt
receipt_error-none user now receipt h =
    let own : is_text user.custodial_did (get "did" receipt) ≡ true = ground (arith, h) in
    let acts : is_text "graduate" (get "action" receipt) ≡ true = ground (arith, h) in
    let timely : timestamp_error now (get "issued_at" receipt) ≡ none = ground (arith, h) in
    let (z, stamped, near) = timestamp_error-none now (get "issued_at" receipt) timely in
    record {
      of_did = is_text-eq (get "did" receipt) user.custodial_did own;
      of_action = is_text-eq (get "action" receipt) "graduate" acts;
      time = z;
      stamped = stamped;
      near = near;
    }

-- A managed user in session sent a receipt that the key in the vault signed.
pub record Authorised (V : Vault) (c : Crypto) (keys : Keys) (env : Env) (body : Option Json)
    (w : World) (s : V.Store) : Type 0 where
  pub user : User
  pub payload : Props
  pub receipt : Props
  pub signature_text : String
  pub signature : Bytes
  pub seed : Bytes
  pub authenticated : request_user w ≡ some user
  pub managed : user.is_sovereign ≡ false
  pub sent : body ≡ some (obj payload)
  pub receipt_sent : get "receipt" payload ≡ obj receipt
  pub signature_sent : get "signature" payload ≡ str signature_text
  pub claims : Claims user.custodial_did env.now receipt
  pub decoded : decode_material (str signature_text) 64 ≡ some signature
  pub held : load_vault_keypair V c keys env user.custodial_did s ≡ loaded seed
  pub signed :
      c.ed25519_verify
        (keys.public_key seed)
        signature
        (canonical_receipt_bytes V c keys env receipt)
      ≡ true

abbrev pub shred_failed : Response
shred_failed = graduation_error 502 "vault_shred_failed"

module _ (V : Vault) (c : Crypto) (keys : Keys) (env : Env) (db : Saving) (body : Option Json)
    (w : World) (s : V.Store) where
  -- A promotion: what the vault and the database did, and what changed.
  pub record Graduated (r : Outcome V c keys env db) : Type 0 where
    pub by : Authorised V c keys env body w s
    pub deleted : (delete_identity_key V by.user.custodial_did s).1 ≡ true
    pub committed : db ≡ saves true
    pub shredded : r.1 ≡ (delete_identity_key V by.user.custodial_did s).0
    pub only_promoted : r.0.0 ≡ record w {
      users = save (record by.user { is_sovereign = true; account_tier = "sovereign" }) w.users;
    }

  -- A failure after the vault was asked to delete: the tables stay, the vault is as it was left.
  pub record Aborted (r : Outcome V c keys env db) : Type 0 where
    pub by : Authorised V c keys env body w s
    pub cause : ((delete_identity_key V by.user.custodial_did s).1 ≡ false) ⊎ (db ≡ saves false)
    pub left : r.1 ≡ (delete_identity_key V by.user.custodial_did s).0
    pub rolled_back : r.0.0 ≡ w
    pub answered : r.0.1 ≡ shred_failed

  abbrev pub Graduates : Outcome V c keys env db → Type 0
  Graduates r = ((r.0.0 ≡ w) × (r.1 ≡ s)) ⊎ (Graduated r ⊎ Aborted r)

  commit-Graduates :
      (by : Authorised V c keys env body w s) (o : Saving)
      → db ≡ o
      → Graduates (commit V c keys env db by.user w s o)
  commit-Graduates by save_raises e = inl (refl, refl)
  commit-Graduates by (saves commits) e =
      if_split Graduates ((delete_identity_key V by.user.custodial_did s).1 && commits) _ _
        (λ h. inr (
          inl (record {
            by = by;
            deleted = (and_true h).0;
            committed = e ∙ ap saves (and_true h).1;
            shredded = refl;
            only_promoted = refl;
          })))
        (λ h. inr (
          inr (record {
            by = by;
            cause = failure _ commits h e;
            left = refl;
            rolled_back = refl;
            answered = refl;
          })))
    where
      failure :
          (done commits : Bool)
          → (done && commits) ≡ false
          → db ≡ saves commits
          → (done ≡ false) ⊎ (db ≡ saves false)
      failure false commits h e = inl refl
      failure true false h e = inr e
      failure true true h e = absurd (cc (h))

  module _ (user : User) (payload receipt : Props) (text : String)
      (authenticated : request_user w ≡ some user) (managed : user.is_sovereign ≡ false)
      (sent : body ≡ some (obj payload)) (receipt_sent : get "receipt" payload ≡ obj receipt)
      (signature_sent : get "signature" payload ≡ str text)
      (claims : Claims user.custodial_did env.now receipt) where
    confirm_key-Graduates :
        (signature : Bytes) (l : Loaded)
        → decode_material (str text) 64 ≡ some signature
        → load_vault_keypair V c keys env user.custodial_did s ≡ l
        → Graduates (confirm_key V c keys env db user receipt signature w s l)
    confirm_key-Graduates signature no_key d e = inl (refl, refl)
    confirm_key-Graduates signature unavailable d e = inl (refl, refl)
    confirm_key-Graduates signature (loaded seed) d e =
        if_split Graduates
          (c.ed25519_verify (keys.public_key seed) signature
            (canonical_receipt_bytes V c keys env receipt))
          _ _
          (λ signed.
            commit-Graduates
              (record {
                user = user;
                payload = payload;
                receipt = receipt;
                signature_text = text;
                signature = signature;
                seed = seed;
                authenticated = authenticated;
                managed = managed;
                sent = sent;
                receipt_sent = receipt_sent;
                signature_sent = signature_sent;
                claims = claims;
                decoded = d;
                held = e;
                signed = signed;
              })
              db refl)
          (λ _. inl (refl, refl))

    confirm_signature-Graduates :
        (o : Option Bytes)
        → decode_material (str text) 64 ≡ o
        → Graduates (confirm_signature V c keys env db user receipt w s o)
    confirm_signature-Graduates none d = inl (refl, refl)
    confirm_signature-Graduates (some signature) d = confirm_key-Graduates signature _ d refl

  module _ (user : User) (authenticated : request_user w ≡ some user)
      (managed : user.is_sovereign ≡ false) (payload : Props)
      (sent : body ≡ some (obj payload)) where
    confirm_checked-Graduates :
        (receipt : Props) (text : String) (o : Option String)
        → get "receipt" payload ≡ obj receipt
        → get "signature" payload ≡ str text
        → receipt_error user env.now receipt ≡ o
        → Graduates (confirm_checked V c keys env db user receipt text w s o)
    confirm_checked-Graduates receipt text (some error) r t e = inl (refl, refl)
    confirm_checked-Graduates receipt text none r t e =
        confirm_signature-Graduates user payload receipt text authenticated managed sent r t
          (receipt_error-none user env.now receipt e) _ refl

    confirm_receipt-Graduates :
        (receipt signature : Json)
        → get "receipt" payload ≡ receipt
        → get "signature" payload ≡ signature
        → Graduates (confirm_receipt V c keys env db user receipt signature w s)
    confirm_receipt-Graduates (obj receipt) (str text) r t =
        confirm_checked-Graduates receipt text _ r t refl
    confirm_receipt-Graduates receipt signature r t = inl (refl, refl)

  confirm_payload-Graduates :
      (user : User) (o : Option Json)
      → request_user w ≡ some user
      → user.is_sovereign ≡ false
      → body ≡ o
      → Graduates (confirm_payload V c keys env db user o w s)
  confirm_payload-Graduates user none a m e = inl (refl, refl)
  confirm_payload-Graduates user (some (obj payload)) a m e =
      confirm_receipt-Graduates user a m payload e _ _ refl refl
  confirm_payload-Graduates user (some _) a m e = inl (refl, refl)

  confirm_user-Graduates :
      (o : Option User) → request_user w ≡ o → Graduates (confirm_user V c keys env db body w s o)
  confirm_user-Graduates none e = inl (refl, refl)
  confirm_user-Graduates (some user) e =
      if_split Graduates user.is_sovereign _ _ (λ _. inl (refl, refl))
        (λ managed. confirm_payload-Graduates user body e managed refl)

  pub graduate_confirm-Graduated : Graduates (graduate_confirm V c keys env db body w s)
  unfolding graduate_confirm
  graduate_confirm-Graduated = confirm_user-Graduates _ refl
