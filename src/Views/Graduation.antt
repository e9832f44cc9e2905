-- ===== src/Views/Graduation.antt =====
-- auth_bridge/views_graduation.py: the export of a managed key and the promotion to sovereignty.
-- The signed receipt is checked against the key in the vault, which is shredded with the promotion.
pub mod Laws
pub mod Custody
pub mod Export
use Prim.Native.String.{◌++◌}
use iyou_idp.Prelude.{
  ℕ, zero, suc, ◌+◌, ◌-◌, ◌%◌, Char, String, Bool, true, false, not, ◌||◌, ◌&&◌, Option, none, some,
  List, [], ◌∷◌, length, eqb, ltb, if◌then◌else◌, ◌==◌,
}
use iyou_idp.Prelude.Int.{ℤ, pos, negsuc}
use iyou_idp.Text.{len, translate}
use iyou_idp.Codec.{hexlify, unhexlify, a2b_base64}
use iyou_idp.Crypto.{Crypto, Bytes}
use iyou_idp.Json.{Json, null, bool, int, float, str, obj, Props, get, is_text}
use iyou_idp.Json.Dumps.{dumps, canonical_ascii}
use iyou_idp.Server.{User, World, Env, Response, json}
use iyou_idp.Server.Users.{save, request_user}
use iyou_idp.Vault.{Vault, Reply, failed, missing, found, read_identity_key, delete_identity_key}

-- What the views call of `cryptography`: the private bytes of a PEM text (none where it does not
-- load, or is no Ed25519 key), the public key, and the sealing of a seed for a peer by X25519, HKDF
-- and AES-GCM: the server's ephemeral key, the nonce and the ciphertext (none where it raises).
pub record Keys : Type 0 where
  pub load_pem : String → Option Bytes
  pub public_key : Bytes → Bytes
  pub seal : (peer seed : Bytes) → (associated : String) → Option (Bytes × Bytes × Bytes)

abbrev pub graduation_error : (status : ℕ) → String → Response
graduation_error status error = json status (("error", str error) ∷ [])

-- raw.replace("-", "+").replace("_", "/")
abbrev to_standard : String → String
to_standard String.[] = ""
to_standard (String.◌∷◌ c s) = String.◌∷◌ (translate "-_" "+/" c) (to_standard s)

abbrev equals_signs : ℕ → String
equals_signs zero = ""
equals_signs (suc n) = "=" ++ equals_signs n

-- stripped + "=" * (-len(stripped) % 4)
abbrev padded : String → String
padded s = s ++ equals_signs ((4 - len s % 4) % 4)

abbrev or_base64 : String → Option Bytes → Option Bytes
or_base64 raw none = a2b_base64 (padded (to_standard raw))
or_base64 raw (some bytes) = some bytes

abbrev of_size : ℕ → Option Bytes → Option Bytes
of_size n none = none
of_size n (some bytes) = if eqb (length bytes) n then some bytes else none

-- _decode_material; none where it raises GraduationProtocolError
unfoldable pub decode_material : Json → (expected_size : ℕ) → Option Bytes
decode_material (str raw) n = of_size n (or_base64 raw (unhexlify raw))
decode_material _ n = none

-- How _load_vault_keypair ends; `loaded` holds the private bytes.
pub data Loaded : Type 0 where
  no_key : Loaded
  unavailable : Loaded
  loaded : (seed : Bytes) → Loaded

abbrev of_private : Option Bytes → Loaded
of_private none = unavailable
of_private (some seed) = loaded seed

abbrev pub of_reply : Keys → Reply → Loaded
of_reply keys failed = unavailable
of_reply keys missing = no_key
of_reply keys (found secret) = elim (get "private_key_pem" secret) [
  | str pem ↦ of_private (keys.load_pem pem)
  | _ ↦ no_key
]

-- |now - issued_at| > 600
abbrev pub too_far : (now : ℕ) → ℤ → Bool
too_far now (pos n) = ltb 600 ((now - n) + (n - now))
too_far now (negsuc n) = ltb 600 (now + suc n)

-- Whether the timestamp is refused, and how; a float counts by its integer part.
abbrev pub timestamp_error : (now : ℕ) → Json → Option String
timestamp_error now (int n) = if too_far now n then some "receipt_expired" else none
timestamp_error now (float repr n) = if too_far now n then some "receipt_expired" else none
timestamp_error now _ = some "receipt_timestamp_missing"

-- The checks of the receipt up to its signature; none where all pass.
abbrev pub receipt_error : User → (now : ℕ) → Props → Option String
receipt_error user now receipt =
    if not (is_text user.custodial_did (get "did" receipt))
    then some "receipt_did_mismatch"
    else if not (is_text "graduate" (get "action" receipt))
    then some "receipt_action_invalid"
    else timestamp_error now (get "issued_at" receipt)

abbrev pub promoted : User → User
promoted user = record user { is_sovereign = true; account_tier = "sovereign" }

-- The database in transaction.atomic(): the save raises, or it is done and the COMMIT is taken or not.
pub data Saving : Type 0 where
  save_raises : Saving
  saves : (commits : Bool) → Saving

module _ (V : Vault) (c : Crypto) (keys : Keys) (env : Env) where
  -- _load_vault_keypair
  unfoldable pub load_vault_keypair : (custodial_did : String) → V.Store → Loaded
  load_vault_keypair custodial_did s = of_reply keys (read_identity_key V custodial_did s)

  abbrev pub sealed : Option (Bytes × Bytes × Bytes) → Response
  sealed none = json 500 []
  sealed (some (ephemeral, nonce, ciphertext)) = json 200 (
      ("server_ephemeral_pub", str (hexlify ephemeral))
      ∷ ("nonce", str (hexlify nonce))
      ∷ ("ciphertext", str (hexlify ciphertext))
      ∷ [])

  abbrev pub export_key : User → (peer : Bytes) → Loaded → Response
  export_key user peer no_key = graduation_error 404 "managed_key_not_found"
  export_key user peer unavailable = graduation_error 502 "vault_unavailable"
  export_key user peer (loaded seed) = sealed (keys.seal peer seed user.custodial_did)

  abbrev pub export_material : User → V.Store → Option Bytes → Response
  export_material user s none = graduation_error 400 "malformed_key_material"
  export_material user s (some peer) =
      export_key user peer (load_vault_keypair user.custodial_did s)

  abbrev pub export_payload : User → V.Store → Option Json → Response
  export_payload user s none = graduation_error 400 "malformed_json"
  export_payload user s (some (obj payload)) =
      export_material user s (decode_material (get "ephemeral_pubkey" payload) 32)
  export_payload user s (some _) = json 500 []

  abbrev pub export_user : V.Store → Option Json → Option User → Response
  export_user s body none = graduation_error 401 "authentication_required"
  export_user s body (some user) =
      if user.is_sovereign
      then graduation_error 400 "already_sovereign"
      else export_payload user s body

  -- graduate_export writes nothing: it is the response alone.
  unfoldable pub graduate_export : Option Json → World → V.Store → Response
  unfolding load_vault_keypair decode_material
  graduate_export body w s = export_user s body (request_user w)

  -- _canonical_receipt_bytes
  abbrev pub canonical_receipt_bytes : Props → Bytes
  canonical_receipt_bytes receipt = c.encode_utf8 (dumps canonical_ascii (obj receipt))

module _ (V : Vault) (c : Crypto) (keys : Keys) (env : Env) (db : Saving) where
  abbrev pub Outcome : Type 0
  Outcome = (World × Response) × V.Store

  abbrev refused : World → V.Store → ℕ → String → Outcome
  refused w s status error = ((w, graduation_error status error), s)

  -- The transaction: where the save, the vault or the COMMIT raises, the promotion is rolled back.
  -- The deletion is outside the database, and is not undone.
  abbrev pub commit : User → World → V.Store → Saving → Outcome
  commit user w s save_raises = refused w s 502 "vault_shred_failed"
  commit user w s (saves commits) =
      let (s', done) = delete_identity_key V user.custodial_did s in
      if done && commits
      then (
        (
          record w { users = save (promoted user) w.users },
          json 200 (
              ("status", str "graduated")
              ∷ ("did", str user.custodial_did)
              ∷ ("is_sovereign", bool true)
              ∷ []),
        ),
        s',
      )
      else refused w s' 502 "vault_shred_failed"

  abbrev pub confirm_key : User → Props → (signature : Bytes) → World → V.Store → Loaded → Outcome
  confirm_key user receipt signature w s no_key = refused w s 404 "managed_key_not_found"
  confirm_key user receipt signature w s unavailable = refused w s 502 "vault_unavailable"
  confirm_key user receipt signature w s (loaded seed) =
      if c.ed25519_verify (keys.public_key seed) signature
        (canonical_receipt_bytes V c keys env receipt)
      then commit user w s db
      else refused w s 400 "invalid_receipt_signature"

  abbrev pub confirm_signature : User → Props → World → V.Store → Option Bytes → Outcome
  confirm_signature user receipt w s none = refused w s 400 "malformed_key_material"
  confirm_signature user receipt w s (some signature) =
      confirm_key user receipt signature w s (load_vault_keypair V c keys env user.custodial_did s)

  abbrev pub confirm_checked : User → Props → String → World → V.Store → Option String → Outcome
  confirm_checked user receipt signature w s (some error) = refused w s 400 error
  confirm_checked user receipt signature w s none =
      confirm_signature user receipt w s (decode_material (str signature) 64)

  abbrev pub confirm_receipt : User → Json → Json → World → V.Store → Outcome
  confirm_receipt user (obj receipt) (str signature) w s =
      confirm_checked user receipt signature w s (receipt_error user env.now receipt)
  confirm_receipt user _ _ w s = refused w s 400 "malformed_payload"

  abbrev pub confirm_payload : User → Option Json → World → V.Store → Outcome
  confirm_payload user none w s = refused w s 400 "malformed_json"
  confirm_payload user (some (obj payload)) w s =
      confirm_receipt user (get "receipt" payload) (get "signature" payload) w s
  confirm_payload user (some _) w s = ((w, json 500 []), s)

  abbrev pub confirm_user : Option Json → World → V.Store → Option User → Outcome
  confirm_user body w s none = refused w s 401 "authentication_required"
  confirm_user body w s (some user) =
      if user.is_sovereign
      then refused w s 400 "already_sovereign"
      else confirm_payload user body w s

  unfoldable pub graduate_confirm : Option Json → World → V.Store → Outcome
  unfolding load_vault_keypair decode_material
  graduate_confirm body w s = confirm_user body w s (request_user w)
