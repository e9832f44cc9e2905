-- ===== src/Views/Graduation/Export.antt =====
-- Who a key is exported for.
use iyou_idp.Prelude.{
  ℕ, String, ◌≡◌, ◌≢◌, refl, ◌⊎◌, inl, inr, false, Option, none, some, List, [], ◌∷◌, if_split,
  arith,
}
use iyou_idp.Codec.{hexlify}
use iyou_idp.Crypto.{Crypto, Bytes}
use iyou_idp.Json.{Json, str, obj, Props, get}
use iyou_idp.Server.{User, World, Env, Response, json}
use iyou_idp.Server.Users.{request_user}
use iyou_idp.Vault.{Vault}
use iyou_idp.Views.Graduation.{
  Keys, Loaded, loaded, no_key, unavailable, decode_material, load_vault_keypair, sealed,
  export_key, export_material, export_payload, export_user, graduate_export, graduation_error,
}

-- A refusal, by its status.
abbrev pub IsRefusal : Response → Type 0
IsRefusal r = (status : ℕ) × (body : List (String × Json)) × (r ≡ json status body) × (status ≢ 200)

pub record Exported (V : Vault) (c : Crypto) (keys : Keys) (env : Env) (body : Option Json)
    (w : World) (s : V.Store) (r : Response) : Type 0 where
  pub user : User
  pub payload : Props
  pub peer : Bytes
  pub seed : Bytes
  pub ephemeral : Bytes
  pub nonce : Bytes
  pub ciphertext : Bytes
  pub authenticated : request_user w ≡ some user
  pub managed : user.is_sovereign ≡ false
  pub sent : body ≡ some (obj payload)
  pub decoded : decode_material (get "ephemeral_pubkey" payload) 32 ≡ some peer
  pub held : load_vault_keypair V c keys env user.custodial_did s ≡ loaded seed
  pub sealing : keys.seal peer seed user.custodial_did ≡ some (ephemeral, nonce, ciphertext)
  pub answer :
      r
      ≡ json 200 (
          ("server_ephemeral_pub", str (hexlify ephemeral))
          ∷ ("nonce", str (hexlify nonce))
          ∷ ("ciphertext", str (hexlify ciphertext))
          ∷ [])

refusal : (status : ℕ) (error : String) → status ≢ 200 → IsRefusal (graduation_error status error)
refusal status error h = (status, ("error", str error) ∷ [], refl, h)

module _ (V : Vault) (c : Crypto) (keys : Keys) (env : Env) (body : Option Json) (w : World)
    (s : V.Store) where
  abbrev Answers : Response → Type 0
  Answers r = IsRefusal r ⊎ Exported V c keys env body w s r

  module _ (user : User) (authenticated : request_user w ≡ some user)
      (managed : user.is_sovereign ≡ false) (payload : Props)
      (sent : body ≡ some (obj payload)) where
    sealed-Answers :
        (peer seed : Bytes) (o : Option (Bytes × Bytes × Bytes))
        → decode_material (get "ephemeral_pubkey" payload) 32 ≡ some peer
        → load_vault_keypair V c keys env user.custodial_did s ≡ loaded seed
        → keys.seal peer seed user.custodial_did ≡ o
        → Answers (sealed V c keys env o)
    sealed-Answers peer seed none d l e = inl (500, [], refl, λ h. omega arith)
    sealed-Answers peer seed (some (ephemeral, nonce, ciphertext)) d l e = inr (record {
      user = user;
      payload = payload;
      peer = peer;
      seed = seed;
      ephemeral = ephemeral;
      nonce = nonce;
      ciphertext = ciphertext;
      authenticated = authenticated;
      managed = managed;
      sent = sent;
      decoded = d;
      held = l;
      sealing = e;
      answer = refl;
    })

    export_key-Answers :
        (peer : Bytes) (l : Loaded)
        → decode_material (get "ephemeral_pubkey" payload) 32 ≡ some peer
        → load_vault_keypair V c keys env user.custodial_did s ≡ l
        → Answers (export_key V c keys env user peer l)
    export_key-Answers peer no_key d e = inl (refusal 404 _ (λ h. omega arith))
    export_key-Answers peer unavailable d e = inl (refusal 502 _ (λ h. omega arith))
    export_key-Answers peer (loaded seed) d e = sealed-Answers peer seed _ d e refl

    export_material-Answers :
        (o : Option Bytes)
        → decode_material (get "ephemeral_pubkey" payload) 32 ≡ o
        → Answers (export_material V c keys env user s o)
    export_material-Answers none d = inl (refusal 400 _ (λ h. omega arith))
    export_material-Answers (some peer) d = export_key-Answers peer _ d refl

  export_payload-Answers :
      (user : User) (o : Option Json)
      → request_user w ≡ some user
      → user.is_sovereign ≡ false
      → body ≡ o
      → Answers (export_payload V c keys env user s o)
  export_payload-Answers user none a m e = inl (refusal 400 _ (λ h. omega arith))
  export_payload-Answers user (some (obj payload)) a m e =
      export_material-Answers user a m payload e _ refl
  export_payload-Answers user (some _) a m e = inl (500, [], refl, λ h. omega arith)

  export_user-Answers :
      (o : Option User) → request_user w ≡ o → Answers (export_user V c keys env s body o)
  export_user-Answers none e = inl (refusal 401 _ (λ h. omega arith))
  export_user-Answers (some user) e =
      if_split Answers user.is_sovereign _ _ (λ _. inl (refusal 400 _ (λ h. omega arith)))
        (λ managed. export_payload-Answers user body e managed refl)

  -- An export is refused with a status that is not 200, or it answers the session's managed user with
  -- the key that the vault holds for the user's DID, sealed for the 32 bytes that the request sent and
  -- bound to that DID, and with nothing else of the key.
  pub graduate_export-Exported :
      IsRefusal (graduate_export V c keys env body w s)
      ⊎ Exported V c keys env body w s (graduate_export V c keys env body w s)
  unfolding graduate_export
  graduate_export-Exported = export_user-Answers _ refl
