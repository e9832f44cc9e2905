-- ===== src/Vault.antt =====
-- auth_bridge/vault_client.py over the KV secrets engine of HashiCorp Vault, which is a parameter.
use Prim.Native.String.{◌++◌}
use iyou_idp.Prelude.{String, ◌≡◌, ◌≢◌, Bool, true}
use iyou_idp.Json.{Props}

-- The answer to a read: the call raised, it returned None, or it gave the data of the secret.
pub data Reply : Type 0 where
  failed : Reply
  missing : Reply
  found : Props → Reply

-- The client. The Boolean of a write or a delete is false where the call raised.
pub record Vault : Type 1 where
  pub Store : Type 0
  pub read : String → Store → Reply
  pub put : String → Props → Store → Store × Bool
  pub delete : String → Store → Store × Bool

-- The documented behaviour of delete_metadata_and_all_versions: a call that returned left nothing to read
-- at the path, and other paths are untouched. Of a call that raised nothing is assumed.
pub record IsLawful (V : Vault) : Type 0 where
  pub delete_done :
      (k : String) (s : V.Store) (data' : Props)
      → (V.delete k s).1 ≡ true
      → V.read k (V.delete k s).0 ≢ found data'
  pub delete_other : (k j : String) (s : V.Store) → k ≢ j → V.read j (V.delete k s).0 ≡ V.read j s

abbrev pub key_path : (custodial_did : String) → String
key_path custodial_did = "identity/" ++ (custodial_did ++ "/ed25519")

module _ (V : Vault) where
  abbrev pub read_identity_key : (custodial_did : String) → V.Store → Reply
  read_identity_key custodial_did = V.read (key_path custodial_did)

  abbrev pub write_identity_key : (custodial_did : String) → Props → V.Store → V.Store × Bool
  write_identity_key custodial_did = V.put (key_path custodial_did)

  abbrev pub delete_identity_key : (custodial_did : String) → V.Store → V.Store × Bool
  delete_identity_key custodial_did = V.delete (key_path custodial_did)
