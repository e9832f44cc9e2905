-- ===== src/Crypto.antt =====
-- What the program calls of base58, cryptography, hashlib and base64. These are parameters of the
-- model: a section takes a `Crypto`, and no theorem assumes more of it than it says.
use iyou_idp.Prelude.{
  ℕ, String, Bool, Option, none, some, List, ◌∷◌, length, eqb, ◌&&◌, if◌then◌else◌,
}
use iyou_idp.Json.{Json}

abbrev pub Bytes : Type 0
Bytes = List ℕ

pub record Crypto : Type 0 where
  pub b58decode : String → Option Bytes
  pub urlsafe_b64decode : String → Option Bytes
  pub fromhex : String → Option Bytes
  pub sha256 : Bytes → Bytes
  pub sha512 : Bytes → Bytes
  pub encode_utf8 : String → Bytes
  -- json.loads of the bytes as UTF-8; `none` where either raises
  pub json_loads : Bytes → Option Json
  -- whether iyou_idp._crypto is there; its verify_vp of a document, with json.loads of the reply
  -- (`none` where either raises)
  pub rust_bridge : Bool
  pub verify_vp : Json → Option Json
  -- whether `Ed25519PublicKey.from_public_bytes` accepts the bytes, and whether `verify` does
  pub ed25519_public_key : Bytes → Bool
  pub ed25519_verify : (key signature message : Bytes) → Bool

-- `len(decoded) == 34 and decoded[0] == 0xED and decoded[1] == 0x01`, and then decoded[2:]
abbrev pub ed25519_multicodec : Option Bytes → Option Bytes
ed25519_multicodec (some (a ∷ b ∷ key)) =
    if eqb (length key) 32 && (eqb a 0xed && eqb b 0x01) then some key else none
ed25519_multicodec _ = none
