-- ===== src/Credentials/Proofs.antt =====
-- What verify_signature_with_did_rust of auth_bridge/credentials.py has found where it accepts.
use iyou_idp.Prelude.{
  String, ◌≡◌, refl, ◌⊎◌, inl, inr, Bool, true, false, ◌||◌, Option, none, some, ◌==◌, if_split,
  eqb, length, and_true,
}
use iyou_idp.Json.{
  Json, null, bool, int, float, str, arr, obj, Props, get, get_or, truthy, or, without,
}
use iyou_idp.Json.Dumps.{dumps, canonical_ascii, in_order_ascii}
use iyou_idp.Crypto.{Crypto, Bytes}
use iyou_idp.Credentials.{
  Readers, pubkey_from_did_key, with_signature, with_hex, verify_vc_signature_python, bridge_says,
  by_bridge, by_issuer, issued_by, verify_signature_with_did_rust,
}

module _ (c : Crypto) (readers : Readers) (vc : Props) where
  -- The bridge calls the document valid.
  pub record ByBridge : Type 0 where
    pub verify : String → Option Json
    pub installed : readers.rust_verify_vc ≡ some verify
    pub reply : Props
    pub answered : verify (dumps in_order_ascii (obj vc)) ≡ some (obj reply)
    pub says_valid : truthy (get_or (bool false) "valid" reply) ≡ true

  -- The proof's signature verifies under the key of the issuer's DID, over the document without its
  -- proof, in one of two serializations.
  pub record ByKey (issuer : String) : Type 0 where
    pub proof : Props
    pub has_proof : get "proof" vc ≡ obj proof
    pub hex : String
    pub has_hex : or (get "proofValue" proof) (get "signatureValue" proof) ≡ str hex
    pub key : Bytes
    pub key_of : pubkey_from_did_key c readers issuer ≡ some key
    pub signature : Bytes
    pub decoded : c.fromhex hex ≡ some signature
    pub signed :
        (c.ed25519_verify key signature
            (c.encode_utf8 (dumps canonical_ascii (obj (without "proof" vc))))
          ≡ true)
        ⊎ (c.ed25519_verify key signature
              (c.encode_utf8 (dumps in_order_ascii (obj (without "proof" vc))))
            ≡ true)

  pub record OwnProof : Type 0 where
    pub issuer : String
    pub issued : get "issuer" vc ≡ str issuer
    pub verified : ByBridge ⊎ ByKey issuer

  either : (a b : Bool) → (a || b) ≡ true → (a ≡ true) ⊎ (b ≡ true)
  either true b h = inl refl
  either false b h = inr h

  module _ (issuer : String) where
    module _ (proof : Props) (has_proof : get "proof" vc ≡ obj proof) where
      with_signature-ByKey :
          (hex : String)
          → or (get "proofValue" proof) (get "signatureValue" proof) ≡ str hex
          → (k s : Option Bytes) → pubkey_from_did_key c readers issuer ≡ k
          → c.fromhex hex ≡ s
          → with_signature c readers vc k s ≡ true
          → ByKey issuer
      with_signature-ByKey hex has_hex none s ek es h = absurd (cc (h))
      with_signature-ByKey hex has_hex (some key) none ek es h = absurd (cc (h))
      with_signature-ByKey hex has_hex (some key) (some signature) ek es h =
          if_split (λ b. b ≡ true → ByKey issuer) (eqb (length signature) 64) _ _
            (λ sized passed. record {
              proof = proof;
              has_proof = has_proof;
              hex = hex;
              has_hex = has_hex;
              key = key;
              key_of = ek;
              signature = signature;
              decoded = es;
              signed = either _ _ (and_true passed).1;
            })
            (λ wrong passed. absurd (cc (passed))) h

      with_hex-ByKey :
          (v : Json)
          → or (get "proofValue" proof) (get "signatureValue" proof) ≡ v
          → with_hex c readers vc issuer v ≡ true
          → ByKey issuer
      with_hex-ByKey (str hex) e h =
          if_split (λ b. b ≡ true → ByKey issuer) (hex == "") _ _ (λ _ passed. absurd (cc (passed)))
            (λ _ passed. with_signature-ByKey hex e _ _ refl refl passed) h
      with_hex-ByKey null e h = absurd (cc (h))
      with_hex-ByKey (bool b) e h = absurd (cc (h))
      with_hex-ByKey (int n) e h = absurd (cc (h))
      with_hex-ByKey (float r n) e h = absurd (cc (h))
      with_hex-ByKey (arr vs) e h = absurd (cc (h))
      with_hex-ByKey (obj ps) e h = absurd (cc (h))

    proof-ByKey :
        (v : Json)
        → get "proof" vc ≡ v
        → (elim v [
          | obj proof ↦
              with_hex c readers vc issuer
                (or (get "proofValue" proof) (get "signatureValue" proof))
          | _ ↦ false
        ])
          ≡ true
        → ByKey issuer
    proof-ByKey (obj proof) e h = with_hex-ByKey proof e _ refl h
    proof-ByKey null e h = absurd (cc (h))
    proof-ByKey (bool b) e h = absurd (cc (h))
    proof-ByKey (int n) e h = absurd (cc (h))
    proof-ByKey (float r n) e h = absurd (cc (h))
    proof-ByKey (arr vs) e h = absurd (cc (h))
    proof-ByKey (str s) e h = absurd (cc (h))

    python-ByKey : verify_vc_signature_python c readers vc issuer ≡ true → ByKey issuer
    unfolding verify_vc_signature_python
    python-ByKey h = proof-ByKey (get "proof" vc) refl h

    by_bridge-Found :
        (verify : String → Option Json)
        → readers.rust_verify_vc ≡ some verify
        → (o : Option Json) → verify (dumps in_order_ascii (obj vc)) ≡ o
        → by_bridge c readers vc issuer (bridge_says c readers o) ≡ true
        → ByBridge ⊎ ByKey issuer
    by_bridge-Found verify i none e h = inr (python-ByKey h)
    by_bridge-Found verify i (some (obj reply)) e h =
        inl (record { verify = verify; installed = i; reply = reply; answered = e; says_valid = h })
    by_bridge-Found verify i (some null) e h = inr (python-ByKey h)
    by_bridge-Found verify i (some (bool b)) e h = inr (python-ByKey h)
    by_bridge-Found verify i (some (int n)) e h = inr (python-ByKey h)
    by_bridge-Found verify i (some (float r n)) e h = inr (python-ByKey h)
    by_bridge-Found verify i (some (arr vs)) e h = inr (python-ByKey h)
    by_bridge-Found verify i (some (str s)) e h = inr (python-ByKey h)

    by_issuer-Found :
        (o : Option (String → Option Json))
        → readers.rust_verify_vc ≡ o
        → by_issuer c readers vc issuer o ≡ true
        → ByBridge ⊎ ByKey issuer
    by_issuer-Found none e h = inr (python-ByKey h)
    by_issuer-Found (some verify) e h = by_bridge-Found verify e _ refl h

  issued_by-OwnProof : (v : Json) → get "issuer" vc ≡ v → issued_by c readers vc v ≡ true → OwnProof
  issued_by-OwnProof (str issuer) e h =
      if_split (λ b. b ≡ true → OwnProof) (issuer == "") _ _ (λ _ passed. absurd (cc (passed)))
        (λ _ passed. record {
          issuer = issuer;
          issued = e;
          verified = by_issuer-Found issuer _ refl passed;
        })
        h
  issued_by-OwnProof null e h = absurd (cc (h))
  issued_by-OwnProof (bool b) e h = absurd (cc (h))
  issued_by-OwnProof (int n) e h = absurd (cc (h))
  issued_by-OwnProof (float r n) e h = absurd (cc (h))
  issued_by-OwnProof (arr vs) e h = absurd (cc (h))
  issued_by-OwnProof (obj ps) e h = absurd (cc (h))

  pub verify_signature-OwnProof : verify_signature_with_did_rust c readers vc ≡ true → OwnProof
  unfolding verify_signature_with_did_rust
  verify_signature-OwnProof h = issued_by-OwnProof (get "issuer" vc) refl h
