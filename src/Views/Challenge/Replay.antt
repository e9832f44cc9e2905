-- ===== src/Views/Challenge/Replay.antt =====
-- Which part of a presentation binds it to its challenge.
use iyou_idp.Prelude.{
  String, ◌≡◌, refl, Bool, true, false, Option, none, some, ◌==◌, eq_refl, Option-cases, Bool-cases,
  inl, inr,
}
use iyou_idp.Json.{str, arr, nil, obj, Props, prop, get?, get_or, without}
use iyou_idp.Crypto.{Crypto, Bytes}
use iyou_idp.Views.Challenge.Presentation.{
  name_in, check_presentation, check_envelope, check_root, direct_valid, candidate_payloads,
  with_signature, stripped,
}

-- A presentation with its proof, which names the challenge.
abbrev pub answering : String → (proof rest : Props) → Props
answering challenge proof rest = prop "proof" (obj (prop "challenge" (str challenge) proof)) rest

module _ (c : Crypto) (rest proof : Props) (old new : String) where
  direct_valid-unbound :
      (did : String)
      → direct_valid c did (prop "challenge" (str old) proof) (answering old proof rest)
        ≡ direct_valid c did (prop "challenge" (str new) proof) (answering new proof rest)
  unfolding direct_valid candidate_payloads without
  direct_valid-unbound did = go _ _
    where
      go :
          (key sig : Option Bytes)
          → with_signature c key sig did (answering old proof rest)
            ≡ with_signature c key sig did (answering new proof rest)
      go none sig = refl
      go (some key) none = refl
      go (some key) (some sig) = refl

  check_root-unbound :
      (ask_bridge : Bool)
      → get? "verifiableCredential" rest ≡ none
      → check_root c ask_bridge (prop "challenge" (str old) proof) (answering old proof rest)
        ≡ check_root c ask_bridge (prop "challenge" (str new) proof) (answering new proof rest)
  unfolding check_root
  check_root-unbound ask_bridge bare =
      elim (Option-cases (stripped (get_or (str "") "holder" rest))) [
        | inl e ↦ rw e
        | inr (did, e) ↦ elim (Bool-cases ask_bridge) [
          | inl ask ↦ rw (e, direct_valid-unbound did, bare, ask)
          | inr quiet ↦ rw (e, direct_valid-unbound did, quiet)
        ]
      ]

-- A presentation that names its challenge in the proof alone, and holds no credential, is judged
-- alike for all challenges: whoever has one of them may write another challenge into the proof.
pub check_presentation-unbound :
    (c : Crypto) (ask_bridge : Bool) (rest proof : Props) (old new : String)
    → name_in "VerifiablePresentation" (get_or (arr nil) "type" rest) ≡ some true
    → get? "challenge" rest ≡ none
    → get? "verifiableCredential" rest ≡ none
    → (old == "") ≡ false
    → (new == "") ≡ false
    → check_presentation c ask_bridge old (obj (answering old proof rest))
      ≡ check_presentation c ask_bridge new (obj (answering new proof rest))
unfolding check_presentation check_envelope
check_presentation-unbound c ask_bridge rest proof old new typed unnamed bare o n = rw (
  typed,
  unnamed,
  bare,
  o,
  n,
  eq_refl old,
  eq_refl new,
  check_root-unbound c rest proof old new ask_bridge bare,
)
