-- ===== src/Invite/Admission/Schedule.antt =====
-- Sequences of submissions and pauses, and how many of them admit a token with a given nonce.
use iyou_idp.Prelude.{
  ℕ, ◌+◌, ◌-◌, String, ◌≡◌, ◌≢◌, ◌⊎◌, true, some, List, [], ◌∷◌, if◌then◌else◌, ◌==◌,
}
use iyou_idp.Prelude.Int.{pos_part}
use iyou_idp.Crypto.{Crypto}
use iyou_idp.Settings.{Settings}
use iyou_idp.Cache.{Backend, Caches}
use iyou_idp.Json.{Props, get}
use iyou_idp.Invite.{Verdict, granted, raised, parse_token_input}
use iyou_idp.Invite.Schema.{text_of, int_of}
use iyou_idp.Invite.Admission.{cap, floor, verify_invite_token}

pub data Event : Type 0 where
  submit : (raw : String) → Event
  wait : (seconds : ℕ) → Event

-- The primary accepts every probe.
abbrev pub NeverDown : Backend → Type 0
NeverDown P = (now : ℕ) (k : String) (v : _) (t : ℕ) (s : P.Store) → (P.set now k v t s).1 ≡ true

abbrev pub nonce_of : Props → String
nonce_of token = text_of (get "nonce" token)

abbrev pub expires_of : Props → ℕ
expires_of token = pos_part (int_of (get "expires_at" token))

-- One for an admitted token with this nonce.
abbrev pub tally : String → Verdict Props → ℕ
tally nonce (granted token) = if nonce_of token == nonce then 1 else 0
tally nonce (raised e) = 0

abbrev pub budget : Props → ℕ
budget token = cap token - floor token

module _ (c : Crypto) (settings : Settings) where
  -- Every submitted token is `token` itself, or has another nonce.
  abbrev pub IsSeparate : Props → Event → Type 0
  IsSeparate token (wait n) = Unit
  IsSeparate token (submit raw) =
      (t : Props) → parse_token_input c raw ≡ some t → (t ≡ token) ⊎ (nonce_of t ≢ nonce_of token)

  module _ (P F : Backend) where
    -- How many submissions admit the nonce, from a time and a state of the cache.
    unfoldable pub admitted : String → List Event → (now : ℕ) → Caches P F → ℕ
    admitted nonce [] now s = 0
    admitted nonce (wait n ∷ es) now s = admitted nonce es (now + n) s
    admitted nonce (submit raw ∷ es) now s =
        let (s', r) = verify_invite_token c settings P F raw now s in
        tally nonce r + admitted nonce es now s'
