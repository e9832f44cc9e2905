-- ===== src/Views/Gate/Laws.antt =====
-- When the gate lets a DID through, and what a blocked request leaves.
use mathlib.Core.List.Memᴰ
use iyou_idp.Prelude.{
  String, ◌≡◌, ◌≢◌, refl, sym, ap, subst, ◌⊎◌, inl, inr, Bool, true, false, not, Option, none, some,
  List, [], ◌∷◌, arith, IsIn, any-some, member, ◌==◌, eq_iff, if◌then◌else◌, Bool-cases,
}
use iyou_idp.Settings.{Settings}
use iyou_idp.Server.{World, Session, Response, gate_page, none_or_empty}
use iyou_idp.Views.Gate.{
  did_passes_gate, gate_response, next_or_default, is_admin_did, beta_allowlisted_did,
}

module _ (settings : Settings) (w : World) (did : String) (next : Option String) where
  pub gate_open :
      gate_response settings w did next ≡ none → did_passes_gate settings w.session did ≡ true
  unfolding gate_response
  gate_open h = ground arith

  pub gate_passes :
      did_passes_gate settings w.session did ≡ true → gate_response settings w did next ≡ none
  unfolding gate_response
  gate_passes h = rw h

  pub gate_blocked :
      (w' : World) (r : Response)
      → gate_response settings w did next ≡ some (w', r)
      → (did_passes_gate settings w.session did ≡ false)
        × (r ≡ gate_page (some did) (next_or_default settings next))
        × (w' ≡ record w { session = w'.session })
        × (w'.session.verified_pending_did ≡ some did)
        × (w'.session.user ≡ w.session.user)
        × (w'.session.beta_access ≡ w.session.beta_access)
  unfolding gate_response
  gate_blocked w' r h = ground arith

-- Who may proceed: everybody while the gate is off, the operator, a DID of the allowlist, and a
-- session that was granted beta access.
pub data Allowed (settings : Settings) (session : Session) (did : String) : Type 0 where
  gate_off : settings.system_gate_enabled ≡ false → Allowed settings session did
  operator : did ≢ "" → did ≡ settings.admin_did → Allowed settings session did
  listed : did ≢ "" → IsIn did settings.beta_access_allowlist → Allowed settings session did
  granted : session.beta_access ≡ true → Allowed settings session did

member-IsIn : (s : String) (xs : List String) → member s xs ≡ true → IsIn s xs
member-IsIn s xs h =
    let (y, m, same) = any-some (λ y. s == y) xs h in
    subst (λ x. IsIn x xs) (sym ((eq_iff s y).0 same)) m

IsIn-member : (s : String) (xs : List String) → IsIn s xs → member s xs ≡ true
IsIn-member s [] m = absurd (Memᴰ.not-nil m)
IsIn-member s (x ∷ xs) (IsIn.head e) = ground (arith, e, eq_iff s x)
IsIn-member s (x ∷ xs) (IsIn.tail m) = ground (arith, IsIn-member s xs)

module _ (settings : Settings) (session : Session) (did : String) where
  admin-operator : is_admin_did settings did ≡ true → Allowed settings session did
  admin-operator h =
      operator (λ e. ground (arith, h, e, eq_iff did ""))
        (ground (arith, h, eq_iff did settings.admin_did))

  allowlisted-listed :
      (blank : Bool)
      → (did == "") ≡ blank
      → (if blank then false else member did settings.beta_access_allowlist) ≡ true
      → Allowed settings session did
  allowlisted-listed true e h = absurd (cc)
  allowlisted-listed false e h =
      listed (λ p. ground (arith, e, p, eq_iff did ""))
        (member-IsIn did settings.beta_access_allowlist h)

  by_tests :
      (gated admin allowlisted beta : Bool)
      → settings.system_gate_enabled ≡ gated
      → is_admin_did settings did ≡ admin
      → beta_allowlisted_did settings did ≡ allowlisted
      → session.beta_access ≡ beta
      → (if not gated then true else if admin then true else if allowlisted then true else beta)
        ≡ true
      → Allowed settings session did
  by_tests false a l b eg ea el eb h = gate_off eg
  by_tests true true l b eg ea el eb h = admin-operator ea
  by_tests true false true b eg ea el eb h = allowlisted-listed _ refl el
  by_tests true false false true eg ea el eb h = granted eb
  by_tests true false false false eg ea el eb h = absurd (cc)

  passes-Allowed : did_passes_gate settings session did ≡ true → Allowed settings session did
  unfolding did_passes_gate
  passes-Allowed h = by_tests _ _ _ _ refl refl refl refl h

  Allowed-passes : Allowed settings session did → did_passes_gate settings session did ≡ true
  unfolding did_passes_gate
  Allowed-passes (gate_off e) = ground (arith, e)
  Allowed-passes (operator n e) = ground (arith, e, n, eq_iff did settings.admin_did, eq_iff did "")
  Allowed-passes (listed n m) =
      let known = IsIn-member did settings.beta_access_allowlist m in
      ground (arith, known, n, eq_iff did "")
  Allowed-passes (granted e) = ground (arith, e)

-- The session with the DID stashed, and the next URL unless there is none.
abbrev pub stashed : (blank : Bool) → String → Option String → Session → Session
stashed blank did next s = record s {
  verified_pending_did = some did;
  verified_pending_next_url = if blank then s.verified_pending_next_url else next;
}

stashed-session :
    (blank : Bool) (did : String) (next : Option String) (s : Session)
    → (if blank
        then record s { verified_pending_did = some did }
        else record s { verified_pending_did = some did; verified_pending_next_url = next })
      ≡ stashed blank did next s
stashed-session true did next s = refl
stashed-session false did next s = refl

-- The gate lets a DID through exactly when it is off, the DID is the operator's or on the allowlist,
-- or the session was granted beta access. Any other request gets the 403 page for its DID, which is
-- stashed in the session, with the next URL where there is one; nothing else changes.
pub gate_response-Allowed :
    (settings : Settings) (w : World) (did : String) (next : Option String)
    → ((gate_response settings w did next ≡ none) × Allowed settings w.session did)
      ⊎ ((¬ (Allowed settings w.session did))
          × (gate_response settings w did next
              ≡ some (
                record w { session = stashed (none_or_empty next) did next w.session },
                gate_page (some did) (next_or_default settings next),
              )))
unfolding gate_response
gate_response-Allowed settings w did next =
    elim (Bool-cases (did_passes_gate settings w.session did)) [
      | inl e ↦ inl (gate_passes settings w did next e, passes-Allowed settings w.session did e)
      | inr e ↦ inr (
        λ allowed. cc (e, Allowed-passes settings w.session did allowed),
        rw e (
            ap
              (λ x.
                some
                  (record w { session = x }, gate_page (some did) (next_or_default settings next)))
              (stashed-session (none_or_empty next) did next w.session)),
      )
    ]
