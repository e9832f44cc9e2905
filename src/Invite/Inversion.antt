-- ===== src/Invite/Inversion.antt =====
-- What a check that passed has shown: the steps of a `do` block of results, taken apart.
use iyou_idp.Prelude.{String, ◌≡◌, refl, Bool, true, false, Option, none, some, arith}
use iyou_idp.Json.{Json, str}
use iyou_idp.Invite.{Verdict, granted, raised, ◌>>=◌, ◌>>◌, Reason, require, some_or, nonempty_text}

pub bind-eq-granted {ℓ κ} :
    {A : Type ℓ} {B : Type κ} (m : Verdict A) (f : A → Verdict B) {b : B}
    → (m >>= f) ≡ granted b
    → (a : A) × (m ≡ granted a) × (f a ≡ granted b)
bind-eq-granted (granted a) f h = (a, refl, h)
bind-eq-granted (raised e) f h = cc

pub then-eq-granted {κ} :
    {B : Type κ} (m : Verdict (Unit {0})) (k : Verdict B) {b : B}
    → (m >> k) ≡ granted b
    → (m ≡ granted tt) × (k ≡ granted b)
then-eq-granted (granted tt) k h = (refl, h)
then-eq-granted (raised e) k h = cc

pub require-eq-granted : (b : Bool) (e : Reason) {u : Unit {0}} → require b e ≡ granted u → b ≡ true
require-eq-granted true e h = refl
require-eq-granted false e h = cc

pub require-then {κ} :
    {B : Type κ} (t : Bool) (e : Reason) (k : Verdict B) {b : B}
    → (require t e >> k) ≡ granted b
    → (t ≡ true) × (k ≡ granted b)
require-then true e k h = (refl, h)
require-then false e k h = cc

pub some_or-eq-granted :
    {A : Type 0} (o : Option A) (e : Reason) {a : A} → some_or o e ≡ granted a → o ≡ some a
some_or-eq-granted none e h = cc
some_or-eq-granted (some a) e h = cc

pub nonempty_text-eq-granted :
    (v : Json) (e : Reason) {s : String} → nonempty_text v e ≡ granted s → v ≡ str s
nonempty_text-eq-granted v e h = ground arith
