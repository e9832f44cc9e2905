-- ===== src/Json/Fields.antt =====
-- What the tests of a field say of it.
use iyou_idp.Prelude.{String, ◌≡◌, ap, true, arith, eq_iff}
use iyou_idp.Json.{Json, str, is_text}

pub is_text-eq : (v : Json) (s : String) → is_text s v ≡ true → v ≡ str s
is_text-eq (str t) s h = ap str ((eq_iff t s).0 h)
is_text-eq v s h = ground arith
