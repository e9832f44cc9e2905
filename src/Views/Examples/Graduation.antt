-- ===== src/Views/Examples/Graduation.antt =====
-- A vault that keeps its documented behaviour, and a receipt at which the theorems on graduation apply.
use mathlib.Core.List.Memᴰ
use iyou_idp.Prelude.{
  String, ◌≡◌, ◌≢◌, refl, ◌⊎◌, Bool, true, false, Option, none, some, List, [], ◌∷◌, if◌then◌else◌,
  ◌==◌, arith, eq_iff, eq_refl, IsIn, ℕ, eqb, ap, subst,
}
use iyou_idp.Prelude.Int.{pos}
use iyou_idp.Codec.{hexlify, unhexlify}
use iyou_idp.Json.{Json, bool, str, int, obj, Props, prop, end}
use iyou_idp.Invite.Examples.{crypto, issuer}
use iyou_idp.Server.{World, Response, json, new_session}
use iyou_idp.Server.Users.{new_user, save}
use iyou_idp.Vault.{Vault, IsLawful, Reply, failed, missing, found, key_path}
use iyou_idp.Views.Graduation.{Keys, saves, graduate_confirm, graduate_export, decode_material}
use iyou_idp.Views.Graduation.Laws.{shred_failed, decode_material-hexlify}
use iyou_idp.Views.Graduation.Custody.{
  IsUnique, Request, KeptOrGivenUp, custody, managed, confirm_all, confirm_all-KeptOrGivenUp,
}
use iyou_idp.Views.Graduation.Export.{IsRefusal, Exported, graduate_export-Exported}
use iyou_idp.Views.Examples.{env, start}

-- A store that answers while it is up.
record Secrets : Type 0 where
  up : Bool
  at : String → Option Props

abbrev reply : Option Props → Reply
reply none = missing
reply (some secret) = found secret

abbrev vault : Vault
vault = record {
  Store = Secrets;
  read = λ k s. if s.up then reply (s.at k) else failed;
  put = λ k secret s. (record s { at = λ j. if k == j then some secret else s.at j }, s.up);
  delete = λ k s.
      if s.up then (record s { at = λ j. if k == j then none else s.at j }, true) else (s, false);
}

delete_done_lem :
    (k : String) (s : Secrets) (secret : Props)
    → (vault.delete k s).1 ≡ true
    → vault.read k (vault.delete k s).0 ≢ found secret
delete_done_lem k s secret h g = ground (arith, eq_refl k)

delete_other_lem :
    (k j : String) (s : Secrets) → k ≢ j → vault.read j (vault.delete k s).0 ≡ vault.read j s
delete_other_lem k j s other = ground (arith, eq_iff k j)

vault-IsLawful : IsLawful vault
vault-IsLawful = record { delete_done = delete_done_lem; delete_other = delete_other_lem }

abbrev keys : Keys
keys = record {
  load_pem = λ pem. some (1 ∷ []);
  public_key = λ seed. seed;
  seal = λ peer seed associated. some (peer, 5 ∷ [], 9 ∷ []);
}

abbrev secret : Props
secret = prop "private_key_pem" (str "pem") end

abbrev graduand : World
graduand = record start {
  users = new_user "u1" issuer ∷ [];
  session = record new_session { user = some "u1" };
}

abbrev secrets : Secrets
secrets = record { up = true; at = λ k. if k == key_path issuer then some secret else none }

abbrev signature_text : String
signature_text =
    "00000000000000000000000000000000000000000000000000000000000000000000000000000000000000000000000000000000000000000000000000000000"

abbrev receipt : Props
receipt =
    prop "did" (str issuer) (prop "action" (str "graduate") (prop "issued_at" (int (pos 1900)) end))

abbrev confirmation : Option Json
confirmation = some (obj (prop "receipt" (obj receipt) (prop "signature" (str signature_text) end)))

promotes :
    (graduate_confirm vault crypto keys env (saves true) confirmation graduand secrets).0.0.users
    ≡ record (new_user "u1" issuer) { is_sovereign = true; account_tier = "sovereign" } ∷ []
unfolding graduate_confirm unhexlify save
promotes = refl

-- A COMMIT that fails after the deletion leaves the user managed, and the vault without the key.
loses_the_key :
    custody vault "u1"
      (graduate_confirm vault crypto keys env (saves false) confirmation graduand secrets).0.0
      (graduate_confirm vault crypto keys env (saves false) confirmation graduand secrets).1
    ≡ managed missing
unfolding graduate_confirm unhexlify save
loses_the_key = refl

graduand-IsUnique : IsUnique graduand.users
graduand-IsUnique i j u v hu hv same = ground (arith, eq_iff "u1" i, eq_iff "u1" j)

abbrev requests : List Request
requests =
    record { env = env; db = saves true; session = graduand.session; body = none }
    ∷ record { env = env; db = saves true; session = graduand.session; body = confirmation }
    ∷ []

abbrev answers : List Response
answers =
    json 400 (("error", str "malformed_json") ∷ [])
    ∷ json 200
        (("status", str "graduated") ∷ ("did", str issuer) ∷ ("is_sovereign", bool true) ∷ [])
    ∷ []

requests-answers : (confirm_all vault crypto keys requests graduand secrets).1 ≡ answers
unfolding confirm_all graduate_confirm unhexlify save
requests-answers = refl

status_of : Response → ℕ
status_of (json status fields) = status
status_of _ = 0

neither {ℓ} : {A : Type ℓ} (x a b : A) → x ≢ a → x ≢ b → ¬ (IsIn x (a ∷ b ∷ []))
neither x a b first second (IsIn.head e) = first (e)
neither x a b first second (IsIn.tail (IsIn.head e)) = second (e)
neither x a b first second (IsIn.tail (IsIn.tail m)) = Memᴰ.not-nil m

other_status : (a b : Response) → (eqb (status_of a) (status_of b)) ≡ false → a ≢ b
other_status a b h e = ground (arith, ap status_of e)

answers-succeed : ¬ (IsIn shred_failed answers)
unfolding status_of
answers-succeed = neither _ _ _ (other_status _ _ refl) (other_status _ _ refl)

requests-succeed : ¬ (IsIn shred_failed (confirm_all vault crypto keys requests graduand secrets).1)
requests-succeed m = answers-succeed (subst (IsIn shred_failed) requests-answers m)

confirm_all-KeptOrGivenUp_example : KeptOrGivenUp secret (
    custody vault "u1"
      (confirm_all vault crypto keys requests graduand secrets).0.0
      (confirm_all vault crypto keys requests graduand secrets).0.1)
confirm_all-KeptOrGivenUp_example =
    confirm_all-KeptOrGivenUp vault crypto keys vault-IsLawful requests graduand secrets "u1" secret
      graduand-IsUnique refl requests-succeed

decode_material-hexlify_example :
    decode_material (str (hexlify (1 ∷ 255 ∷ []))) 2 ≡ some (1 ∷ 255 ∷ [])
decode_material-hexlify_example = decode_material-hexlify (1 ∷ 255 ∷ []) (omega arith)

abbrev export_request : Option Json
export_request = some (
    obj (
      prop "ephemeral_pubkey"
        (str "0707070707070707070707070707070707070707070707070707070707070707") end))

graduate_export-Exported_example :
    IsRefusal (graduate_export vault crypto keys env export_request graduand secrets)
    ⊎ Exported vault crypto keys env export_request graduand secrets
        (graduate_export vault crypto keys env export_request graduand secrets)
graduate_export-Exported_example =
    graduate_export-Exported vault crypto keys env export_request graduand secrets
