-- ===== src/Db/Tokens.antt =====
-- The repository of access tokens, `bumper/db/tokens.py`. A read that meets an expiration which is
-- no ISO text raises: its result is none outside.
pub mod Laws
pub mod Codes
use bumper.Base.{
  ℕ, ◌+◌, ◌*◌, String, Bool, true, false, Option, none, some, List, [], ◌∷◌, if◌then◌else◌, ltb,
  is_some,
}
use bumper.Value.{Value, str, Fields, end, field}
use bumper.Models.{Datetime, Token, new_token, token_to_db, token_from_dict}
use bumper.Db.Rows.{Document, Rows, ids}
use bumper.Db.Tiny.{TinyDb, Query, eq, lt, both}
use bumper.Db.Repo.{upsert_record, get_record, get_first, get_multi}

-- `TOKEN_VALIDITY_SECONDS`, in microseconds.
abbrev pub token_validity : ℕ
token_validity = 1800 * 1000000

-- The conditions on a token's documents that the methods build.
abbrev pub of_user : String → Query
of_user user_id = eq "userid" (str user_id)

abbrev pub of_token : String → String → Query
of_token user_id token_str = both (of_user user_id) (eq "token" (str token_str))

abbrev pub expired_at : String → Query
expired_at now_iso = lt "expiration" now_iso

abbrev pub token_read : Option Token → Option (Option Token)
token_read none = none
token_read (some k) = some (some k)

abbrev pub not_expired : ℕ → Option (Option Token) → Option Bool
not_expired now none = none
not_expired now (some none) = some false
not_expired now (some (some k)) = some (ltb now k.expiration)

module _ ⦃db : TinyDb⦄ (dt : Datetime) where
  abbrev pub token_of : Option Document → Option (Option Token)
  token_of none = some none
  token_of (some r) = token_read (token_from_dict dt r.fields)

  abbrev tokens_of : Rows → Option (List Token)
  tokens_of [] = some []
  tokens_of (r ∷ rs) =
      let rest = tokens_of rs in
      elim (token_from_dict dt r.fields) [
        | none ↦ none
        | some k ↦ elim rest [ none ↦ none | some ks ↦ some (k ∷ ks) ]
      ]

  unfoldable pub add : ℕ → String → String → db.Table → db.Table
  add now userid token_str t =
      let token = new_token userid token_str (now + token_validity) in
      if db.contains (of_token userid token_str) t then t else db.insert (token_to_db dt token) t

  unfoldable pub get : String → String → db.Table → Option (Option Token)
  get user_id token_str t = token_of (get_record (of_token user_id token_str) t)

  unfoldable pub get_first_token : String → db.Table → Option (Option Token)
  get_first_token user_id t = token_of (get_first (of_user user_id) t)

  unfoldable pub list_for_user : String → db.Table → Option (List Token)
  list_for_user user_id t = tokens_of (get_multi (of_user user_id) t)

  unfoldable pub verify : ℕ → String → String → db.Table → Option Bool
  unfolding get
  verify now user_id token_str t = not_expired now (get user_id token_str t)

  unfoldable pub get_by_auth_code : String → db.Table → Option (Option Token)
  get_by_auth_code auth_code t = token_of (get_first (eq "auth_code" (str auth_code)) t)

  unfoldable pub login_by_it_token : String → db.Table → Option (Option Token)
  login_by_it_token it_token t = token_of (get_first (eq "it_token" (str it_token)) t)

module _ ⦃db : TinyDb⦄ where
  -- `add_auth_code` and `add_it_token`: the field of every token of the user is written.
  unfoldable pub add_code : String → String → String → db.Table → Bool × db.Table
  add_code f user_id code t =
      if is_some (get_first (of_user user_id) t)
      then upsert_record (some (field f (str code) end)) (of_user user_id) t
      else (false, t)

  unfoldable pub add_auth_code : String → String → db.Table → Bool × db.Table
  unfolding add_code
  add_auth_code user_id auth_code t = add_code "auth_code" user_id auth_code t

  unfoldable pub add_it_token : String → String → db.Table → Bool × db.Table
  unfolding add_code
  add_it_token user_id it_token t = add_code "it_token" user_id it_token t

  unfoldable pub verify_it : String → String → db.Table → Bool
  verify_it user_id it_token t =
      db.contains (both (of_user user_id) (eq "it_token" (str it_token))) t

  unfoldable pub verify_auth_code : String → String → db.Table → Bool
  verify_auth_code user_id auth_code t =
      db.contains (both (of_user user_id) (eq "auth_code" (str auth_code))) t

  -- `for r in expired: self.table.remove(doc_ids=[r.doc_id])`
  unfoldable pub remove_each : Rows → db.Table → db.Table
  remove_each [] t = t
  remove_each (r ∷ rs) t = remove_each rs (db.remove_ids (r.doc_id ∷ []) t)

  unfoldable pub revoke_user_expired : String → String → db.Table → db.Table
  unfolding remove_each
  revoke_user_expired now_iso user_id t =
      remove_each (get_multi (both (of_user user_id) (expired_at now_iso)) t) t

  unfoldable pub revoke_token : String → String → db.Table → db.Table
  revoke_token user_id token_str t = db.remove_where (of_token user_id token_str) t

  unfoldable pub revoke_expired : String → db.Table → db.Table
  unfolding remove_each
  revoke_expired now_iso t = remove_each (get_multi (expired_at now_iso) t) t

  unfoldable pub revoke_all_for_user : String → db.Table → db.Table
  revoke_all_for_user user_id t = db.remove_ids (ids (get_multi (of_user user_id) t)) t
