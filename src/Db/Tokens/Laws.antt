-- ===== src/Db/Tokens/Laws.antt =====
-- What the repository of tokens promises: verification, codes and revocation.
use mathlib.Core.Path.{fun_ext}
use bumper.Base.{
  ℕ, ◌+◌, String, ◌≡◌, Bool, false, ◌&&◌, some, [], ◌∷◌, ◌==◌, ltb, ==_self, sym, ap, ◌∙◌,
}
use bumper.Value.{Fields, lookup, value_eq}
use bumper.Models.{Datetime, new_token, token_to_db}
use bumper.Models.Laws.{token_from_dict-token_to_db}
use bumper.Db.Rows.{Rows, ids, IsKeyed, any_row, drop_ids, drop_where}
use bumper.Db.Rows.Laws.{first_row-append, any_row-first_row}
use bumper.Db.Rows.Removal.{drop_ids-nil, drop_ids-cons, drop_ids-select}
use bumper.Db.Tiny.{TinyDb, Documented, both}
use bumper.Db.Repo.{get_record, get_multi}
use bumper.Db.Repo.Keyed.{is_key, matches-is_key}
use bumper.Db.Tokens.{
  of_user, of_token, expired_at, token_validity, token_read, add, verify, not_expired, remove_each,
  revoke_user_expired,
}

-- A document of the user with the given token.
abbrev pub has_token : String → String → Fields → Bool
has_token u k d = is_key "userid" u d && is_key "token" k d

has_token-new :
    (dt : Datetime) (u k v : String) (e : ℕ)
    → has_token u v (token_to_db dt (new_token u k e)) ≡ (k == v)
unfolding token_to_db lookup value_eq
has_token-new dt u k v e = rw (==_self u)

module _ ⦃db : TinyDb⦄ ⦃laws : Documented db⦄ where
  pub matches-has_token : (u k : String) → db.matches (of_token u k) ≡ has_token u k
  matches-has_token u k =
      fun_ext λ d. rw (laws.matches-both, matches-is_key "userid" u, matches-is_key "token" k)

  pub any_row-contains :
      (u k : String) (t : db.Table)
      → db.contains (of_token u k) t ≡ any_row (has_token u k) (db.all t)
  any_row-contains u k t = rw (laws.contains_any, matches-has_token u k)

  -- A token that is new to the user verifies from then on exactly until its validity has passed,
  -- provided that the ISO text of the moment of its end is read back as that moment.
  pub verify-add :
      (dt : Datetime) (now later : ℕ) (u k : String) (t : db.Table)
      → dt.fromisoformat (dt.isoformat (now + token_validity)) ≡ some (now + token_validity)
      → db.contains (of_token u k) t ≡ false
      → verify dt later u k (add dt now u k t) ≡ some (ltb later (now + token_validity))
  unfolding verify add get_record
  verify-add dt now later u k t iso absent =
      let none_yet : any_row (has_token u k) (db.all t) ≡ false =
        sym (any_row-contains u k t) ∙ absent in
      rw
        (
          absent,
          laws.get_first,
          matches-has_token u k,
          laws.all-insert,
          first_row-append (has_token u k) (db.all t),
          any_row-first_row (has_token u k) (db.all t) none_yet,
          has_token-new dt u k k (now + token_validity),
          ==_self k,
        )
        (ap (λ o. not_expired later (token_read o))
          (token_from_dict-token_to_db dt (new_token u k (now + token_validity)) iso))

  -- Removing the documents that a query selects one by one, each by its identifier, removes
  -- those documents and no other.
  pub all-remove_each :
      (rs : Rows) (t : db.Table) → db.all (remove_each rs t) ≡ drop_ids (ids rs) (db.all t)
  unfolding remove_each
  all-remove_each [] t = sym (drop_ids-nil (db.all t))
  all-remove_each (r ∷ rs) t =
      rw (all-remove_each rs (db.remove_ids (r.doc_id ∷ []) t), laws.all-remove_ids)
        (drop_ids-cons r.doc_id (ids rs) (db.all t))

  matches-user_expired :
      (now_iso u : String)
      → db.matches (both (of_user u) (expired_at now_iso)) ≡ λ d.
          is_key "userid" u d && db.matches (expired_at now_iso) d
  matches-user_expired now_iso u = fun_ext λ d. rw (laws.matches-both, matches-is_key "userid" u)

  -- In a table whose identifiers differ, revoking the expired tokens of a user removes exactly the
  -- user's documents that the query for expired tokens matches, and keeps the others in order.
  pub all-revoke_user_expired :
      (now_iso u : String) (t : db.Table)
      → IsKeyed (db.all t)
      → db.all (revoke_user_expired now_iso u t)
        ≡ drop_where (λ d. is_key "userid" u d && db.matches (expired_at now_iso) d) (db.all t)
  unfolding revoke_user_expired get_multi
  all-revoke_user_expired now_iso u t keyed =
      rw (all-remove_each, laws.search_select, matches-user_expired now_iso u)
        (drop_ids-select (λ d. is_key "userid" u d && db.matches (expired_at now_iso) d) (db.all t)
          keyed)
