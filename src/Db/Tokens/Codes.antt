-- ===== src/Db/Tokens/Codes.antt =====
-- The codes of a user's tokens: what `add_auth_code` writes and `verify_auth_code` accepts, and
-- what is left of a user after all tokens are revoked.
use mathlib.Core.Path.{fun_ext}
use bumper.Base.{
  ℕ, String, ◌≡◌, refl, ◌≢◌, ◌⊎◌, Bool, true, false, ◌&&◌, ◌||◌, none, some, arith, ◌==◌, eq_iff,
  if◌then◌else◌, is_some, Bool-cases, inl, inr, [], ◌∷◌, ==_self, sym, ap, ◌∙◌,
}
use bumper.Value.{str, Fields, end, field, update, value_eq}
use bumper.Value.Laws.{lookup-update_one}
use bumper.Models.{Datetime}
use bumper.Db.Rows.{Rows, IsKeyed, first_row, select, any_row, patch, drop_where, ids}
use bumper.Db.Rows.Laws.{head_row-select, is_some-first_row}
use bumper.Db.Rows.Removal.{drop_ids-select}
use bumper.Db.Tiny.{TinyDb, Documented, eq, both}
use bumper.Db.Repo.{get_first, get_multi, get_record, upsert_record, written}
use bumper.Db.Repo.Keyed.{is_key, is_key-update, is_key_other, matches-is_key, all-upsert_record}
use bumper.Db.Tokens.{
  of_user, token_of, get, verify, add_auth_code, verify_auth_code, revoke_all_for_user,
}
use bumper.Db.Tokens.Laws.{has_token, matches-has_token}

-- A document of the user that has the code in the field `f`.
abbrev pub has_code : String → String → String → Fields → Bool
has_code f u c d = is_key "userid" u d && is_key f c d

is_key-write :
    (f c e : String) (d : Fields) → is_key f e (update d (field f (str c) end)) ≡ (c == e)
unfolding value_eq
is_key-write f c e d = rw (lookup-update_one f f (str c) d, ==_self f)

-- The test of a row after a code was written at the rows of the user `u`.
any_code-patch_same :
    (f u c e : String) (rs : Rows)
    → f ≢ "userid"
    → any_row (has_code f u e) (patch (is_key "userid" u) (field f (str c) end) rs)
      ≡ (any_row (is_key "userid" u) rs && (c == e))
any_code-patch_same f u c e [] ne = refl
any_code-patch_same f u c e (r ∷ rs) ne = elim (Bool-cases (is_key "userid" u r.fields)) [
  | inl h ↦
      rw
        (
          h,
          is_key-update "userid" f u (str c) r.fields ne,
          h,
          is_key-write f c e r.fields,
          any_code-patch_same f u c e rs ne,
        )
        (absorb (c == e) (any_row (is_key "userid" u) rs))
  | inr h ↦ rw (h, h, any_code-patch_same f u c e rs ne)
]
  where
    absorb : (a b : Bool) → (a || (b && a)) ≡ a
    absorb a b = ground arith

any_code-patch_other :
    (f u w c e : String) (rs : Rows)
    → f ≢ "userid"
    → w ≢ u
    → any_row (has_code f w e) (patch (is_key "userid" u) (field f (str c) end) rs)
      ≡ any_row (has_code f w e) rs
any_code-patch_other f u w c e [] ne nw = refl
any_code-patch_other f u w c e (r ∷ rs) ne nw = elim (Bool-cases (is_key "userid" u r.fields)) [
  | inl h ↦ rw (
    h,
    is_key-update "userid" f w (str c) r.fields ne,
    is_key_other "userid" w u r.fields nw h,
    any_code-patch_other f u w c e rs ne nw,
  )
  | inr h ↦ rw (h, any_code-patch_other f u w c e rs ne nw)
]

any_code-none :
    (f u e : String) (rs : Rows)
    → any_row (is_key "userid" u) rs ≡ false
    → any_row (has_code f u e) rs ≡ false
any_code-none f u e [] h = refl
any_code-none f u e (r ∷ rs) h = ground (arith, any_code-none f u e rs)

code_key : ◌≢◌ {A = String} "auth_code" "userid"
code_key = ground (arith, eq_iff "auth_code" "userid")

first_row-none :
    (u k : String) (rs : Rows)
    → first_row (has_token u k) (drop_where (is_key "userid" u) rs) ≡ none
first_row-none u k [] = refl
first_row-none u k (r ∷ rs) = ground (arith, first_row-none u k rs)

first_row-keep :
    (u w k : String) (rs : Rows)
    → (u == w) ≡ false
    → first_row (has_token w k) (drop_where (is_key "userid" u) rs) ≡ first_row (has_token w k) rs
first_row-keep u w k [] h = refl
first_row-keep u w k (r ∷ rs) h = elim (Bool-cases (is_key "userid" u r.fields)) [
  | inl e ↦ rw (
    e,
    is_key_other "userid" w u r.fields (λ p. cc (h, ==_self u, p)) e,
    first_row-keep u w k rs h,
  )
  | inr e ↦ rw (e, first_row-keep u w k rs h)
]

and_false : (b : Bool) → (b && false) ≡ false
and_false b = ground arith

module _ ⦃db : TinyDb⦄ ⦃laws : Documented db⦄ where
  pub verify_auth_code_lem :
      (u c : String) (t : db.Table)
      → verify_auth_code u c t ≡ any_row (has_code "auth_code" u c) (db.all t)
  unfolding verify_auth_code
  verify_auth_code_lem u c t =
      laws.contains_any (both (of_user u) (eq "auth_code" (str c))) t
      ∙ ap (λ (p : Fields → Bool). any_row p (db.all t))
          (fun_ext
            λ d. rw (laws.matches-both, matches-is_key "userid" u, matches-is_key "auth_code" c))

  pub first_of_user :
      (u : String) (t : db.Table)
      → is_some (get_first (of_user u) t) ≡ any_row (is_key "userid" u) (db.all t)
  unfolding get_first
  first_of_user u t =
      rw
        (
          laws.search_select,
          matches-is_key "userid" u,
          head_row-select (is_key "userid" u) (db.all t),
        )
        (is_some-first_row (is_key "userid" u) (db.all t))

  written-any :
      (p : Fields → Bool) (rs : Rows) → any_row p rs ≡ true → written (ids (select p rs)) ≡ true
  written-any p [] h = cc
  written-any p (r ∷ rs) h = elim (Bool-cases (p r.fields)) [
    | inl e ↦ rw e
    | inr e ↦ rw e (written-any p rs (rw e at h))
  ]

  -- A code is written exactly where the user has a token.
  pub written-add_auth_code :
      (u c : String) (t : db.Table)
      → (add_auth_code u c t).0 ≡ any_row (is_key "userid" u) (db.all t)
  unfolding add_auth_code upsert_record
  written-add_auth_code u c t =
      rw first_of_user (elim (Bool-cases (any_row (is_key "userid" u) (db.all t))) [
        | inl h ↦
            rw (h, laws.ids-upsert, matches-is_key "userid" u, h)
              (written-any (is_key "userid" u) (db.all t) h)
        | inr h ↦ rw h
      ])

  after_write :
      (u w c e : String) (t : db.Table)
      → any_row (is_key "userid" u) (db.all t) ≡ true
      → ((u == w) ≡ true) ⊎ ((u == w) ≡ false)
      → verify_auth_code w e (upsert_record (some (field "auth_code" (str c) end)) (of_user u) t).1
        ≡ (if (u == w) && true then c == e else verify_auth_code w e t)
  after_write u w c e t h (inl same) =
      let p : u ≡ w = (eq_iff u w).0 same in
      rw (← p, ==_self u, verify_auth_code_lem, all-upsert_record, h)
        (any_code-patch_same "auth_code" u c e (db.all t) code_key ∙ rw h)
  after_write u w c e t h (inr other) =
      rw (other, verify_auth_code_lem, all-upsert_record, h)
        (any_code-patch_other "auth_code" u w c e (db.all t) code_key
            (λ p. cc (other, ==_self u, p))
          ∙ sym (verify_auth_code_lem w e t))

  all-revoke_all :
      (u : String) (t : db.Table)
      → IsKeyed (db.all t)
      → db.all (revoke_all_for_user u t) ≡ drop_where (is_key "userid" u) (db.all t)
  unfolding revoke_all_for_user get_multi
  all-revoke_all u t keyed =
      rw (laws.all-remove_ids, laws.search_select, matches-is_key "userid" u)
        (drop_ids-select (is_key "userid" u) (db.all t) keyed)

  get_lem :
      (dt : Datetime) (u k : String) (t : db.Table)
      → get dt u k t ≡ token_of dt (first_row (has_token u k) (db.all t))
  unfolding get get_record
  get_lem dt u k t = rw (laws.get_first, matches-has_token u k)

  -- A code that is added to a user who has a token is the one code accepted of that user from
  -- then on. Nothing changes for another user, nor for a user without a token.
  pub verify_auth_code-add :
      (u w c e : String) (t : db.Table)
      → verify_auth_code w e (add_auth_code u c t).1 ≡ (
          if (u == w) && any_row (is_key "userid" u) (db.all t)
          then c == e
          else verify_auth_code w e t)
  unfolding add_auth_code
  verify_auth_code-add u w c e t =
      rw first_of_user (elim (Bool-cases (any_row (is_key "userid" u) (db.all t))) [
        | inl h ↦ rw h (after_write u w c e t h (Bool-cases (u == w)))
        | inr h ↦ rw (h, and_false (u == w))
      ])

  -- In a table whose identifiers differ: after all tokens of a user are revoked, none of that user
  -- verifies, and the tokens of others verify as before.
  pub verify-revoke_all :
      (dt : Datetime) (now : ℕ) (u w k : String) (t : db.Table)
      → IsKeyed (db.all t)
      → verify dt now w k (revoke_all_for_user u t)
        ≡ (if u == w then some false else verify dt now w k t)
  unfolding verify
  verify-revoke_all dt now u w k t keyed =
      rw (get_lem dt w k (revoke_all_for_user u t), get_lem dt w k t, all-revoke_all u t keyed)
        (elim (Bool-cases (u == w)) [
          | inl h ↦
              rw h (let p : u ≡ w = (eq_iff u w).0 h in rw (← p, first_row-none u k (db.all t)))
          | inr h ↦ rw (h, first_row-keep u w k (db.all t) h)
        ])
