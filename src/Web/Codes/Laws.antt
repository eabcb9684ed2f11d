-- ===== src/Web/Codes/Laws.antt =====
-- A code that the service answers is a code that the brokers accept.
use bumper.Base.{
  ℕ, String, ◌≡◌, refl, ◌≢◌, Bool, true, false, Option, none, some, [], ◌∷◌, arith, get_or,
  Option-cases, Bool-cases, inl, inr, sym, ap, ◌∙◌, ==_self,
}
use bumper.Value.{Value, null, str, obj, Fields, lookup, lookup_or, insert}
use bumper.Value.Laws.{value_eq-str_self}
use bumper.Models.{BumperUser, Token, token_from_dict, token_at, parse_time}
use bumper.Db.Rows.{Document, Rows, first_row, any_row}
use bumper.Db.Rows.Laws.{head_row-select, first_row-match}
use bumper.Db.Tiny.{TinyDb, Documented}
use bumper.Db.Repo.{get_first}
use bumper.Db.Repo.Keyed.{is_key, matches-is_key}
use bumper.Db.Users
use bumper.Db.Tokens
use bumper.Db.Tokens.{of_user, token_of, token_read, add_auth_code, verify_auth_code}
use bumper.Db.Tokens.Codes.{
  has_code, verify_auth_code_lem, verify_auth_code-add, written-add_auth_code,
}
use bumper.Web.Response.{success_v2, error_v2}
use bumper.Web.Auth.{World, Env, revoke_expired}
use bumper.Web.Codes.{
  generate_auth_code, make_code, code_or_new, code_of, code_for, no_user, code_answer_v2, code_if,
  get_auth_code_v2,
}

-- The code in the body of an answer.
abbrev code_in : Option Value → Value
code_in (some (obj d)) = get_or (lookup "code" d) null
code_in v = null

abbrev pub success : Value → Value
success v = success_v2 v none "code" "result"

code_in-success : (v : Value) → code_in (some (success v)) ≡ v
unfolding lookup insert
code_in-success v = refl

code_in-error : (m c : String) → code_in (some (error_v2 m c)) ≡ null
unfolding lookup
code_in-error m c = refl

-- A row of the user that reads as a token with the code `code` has that code.
any_row-first_row :
    (p q : Fields → Bool) (rs : Rows) (r : Document)
    → first_row p rs ≡ some r
    → q r.fields ≡ true
    → any_row q rs ≡ true
any_row-first_row p q [] r h k = cc
any_row-first_row p q (s ∷ rs) r h k = elim (Bool-cases (p s.fields)) [
  | inl e ↦ ground arith
  | inr e ↦ ground (arith, any_row-first_row p q rs r)
]

token_code :
    (d : Fields) (o : Option ℕ) (t : Token)
    → token_at d o ≡ some t
    → t.auth_code ≡ get_or (lookup "auth_code" d) null
token_code d none t h = cc
token_code d (some e) t h = ground arith

held_code : (o : Option Value) (code : String) → get_or o null ≡ str code → o ≡ some (str code)
held_code none code h = cc
held_code (some v) code h = ap some h

str-injective : (s t : String) → str s ≡ str t → s ≡ t
str-injective s t h = cc

null-ne-str : (s : String) → null ≢ str s
null-ne-str s h = cc

none-ne-some : {v : Value} → ◌≢◌ {A = Option Value} none (some v)
none-ne-some h = cc

no_token : (k : Token) → ◌≢◌ {A = Option (Option Token)} (some none) (some (some k))
no_token k h = cc

module _ ⦃db : TinyDb⦄ ⦃laws : Documented db⦄ (env : Env) where
  answered_code :
      (b : Bool) (drawn code : String)
      → some (code_answer_v2 env (code_if env b drawn)) ≡ some (success (str code))
      → (b ≡ true) × (drawn ≡ code)
  answered_code true drawn code h = (
    refl,
    str-injective drawn code
        (sym (code_in-success (str drawn)) ∙ ap code_in h ∙ code_in-success (str code)),
  )
  answered_code false drawn code h = absurd (
      null-ne-str code
        (sym (code_in-error "Auth error" "1004") ∙ ap code_in h ∙ code_in-success (str code)))

  make_code-accepted :
      (u code : String) (w : World)
      → (make_code env u w).0 ≡ some (success (str code))
      → verify_auth_code u code (make_code env u w).1.tokens ≡ true
  unfolding generate_auth_code
  make_code-accepted u code w h =
      let (written, same) =
        answered_code (add_auth_code u (env.uuid w.drawn) w.tokens).0 (env.uuid w.drawn) code h in
      rw
        (
          verify_auth_code-add u u (env.uuid w.drawn) code w.tokens,
          ==_self u,
          sym (written-add_auth_code u (env.uuid w.drawn) w.tokens) ∙ written,
          same,
        )
        (==_self code)

  get_first_token_lem :
      (u : String) (t : db.Table)
      → Tokens.get_first_token env.dt u t
        ≡ token_of env.dt (first_row (is_key "userid" u) (db.all t))
  unfolding Tokens.get_first_token get_first
  get_first_token_lem u t = rw (
    laws.search_select,
    matches-is_key "userid" u,
    head_row-select (is_key "userid" u) (db.all t),
  )

  row_code :
      (u code : String) (r : Document) (k : Token)
      → is_key "userid" u r.fields ≡ true
      → token_from_dict env.dt r.fields ≡ some k
      → k.auth_code ≡ str code
      → has_code "auth_code" u code r.fields ≡ true
  unfolding token_from_dict
  row_code u code r k mine read c =
      rw
        (
          mine,
          held_code (lookup "auth_code" r.fields) code (
              sym (
                token_code r.fields (parse_time env.dt (lookup_or "expiration" (str "") r.fields)) k
                  read)
              ∙ c),
        )
        (value_eq-str_self code)

  read_token : (o : Option Token) (k : Token) → token_read o ≡ some (some k) → o ≡ some k
  read_token none k h = cc
  read_token (some x) k h = cc

  first_token-code :
      (u code : String) (t : db.Table) (k : Token)
      → Tokens.get_first_token env.dt u t ≡ some (some k)
      → k.auth_code ≡ str code
      → verify_auth_code u code t ≡ true
  first_token-code u code t k h c =
      rw (verify_auth_code_lem u code t)
        (elim (Option-cases (first_row (is_key "userid" u) (db.all t))) [
          | inl absent ↦
              absurd
                (no_token k (sym (ap (token_of env.dt) absent) ∙ sym (get_first_token_lem u t) ∙ h))
          | inr (r, found) ↦
              any_row-first_row (is_key "userid" u) (has_code "auth_code" u code) (db.all t) r found
                (row_code u code r k (first_row-match (is_key "userid" u) (db.all t) r found)
                  (read_token (token_from_dict env.dt r.fields) k
                    (sym (ap (token_of env.dt) found) ∙ sym (get_first_token_lem u t) ∙ h))
                  c)
        ])

  code_or_new-accepted :
      (u code : String) (w : World) (k : Option Token)
      → Tokens.get_first_token env.dt u w.tokens ≡ some k
      → (code_or_new env u (code_of env k) w).0 ≡ some (success (str code))
      → verify_auth_code u code (code_or_new env u (code_of env k) w).1.tokens ≡ true
  code_or_new-accepted u code w none h answer = make_code-accepted u code w answer
  code_or_new-accepted u code w (some k) h answer = by_code k.auth_code refl answer
    where
      by_code :
          (v : Value)
          → k.auth_code ≡ v
          → (code_or_new env u v w).0 ≡ some (success (str code))
          → verify_auth_code u code (code_or_new env u v w).1.tokens ≡ true
      by_code null e answer = make_code-accepted u code w answer
      by_code v e answer =
          first_token-code u code w.tokens k h
            (e ∙ sym (code_in-success v) ∙ ap code_in answer ∙ code_in-success (str code))

  code_for-accepted :
      (u code : String) (user : Option BumperUser) (w : World)
      → (code_for env (some u) user w).0 ≡ some (success (str code))
      → verify_auth_code u code (code_for env (some u) user w).1.tokens ≡ true
  unfolding revoke_expired
  code_for-accepted u code none w answer = absurd (
      null-ne-str code (
        sym (code_in-error (no_user env (some u)) "1004")
        ∙ ap code_in answer
        ∙ code_in-success (str code)))
  code_for-accepted u code (some user) w answer =
      elim (Option-cases (Tokens.get_first_token env.dt u (revoke_expired env u w).1.tokens)) [
        | inl broken ↦ absurd (none-ne-some (rw broken at answer))
        | inr (k, found) ↦
            rw found
              (code_or_new-accepted u code (revoke_expired env u w).1 k found (rw found at answer))
      ]

  -- The code that `get_auth_code_v2` answers to a user is a code that the repository verifies for
  -- that user right afterwards, whether it was there or is new.
  pub get_auth_code_v2-accepted :
      (u code : String) (w : World)
      → (get_auth_code_v2 env (some u) w).0 ≡ some (success (str code))
      → verify_auth_code u code (get_auth_code_v2 env (some u) w).1.tokens ≡ true
  unfolding get_auth_code_v2
  get_auth_code_v2-accepted u code w answer =
      code_for-accepted u code (Users.get_by_id u w.users) w answer
