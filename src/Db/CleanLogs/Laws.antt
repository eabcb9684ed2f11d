-- ===== src/Db/CleanLogs/Laws.antt =====
-- What the repository of clean logs promises.
use mathlib.Core.Path.{fun_ext}
use bumper.Base.{
  ℕ, eq_iff, ==_self, String, ◌==◌, sym, ◌∙◌, if◌then◌else◌, ◌≡◌, Bool, true, false, some, [], ◌∷◌,
  ◌++◌, arith, ◌&&◌, Bool-cases, inl, inr,
}
use bumper.Value.{str, Fields, lookup, value_eq, update}
use bumper.Models.CleanLog.{CleanLog, log_to_db}
use bumper.Db.Rows.{Rows, any_row, patch}
use bumper.Db.Rows.Removal.{AtMostOne}
use bumper.Db.Rows.Unique.{AtMostOne-append, any_row-patch, AtMostOne-patch}
use bumper.Db.Tiny.{TinyDb, Documented}
use bumper.Db.Repo.{upsert_record}
use bumper.Db.Rows.Laws.{any_row-append}
use bumper.Value.Laws.{lookup-insert}
use bumper.Db.Repo.Keyed.{is_key, is_key-lookup, matches-is_key}
use bumper.Db.CleanLogs.{same_log, add_or_update}

-- The document of the log with this identifier and this type.
abbrev pub has_log : String → String → Fields → Bool
has_log i type d = is_key "clean_log_id" i d && is_key "type" type d

-- No two documents hold a log of the same identifier and type.
abbrev pub UniqueLogs : Rows → Type 0
UniqueLogs rs = (i type : String) → AtMostOne (has_log i type) rs

has_log-update :
    (l : CleanLog) (d : Fields) (i type j u : String)
    → l.clean_log_id ≡ str i
    → l.type ≡ str type
    → has_log j u (update d (log_to_db l)) ≡ ((i == j) && (type == u))
unfolding log_to_db update value_eq
has_log-update l d i type j u id kind = simp (lookup-insert, id, kind)

has_log-new :
    (l : CleanLog) (i type j u : String)
    → l.clean_log_id ≡ str i
    → l.type ≡ str type
    → has_log j u (log_to_db l) ≡ ((i == j) && (type == u))
unfolding log_to_db lookup value_eq
has_log-new l i type j u id kind = rw (id, kind)

and_left : (a b : Bool) → (a && b) ≡ true → a ≡ true
and_left a b h = ground arith

and_right : (a b : Bool) → (a && b) ≡ true → b ≡ true
and_right a b h = ground arith

has_log-same :
    (d : Fields) (i type j u : String)
    → has_log i type d ≡ true
    → has_log j u d ≡ ((i == j) && (type == u))
unfolding value_eq
has_log-same d i type j u h =
    let p : lookup "clean_log_id" d ≡ some (str i) =
      is_key-lookup "clean_log_id" i d (and_left _ _ h) in
    let q : lookup "type" d ≡ some (str type) = is_key-lookup "type" type d (and_right _ _ h) in
    rw (p, q)

-- In the other documents no log is the same, in particular where the new one has its key.
fresh_key :
    (i type j u : String) (rs : Rows)
    → any_row (has_log i type) rs ≡ false
    → ((i == j) && (type == u)) ≡ true
    → any_row (has_log j u) rs ≡ false
fresh_key i type j u rs absent same =
    let p : i ≡ j = (eq_iff i j).0 (and_left _ _ same) in
    let q : type ≡ u = (eq_iff type u).0 (and_right _ _ same) in rw (← p, ← q) absent

-- The rows after the log was written.
abbrev rows_with : String → String → CleanLog → ℕ → Rows → Rows
rows_with i type l n rs =
    if any_row (has_log i type) rs
    then patch (has_log i type) (log_to_db l) rs
    else rs ++ record { doc_id = n; fields = log_to_db l } ∷ []

rows_with-Unique :
    (i type : String) (l : CleanLog) (n : ℕ) (rs : Rows)
    → l.clean_log_id ≡ str i
    → l.type ≡ str type
    → UniqueLogs rs
    → UniqueLogs (rows_with i type l n rs)
rows_with-Unique i type l n rs id kind h j u = elim (Bool-cases (any_row (has_log i type) rs)) [
  | inl e ↦ rw e (
      AtMostOne-patch (has_log j u) (has_log i type) (log_to_db l)
        (λ d k. has_log-update l d i type j u id kind ∙ sym (has_log-same d i type j u k)) rs
        (h j u))
  | inr e ↦ rw e (
      AtMostOne-append (has_log j u) rs (record { doc_id = n; fields = log_to_db l }) (h j u)
        (λ k. fresh_key i type j u rs e (sym (has_log-new l i type j u id kind) ∙ k)))
]

rows_with-any :
    (i type : String) (l : CleanLog) (n : ℕ) (rs : Rows)
    → l.clean_log_id ≡ str i
    → l.type ≡ str type
    → any_row (has_log i type) (rows_with i type l n rs) ≡ true
rows_with-any i type l n rs id kind = elim (Bool-cases (any_row (has_log i type) rs)) [
  | inl e ↦ rw e (
      any_row-patch (has_log i type) (has_log i type) (log_to_db l)
        (λ d k. has_log-update l d i type i type id kind ∙ sym (has_log-same d i type i type k)) rs
      ∙ e)
  | inr e ↦ rw (
    e,
    any_row-append (has_log i type) rs (record { doc_id = n; fields = log_to_db l }),
    has_log-new l i type i type id kind,
    ==_self i,
    ==_self type,
    e,
  )
]

module _ ⦃db : TinyDb⦄ ⦃laws : Documented db⦄ where
  all-add_or_update :
      (i type : String) (l : CleanLog) (t : db.Table)
      → l.clean_log_id ≡ str i
      → l.type ≡ str type
      → db.all (add_or_update l t) ≡ rows_with i type l (db.next t) (db.all t)
  unfolding add_or_update upsert_record
  all-add_or_update i type l t id kind =
      let m : db.matches (same_log (str i) (str type)) ≡ has_log i type =
        fun_ext λ d.
          rw (laws.matches-both, matches-is_key "clean_log_id" i, matches-is_key "type" type) in
      rw (id, kind, laws.all-upsert, m)

  -- For a log whose identifier and type are texts: where no two documents hold a log of the same
  -- identifier and type, this is so after it was added or updated, and one document holds it.
  pub add_or_update-UniqueLogs :
      (i type : String) (l : CleanLog) (t : db.Table)
      → l.clean_log_id ≡ str i
      → l.type ≡ str type
      → UniqueLogs (db.all t)
      → UniqueLogs (db.all (add_or_update l t))
        × (any_row (has_log i type) (db.all (add_or_update l t)) ≡ true)
  add_or_update-UniqueLogs i type l t id kind h = rw (all-add_or_update i type l t id kind) (
    rows_with-Unique i type l (db.next t) (db.all t) id kind h,
    rows_with-any i type l (db.next t) (db.all t) id kind,
  )
