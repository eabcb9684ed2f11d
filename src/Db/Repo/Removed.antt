-- ===== src/Db/Repo/Removed.antt =====
-- What is found by a key after the removal of the document of a key.
use bumper.Base.{
  String, ◌≡◌, refl, Bool, none, [], ◌∷◌, arith, ◌==◌, eq_iff, if◌then◌else◌, Option-cases,
  Bool-cases, inl, inr, sym, ◌∙◌,
}
use bumper.Value.{str, Fields}
use bumper.Db.Rows.{Rows, IsKeyed, first_row, drop_first}
use bumper.Db.Rows.Removal.{
  AtMostOne, drop_ids-first, first_row-drop_first, first_row-drop_first_other,
}
use bumper.Db.Tiny.{TinyDb, Documented, eq}
use bumper.Db.Repo.{get_record, remove_record}
use bumper.Db.Repo.Keyed.{is_key, get_record_lem, is_key_other, matches-is_key}

-- No two documents have the same value of the field.
abbrev pub UniqueKeys : String → Rows → Type 0
UniqueKeys f rs = (k : String) → AtMostOne (is_key f k) rs

drop_first-none : (p : Fields → Bool) (rs : Rows) → first_row p rs ≡ none → drop_first p rs ≡ rs
drop_first-none p [] h = refl
drop_first-none p (r ∷ rs) h = elim (Bool-cases (p r.fields)) [
  | inl e ↦ ground arith
  | inr e ↦ ground (arith, drop_first-none p rs)
]

module _ ⦃db : TinyDb⦄ ⦃laws : Documented db⦄ where
  get_lem :
      (f k : String) (t : db.Table) → db.get (eq f (str k)) t ≡ first_row (is_key f k) (db.all t)
  get_lem f k t = rw (laws.get_first, matches-is_key f k)

  pub all-remove_record :
      (f k : String) (t : db.Table)
      → IsKeyed (db.all t)
      → db.all (remove_record (eq f (str k)) t) ≡ drop_first (is_key f k) (db.all t)
  unfolding remove_record
  all-remove_record f k t keyed = elim (Option-cases (db.get (eq f (str k)) t)) [
    | inl e ↦ rw e (sym (drop_first-none (is_key f k) (db.all t) (sym (get_lem f k t) ∙ e)))
    | inr (r, e) ↦
        rw (e, laws.all-remove_ids)
          (drop_ids-first (is_key f k) (db.all t) r keyed (sym (get_lem f k t) ∙ e))
  ]

  -- Where documents are keyed, and unique by the field, a removal takes away what is found by its
  -- key, and nothing that is found by another.
  pub get_record-remove_record :
      (f k j : String) (t : db.Table)
      → IsKeyed (db.all t)
      → UniqueKeys f (db.all t)
      → get_record (eq f (str j)) (remove_record (eq f (str k)) t)
        ≡ (if k == j then none else get_record (eq f (str j)) t)
  get_record-remove_record f k j t keyed unique =
      rw
        (
          get_record_lem f j (remove_record (eq f (str k)) t),
          all-remove_record f k t keyed,
          get_record_lem f j t,
        )
        (elim (Bool-cases (k == j)) [
          | inl e ↦ rw e (
              let p : k ≡ j = (eq_iff k j).0 e in
              rw (← p) (first_row-drop_first (is_key f k) (db.all t) (unique k)))
          | inr e ↦ rw e (
              first_row-drop_first_other (is_key f k) (is_key f j) (db.all t)
                (λ d. is_key_other f j k d (ground (arith, eq_iff k j))))
        ])
