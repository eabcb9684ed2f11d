-- ===== src/Db/Bots/Unique.antt =====
-- Bots stay unique by their `did`, and a removed bot is gone.
use bumper.Base.{
  String, ◌≡◌, refl, true, false, none, ◌==◌, eq_iff, if◌then◌else◌, is_some, Option-cases,
  Bool-cases, inl, inr, sym, ap, ◌∙◌,
}
use bumper.Value.{str, value_eq}
use bumper.Models.{bot_as_dict}
use bumper.Db.Rows.{Rows, IsKeyed, any_row}
use bumper.Db.Rows.Laws.{is_some-first_row}
use bumper.Db.Rows.Unique.{AtMostOne-append, AtMostOne-drop_first}
use bumper.Db.Tiny.{TinyDb, Documented, eq}
use bumper.Db.Repo.{get_record}
use bumper.Db.Repo.Keyed.{is_key, get_record_lem, all-upsert_record, is_found-get_record}
use bumper.Db.Repo.Removed.{UniqueKeys, all-remove_record, get_record-remove_record}
use bumper.Db.Bots.{add, get, remove}
use bumper.Db.Bots.Laws.{added, did-added}

-- No two documents have the same `did`.
abbrev pub UniqueBots : Rows → Type 0
UniqueBots rs = UniqueKeys "did" rs

module _ ⦃db : TinyDb⦄ ⦃laws : Documented db⦄ where
  -- In a table whose identifiers differ and in which no two documents have the same `did`: after a
  -- bot was removed nothing is found under its `did`, and under any other the same as before.
  pub get-remove :
      (did j : String) (t : db.Table)
      → IsKeyed (db.all t)
      → UniqueBots (db.all t)
      → get j (remove did t) ≡ (if did == j then none else get j t)
  unfolding get remove
  get-remove did j t keyed unique =
      rw (get_record-remove_record "did" did j t keyed unique)
        (elim (Bool-cases (did == j)) [ inl e ↦ rw e refl | inr e ↦ rw e refl ])

  new_key :
      (name did class_id resource company j : String) (rs : Rows)
      → any_row (is_key "did" did) rs ≡ false
      → is_key "did" j (bot_as_dict (added name did class_id resource company)) ≡ true
      → any_row (is_key "did" j) rs ≡ false
  unfolding value_eq
  new_key name did class_id resource company j rs absent h =
      let e : (did == j) ≡ true = rw (did-added name did class_id resource company) at h in
      let p : did ≡ j = (eq_iff did j).0 e in rw (← p) absent

  add-UniqueBots :
      (name did class_id resource company : String) (t : db.Table)
      → UniqueBots (db.all t)
      → UniqueBots (db.all (add name did class_id resource company t))
  unfolding add
  add-UniqueBots name did class_id resource company t unique =
      elim (Option-cases (get_record (eq "did" (str did)) t)) [
        | inr (r, present) ↦ rw (is_found-get_record "did" did t, present) unique
        | inl absent ↦
            let none_yet : any_row (is_key "did" did) (db.all t) ≡ false =
              sym (is_some-first_row (is_key "did" did) (db.all t))
              ∙ ap is_some (sym (get_record_lem "did" did t) ∙ absent) in
            rw
              (
                is_found-get_record "did" did t,
                absent,
                all-upsert_record (bot_as_dict (added name did class_id resource company)) "did" did
                    t,
                none_yet,
              )
              (λ j.
                AtMostOne-append (is_key "did" j) (db.all t)
                  (record {
                    doc_id = db.next t;
                    fields = bot_as_dict (added name did class_id resource company);
                  })
                  (unique j) (new_key name did class_id resource company j (db.all t) none_yet))
      ]

  -- Bots that are unique by their `did` are so after one was added, whether or not it was there,
  -- and after one was removed, in a table whose identifiers differ.
  pub add-remove-UniqueBots :
      (name did class_id resource company : String) (t : db.Table)
      → IsKeyed (db.all t)
      → UniqueBots (db.all t)
      → UniqueBots (db.all (add name did class_id resource company t))
        × UniqueBots (db.all (remove did t))
  unfolding add remove
  add-remove-UniqueBots name did class_id resource company t keyed unique = (
    add-UniqueBots name did class_id resource company t unique,
    rw (all-remove_record "did" did t keyed)
        (λ j. AtMostOne-drop_first (is_key "did" j) (is_key "did" did) (db.all t) (unique j)),
  )
