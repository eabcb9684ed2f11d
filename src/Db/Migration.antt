-- ===== src/Db/Migration.antt =====
-- The migration of the database, `bumper/db/migration.py`. Copying the file is a call of `shutil`,
-- which may raise; the loop over the versions runs on fuel.
pub mod Flat
pub mod Laws
use bumper.Base.{
  ℕ, zero, suc, String, Bool, true, false, Option, none, some, List, [], ◌∷◌, ◌++◌, ◌==◌,
  if◌then◌else◌, Exec, pure, raise, modify, or_raise, raise_if, ◌>>=◌, ◌>>◌,
}
use bumper.Settings.{Config}
use bumper.Value.{
  Value, null, bool, num, str, obj, arr, Items, nil, cons, Fields, lookup_or, insert, value_eq,
  truthy,
}
use bumper.Db.Rows.{Document, Rows}
use bumper.Db.Tiny.{TinyDb}
use bumper.Db.Meta.{get_db_version, set_db_version}

-- The tables that a migration reads or writes, and the copies of them that were made.
pub record Database ⦃db : TinyDb⦄ : Type 0 where
  pub clean_logs : db.Table
  pub meta : db.Table
  pub backups : List (db.Table × db.Table)

-- `for log in logs`: none is the `MigrationError` at an entry that is no dictionary.
unfoldable pub flatten_items : Value → Items → Option (List Fields)
flatten_items did nil = some []
flatten_items did (cons v vs) =
    let rest = flatten_items did vs in
    elim v [
      | obj log ↦ elim rest [ none ↦ none | some ds ↦ some (insert "did" did log ∷ ds) ]
      | _ ↦ none
    ]

-- A document without logs gives none; `logs` that are no list are the other `MigrationError`.
unfoldable pub flatten_doc : Fields → Option (List Fields)
unfolding flatten_items
flatten_doc d = elim (lookup_or "logs" null d) [
  | null ↦ some []
  | arr logs ↦ flatten_items (lookup_or "did" null d) logs
  | _ ↦ none
]

abbrev both_lists : Option (List Fields) → Option (List Fields) → Option (List Fields)
both_lists none ds = none
both_lists (some ds) none = none
both_lists (some ds) (some es) = some (ds ++ es)

unfoldable pub flatten_rows : Rows → Option (List Fields)
unfolding flatten_doc
flatten_rows [] = some []
flatten_rows (r ∷ rs) = both_lists (flatten_doc r.fields) (flatten_rows rs)

-- How the loop over the versions ends.
pub data Ending : Type 0 where
  at_version : Value → Ending
  out_of_fuel : Ending

abbrev pub migration_0_2_3 : String
migration_0_2_3 = "0.2.3"

-- `MIGRATIONS[version]`, the version that it leads to; both lead there by the same function.
-- Outside is the `TypeError` at a list or a dictionary, which are no keys.
unfoldable pub next_version : Value → Option (Option String)
next_version (str v) =
    if v == "0.0.0"
    then some (some migration_0_2_3)
    else if v == "0.2.2"
    then some (some migration_0_2_3)
    else some none
next_version (obj d) = none
next_version (arr vs) = none
next_version v = some none

abbrev pub version_or_first : Value → Value
version_or_first v = if truthy v then v else str "0.0.0"

module _ ⦃db : TinyDb⦄ where
  -- `_migrate_clean_logs_0_2_2_to_0_2_3`: nothing is written before all is read.
  unfoldable pub migrate_clean_logs : Exec Database (Unit {0})
  unfolding flatten_rows
  migrate_clean_logs = do
    new_entries ← λ s. (flatten_rows (db.all s.clean_logs), s)
    modify (λ s. record s { clean_logs = db.truncate s.clean_logs })
    modify (λ s. record s { clean_logs = db.insert_multiple new_entries s.clean_logs })

  -- `_backup_db`; the flag says whether the file can be copied.
  unfoldable pub backup_db : Bool → Exec Database (Unit {0})
  backup_db false = raise
  backup_db true = modify (λ s. record s { backups = (s.clean_logs, s.meta) ∷ s.backups })

  abbrev set_version : String → Exec Database (Unit {0})
  set_version v = modify (λ s. record s { meta = set_db_version v s.meta })

  -- The body of the loop.
  unfoldable pub migrate_step : Bool → String → Exec Database (Unit {0})
  unfolding backup_db migrate_clean_logs
  migrate_step copies version = do backup_db copies; migrate_clean_logs; set_version version

  abbrev loop_on :
      Bool → (Value → Exec Database Ending) → Value → Option String → Exec Database Ending
  loop_on copies again version none = pure (at_version version)
  loop_on copies again version (some v) = do migrate_step copies v; again (str v)

  -- `while version in MIGRATIONS`
  unfoldable pub migrate_loop : Bool → ℕ → Value → Exec Database Ending
  unfolding next_version migrate_step
  migrate_loop copies zero version = pure out_of_fuel
  migrate_loop copies (suc n) version = do
    step ← or_raise (next_version version)
    loop_on copies (migrate_loop copies n) version step

  abbrev pub align : Config → Ending → Exec Database Ending
  align cfg out_of_fuel = pure out_of_fuel
  align cfg (at_version version) =
      if value_eq version (str cfg.app_version)
      then pure (at_version version)
      else (do set_version cfg.app_version; pure (at_version (str cfg.app_version)))

  -- `migrate_db`, with the version that it ends at.
  unfoldable pub migrate_db : Config → Bool → ℕ → Exec Database Ending
  migrate_db cfg copies fuel s =
      (migrate_loop copies fuel (version_or_first (get_db_version s.meta)) >>= align cfg) s
