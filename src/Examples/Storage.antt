-- ===== src/Examples/Storage.antt =====
-- The migration of the database at concrete tables.
use bumper.Base.{◌≡◌, refl, ◌≢◌, true, false, some, List, [], ◌∷◌}
use bumper.Settings.{Config}
use bumper.Value.{pos, Value, num, str, obj, arr, nil, cons, Fields, end, field}
use bumper.Db.Rows.{Rows, contents}
use bumper.Db.Meta.{get_db_version}
use bumper.Db.Migration.{Database, Ending, at_version, out_of_fuel, migrate_db}
use bumper.Db.Migration.Flat.{
  Flat, no_documents, a_document, without_logs, with_logs, a_log, no_logs,
}
use bumper.Db.Migration.Laws.{migrate_db-ends, migrate_db-migrated}
use bumper.Examples.Memory.{memory, memory_laws}

abbrev config : Config
config = record { use_auth = true; proxy_mqtt = false; sync_timezone = true; app_version = "0.2.5" }

abbrev log : Fields
log = field "clean_log_id" (str "bot@17@r") (field "ts" (num (pos 17)) end)

abbrev old_logs : Rows
old_logs =
    record {
      doc_id = 1;
      fields =
          field "did" (str "bot") (field "logs" (arr (cons (obj log) (cons (obj log) nil))) end);
    }
    ∷ record { doc_id = 2; fields = field "did" (str "mop") end }
    ∷ []

abbrev bad_logs : Rows
bad_logs = record { doc_id = 1; fields = field "logs" (str "none") end } ∷ old_logs

abbrev old : Database
old = record { clean_logs = old_logs; meta = []; backups = [] }

abbrev bad : Database
bad = record old { clean_logs = bad_logs }

abbrev flat : List Fields
flat =
    field "clean_log_id" (str "bot@17@r") (field "ts" (num (pos 17)) (field "did" (str "bot") end))
    ∷ field "clean_log_id" (str "bot@17@r")
        (field "ts" (num (pos 17)) (field "did" (str "bot") end))
    ∷ []

migrate_db-ends_example :
    (migrate_db config true 7 old ≡ migrate_db config true 2 old)
    × ((migrate_db config true 7 old).0 ≢ some out_of_fuel)
migrate_db-ends_example = migrate_db-ends config true 5 old

-- The robot with two logs and the one without any.
old_logs-Flat : Flat old_logs flat
unfolding bumper.Value.lookup_or bumper.Value.lookup bumper.Value.insert
old_logs-Flat =
    a_document _ (with_logs _ refl (a_log log (a_log log no_logs)))
      (a_document _ (without_logs refl) no_documents)

migrate_db-migrated_example :
    let (r, s') = migrate_db config true 2 old in
    (r ≡ some (at_version (str "0.2.5")))
    × ((contents s'.clean_logs ≡ flat)
        × ((get_db_version s'.meta ≡ str "0.2.5") × (s'.backups ≡ (old_logs, []) ∷ [])))
unfolding bumper.Db.Migration.next_version bumper.Value.truthy get_db_version
    bumper.Db.Repo.get_record bumper.Db.Migration.flatten_rows bumper.Value.lookup_or
    bumper.Value.lookup bumper.Value.insert
migrate_db-migrated_example = migrate_db-migrated config 0 old flat refl old_logs-Flat
