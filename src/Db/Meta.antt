-- ===== src/Db/Meta.antt =====
-- The version of the database file, `bumper/db/db.py`: one document of the table `_meta`.
use bumper.Base.{String, Option, none, some, if◌then◌else◌}
use bumper.Value.{Value, null, str, end, field, lookup_or}
use bumper.Db.Rows.{Document}
use bumper.Db.Tiny.{TinyDb, Query, eq}
use bumper.Db.Repo.{get_record, is_found}

abbrev pub version_query : Query
version_query = eq "key" (str "db_version")

abbrev pub version_in : Option Document → Value
version_in none = null
version_in (some r) = lookup_or "value" null r.fields

module _ ⦃db : TinyDb⦄ where
  -- An empty document counts as none; `null` is `None`.
  unfoldable pub get_db_version : db.Table → Value
  get_db_version meta =
      let found = get_record version_query meta in if is_found found then version_in found else null

  unfoldable pub set_db_version : String → db.Table → db.Table
  set_db_version version meta =
      (db.upsert (field "key" (str "db_version") (field "value" (str version) end)) version_query
        meta).1
