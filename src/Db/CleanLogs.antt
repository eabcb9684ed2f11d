-- ===== src/Db/CleanLogs.antt =====
-- The repository of clean logs, `bumper/db/clean_logs.py`, and what a robot's report of statistics
-- adds to it, `clean_log` of `bumper/mqtt/handle_atr.py`.
pub mod Laws
use bumper.Base.{
  String, ◌≡◌, Bool, true, false, Option, none, some, List, [], ◌∷◌, if◌then◌else◌, ◌==◌,
}
use bumper.Value.{Value, null, str, obj, arr, Fields, end, lookup, value_eq, Json, shown}
use bumper.Models.CleanLog.{CleanLog, log_to_db, log_from_db, log_from_dict, get}
use bumper.Db.Rows.{Document, Rows}
use bumper.Db.Tiny.{TinyDb, Query, eq, both}
use bumper.Db.Repo.{upsert_record, get_record, get_multi, remove_record}

-- Reading all documents raises at the first one that cannot be read.
abbrev read_next : Option CleanLog → Option (List CleanLog) → Option (List CleanLog)
read_next none ls = none
read_next (some l) none = none
read_next (some l) (some ls) = some (l ∷ ls)

unfoldable pub logs_of : Rows → Option (List CleanLog)
logs_of [] = some []
logs_of (r ∷ rs) = read_next (log_from_db r.fields) (logs_of rs)

-- Outside is the exception, inside what is found.
abbrev log_of : Option Document → Option (Option CleanLog)
log_of none = some none
log_of (some r) = elim (log_from_db r.fields) [ none ↦ none | some l ↦ some (some l) ]

abbrev pub same_log : Value → Value → Query
same_log clean_log_id type = both (eq "clean_log_id" clean_log_id) (eq "type" type)

-- `d.get(key, {})`
abbrev get_or_empty : String → Fields → Value
get_or_empty k d = elim (lookup k d) [ none ↦ obj end | some v ↦ v ]

-- `value.get(key)`: none is the `AttributeError` of what is no dictionary.
abbrev get_of : String → Value → Option Value
get_of k (obj d) = some (get k d)
get_of k v = none

abbrev is_null : Value → Bool
is_null null = true
is_null v = false

module _ ⦃db : TinyDb⦄ where
  unfoldable pub add_or_update : CleanLog → db.Table → db.Table
  add_or_update log t =
      (upsert_record (some (log_to_db log)) (same_log log.clean_log_id log.type) t).1

  unfoldable pub list_by_did : String → db.Table → Option (List CleanLog)
  list_by_did did t = logs_of (get_multi (eq "did" (str did)) t)

  unfoldable pub list_by_id : String → db.Table → Option (Option CleanLog)
  list_by_id clean_log_id t = log_of (get_record (eq "clean_log_id" (str clean_log_id)) t)

  unfoldable pub list_all : db.Table → Option (List CleanLog)
  list_all t = logs_of (db.all t)

  unfoldable pub clear : db.Table → db.Table
  clear t = db.truncate t

  unfoldable pub remove_by_id : String → db.Table → db.Table
  remove_by_id clean_log_id t = remove_record (eq "clean_log_id" (str clean_log_id)) t

  -- The report that is kept, where the payload holds one.
  abbrev log_of_data : Json → String → String → Value → Option CleanLog
  log_of_data json did rid (obj data') =
      if is_null (get "cid" data')
      then none
      else if value_eq (get "cid" data') (str "111")
      then none
      else if is_null (get "start" data')
      then none
      else some (log_from_dict (shown json) did rid data')
  log_of_data json did rid v = none

  -- none is the exception at a `body` that is no dictionary.
  abbrev log_of_body : Json → String → String → Option Value → Option (Option CleanLog)
  log_of_body json did rid none = none
  log_of_body json did rid (some data') = some (log_of_data json did rid data')

  abbrev log_of_report : Json → String → String → Option Value → Option (Option CleanLog)
  log_of_report json did rid none = none
  log_of_report json did rid (some (obj res)) =
      log_of_body json did rid (get_of "data" (get_or_empty "body" res))
  log_of_report json did rid (some v) = some none

  abbrev keep_log : Option (Option CleanLog) → db.Table → Option (Unit {0}) × db.Table
  keep_log none t = (none, t)
  keep_log (some none) t = (some tt, t)
  keep_log (some (some log)) t = (some tt, add_or_update log t)

  -- `clean_log`: whether it raised, and the table.
  unfoldable pub clean_log :
      Json → String → String → String → db.Table → Option (Unit {0}) × db.Table
  unfolding add_or_update
  clean_log json did rid payload t = keep_log (log_of_report json did rid (json.loads payload)) t
