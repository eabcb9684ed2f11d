-- ===== src/Db/Users.antt =====
-- The repository of users, `bumper/db/users.py`. A call that raises the `TypeError` of
-- `update_list_field` gives none beside the table as it stands at that point.
pub mod Laws
use bumper.Base.{
  String, Bool, true, false, Option, none, some, List, [], ◌∷◌, if◌then◌else◌, is_some,
}
use bumper.Settings.{home_id}
use bumper.Value.{Value, str, cons, nil, Fields}
use bumper.Models.{BumperUser, new_user, user_as_dict, user_from_dict}
use bumper.Db.Rows.{Document, Rows}
use bumper.Db.Tiny.{TinyDb, Query, eq, any}
use bumper.Db.Repo.{upsert_record, get_record, remove_record, update_list_field}

abbrev pub user_of : Option Document → Option BumperUser
user_of none = none
user_of (some r) = some (user_from_dict r.fields)

abbrev users_of : Rows → List BumperUser
users_of [] = []
users_of (r ∷ rs) = user_from_dict r.fields ∷ users_of rs

-- The result of `update_list_field` is not used.
abbrev pub done : Option Bool → Option (Unit {0})
done none = none
done (some b) = some tt

module _ ⦃db : TinyDb⦄ where
  abbrev pub Outcome : Type 0
  Outcome = Option (Unit {0}) × db.Table

  unfoldable pub get_by_id : String → db.Table → Option BumperUser
  get_by_id user_id t = user_of (get_record (eq "userid" (str user_id)) t)

  unfoldable pub get_by_device_id : String → db.Table → Option BumperUser
  get_by_device_id device_id t = user_of (get_record (any "devices" (cons (str device_id) nil)) t)

  unfoldable pub get_by_home_id : String → db.Table → Option BumperUser
  get_by_home_id home t = user_of (get_record (any "homeids" (cons (str home) nil)) t)

  unfoldable pub list_all : db.Table → List BumperUser
  list_all t = users_of (db.all t)

  unfoldable pub remove : String → db.Table → db.Table
  remove user_id t = remove_record (eq "userid" (str user_id)) t

  -- The six list operations: a field, an item, and whether it is added or removed.
  unfoldable pub change : String → String → Value → Bool → db.Table → Outcome
  change f user_id item add t =
      let (r, t') = update_list_field (eq "userid" (str user_id)) f item add t in (done r, t')

  unfoldable pub add_device : String → String → db.Table → Outcome
  add_device user_id did t = change "devices" user_id (str did) true t

  unfoldable pub remove_device : String → String → db.Table → Outcome
  remove_device user_id did t = change "devices" user_id (str did) false t

  unfoldable pub add_bot : String → Value → db.Table → Outcome
  add_bot user_id did t = change "bots" user_id did true t

  unfoldable pub remove_bot : String → Value → db.Table → Outcome
  remove_bot user_id did t = change "bots" user_id did false t

  unfoldable pub add_home_id : String → String → db.Table → Outcome
  add_home_id user_id home t = change "homeids" user_id (str home) true t

  unfoldable pub remove_home_id : String → String → db.Table → Outcome
  remove_home_id user_id home t = change "homeids" user_id (str home) false t

  abbrev add_home_if : Bool → String → db.Table → Outcome
  add_home_if true user_id t = add_home_id user_id home_id t
  add_home_if false user_id t = (some tt, t)

  unfoldable pub add : String → db.Table → Outcome
  add user_id t =
      if is_some (get_by_id user_id t)
      then (some tt, t)
      else let (ok, t') =
          upsert_record (some (user_as_dict (new_user user_id))) (eq "userid" (str user_id)) t in
        add_home_if ok user_id t'
