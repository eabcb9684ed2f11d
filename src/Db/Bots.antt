-- ===== src/Db/Bots.antt =====
-- The repository of bots, `bumper/db/bots.py`.
pub mod Laws
pub mod Unique
use bumper.Base.{
  String, Bool, true, false, Option, none, some, List, [], ◌∷◌, if◌then◌else◌, get_or,
}
use bumper.Value.{Value, null, bool, str, Fields, end, field, lookup}
use bumper.Models.{VacBotDevice, new_bot, bot_as_dict, bot_from_dict}
use bumper.Db.Rows.{Document, Rows}
use bumper.Db.Tiny.{TinyDb, Query, eq}
use bumper.Db.Repo.{upsert_record, get_record, remove_record, is_found}

abbrev pub bot_of : Option Document → Option VacBotDevice
bot_of none = none
bot_of (some r) = some (bot_from_dict r.fields)

abbrev bots_of : Rows → List VacBotDevice
bots_of [] = []
bots_of (r ∷ rs) = bot_from_dict r.fields ∷ bots_of rs

module _ ⦃db : TinyDb⦄ where
  unfoldable pub add : String → String → String → String → String → db.Table → db.Table
  add name did class_id resource company t =
      let q = eq "did" (str did) in
      let bot = new_bot did name resource company in
      if is_found (get_record q t)
      then t
      else (upsert_record (some (bot_as_dict (record bot { class_id = str class_id }))) q t).1

  unfoldable pub get : String → db.Table → Option VacBotDevice
  get did t = bot_of (get_record (eq "did" (str did)) t)

  unfoldable pub list_all : db.Table → List VacBotDevice
  list_all t = bots_of (db.all t)

  unfoldable pub remove : String → db.Table → db.Table
  remove did t = remove_record (eq "did" (str did)) t

  -- `_set_field`: without a `did` it warns and writes nothing.
  unfoldable pub set_field : Value → String → Value → db.Table → db.Table
  set_field null f v t = t
  set_field did f v t = (upsert_record (some (field f v end)) (eq "did" did) t).1

  unfoldable pub set_nick : Value → String → db.Table → db.Table
  set_nick did nick t = set_field did "nick" (str nick) t

  unfoldable pub set_mqtt : Value → Bool → db.Table → db.Table
  set_mqtt did mqtt t = set_field did "mqtt_connection" (bool mqtt) t

  unfoldable pub set_xmpp : Value → Bool → db.Table → db.Table
  set_xmpp did xmpp t = set_field did "xmpp_connection" (bool xmpp) t

  unfoldable pub reset_rows : Rows → db.Table → db.Table
  unfolding set_mqtt set_xmpp
  reset_rows [] t = t
  reset_rows (r ∷ rs) t =
      let bot_id = get_or (lookup "did" r.fields) null in
      reset_rows rs (set_xmpp bot_id false (set_mqtt bot_id false t))

  unfoldable pub reset_all_connections : db.Table → db.Table
  unfolding reset_rows
  reset_all_connections t = reset_rows (db.all t) t
