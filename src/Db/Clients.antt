-- ===== src/Db/Clients.antt =====
-- The repository of clients, `bumper/db/clients.py`.
pub mod Laws
use bumper.Base.{String, Bool, false, Option, none, some, List, [], ◌∷◌, if◌then◌else◌, get_or}
use bumper.Value.{Value, null, bool, str, end, field, lookup}
use bumper.Models.{VacBotClient, new_client, client_as_dict, client_from_dict}
use bumper.Db.Rows.{Document, Rows}
use bumper.Db.Tiny.{TinyDb, eq}
use bumper.Db.Repo.{upsert_record, get_record, remove_record, is_found}

abbrev pub client_of : Option Document → Option VacBotClient
client_of none = none
client_of (some r) = some (client_from_dict r.fields)

abbrev clients_of : Rows → List VacBotClient
clients_of [] = []
clients_of (r ∷ rs) = client_from_dict r.fields ∷ clients_of rs

module _ ⦃db : TinyDb⦄ where
  -- `name or ""`
  unfoldable pub add : Option String → String → String → String → db.Table → db.Table
  add name user_id realm resource t =
      let q = eq "userid" (str user_id) in
      let client = new_client (get_or name "") user_id realm resource in
      if is_found (get_record q t) then t else (upsert_record (some (client_as_dict client)) q t).1

  unfoldable pub get : String → db.Table → Option VacBotClient
  get user_id t = client_of (get_record (eq "userid" (str user_id)) t)

  unfoldable pub list_all : db.Table → List VacBotClient
  list_all t = clients_of (db.all t)

  unfoldable pub remove : String → db.Table → db.Table
  remove user_id t = remove_record (eq "userid" (str user_id)) t

  unfoldable pub set_mqtt : Value → Bool → db.Table → db.Table
  set_mqtt user_id mqtt t =
      (upsert_record (some (field "mqtt_connection" (bool mqtt) end)) (eq "userid" user_id) t).1

  unfoldable pub set_xmpp : Value → Bool → db.Table → db.Table
  set_xmpp user_id xmpp t =
      (upsert_record (some (field "xmpp_connection" (bool xmpp) end)) (eq "userid" user_id) t).1

  unfoldable pub reset_rows : Rows → db.Table → db.Table
  unfolding set_mqtt set_xmpp
  reset_rows [] t = t
  reset_rows (r ∷ rs) t =
      let user = get_or (lookup "userid" r.fields) null in
      reset_rows rs (set_xmpp user false (set_mqtt user false t))

  unfoldable pub reset_all_connections : db.Table → db.Table
  unfolding reset_rows
  reset_all_connections t = reset_rows (db.all t) t
