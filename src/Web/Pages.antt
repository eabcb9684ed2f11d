-- ===== src/Web/Pages.antt =====
-- The pages of the server itself, `bumper/web/web_paths.py`: what they show of the tables, and the
-- removal of a record. Rendering is a call of jinja2; a handler that raises answers the internal
-- server error.
pub mod LogPage
pub mod Laws
use bumper.Base.{
  String, Bool, true, false, not, Option, none, some, is_some, List, [], ◌∷◌, ◌==◌, if◌then◌else◌,
  Exec, pure, raise, gets, modify, or_raise, ◌>>=◌, ◌>>◌,
}
use bumper.Settings.{Config}
use bumper.Text.{append}
use bumper.Value.{Value, str, obj, arr, Items, nil, cons, Fields, end, field}
use bumper.Models.{VacBotDevice, VacBotClient, BumperUser}
use bumper.Models.CleanLog.{CleanLog}
use bumper.Db.Tiny.{TinyDb}
use bumper.Db.Bots
use bumper.Db.Clients
use bumper.Db.Users
use bumper.Db.CleanLogs

pub record Store ⦃db : TinyDb⦄ : Type 0 where
  pub bots : db.Table
  pub clients : db.Table
  pub users : db.Table
  pub clean_logs : db.Table

abbrev bot_row : VacBotDevice → Value
bot_row b = obj (
    field "name" b.name (
      field "nick" b.nick (
        field "did" b.did (
          field "class_id" b.class_id (
            field "resource" b.resource (
              field "company" b.company (
                field "mqtt_connection" b.mqtt_connection
                  (field "xmpp_connection" b.xmpp_connection end))))))))

abbrev client_row : VacBotClient → Value
client_row c = obj (
    field "name" c.name (
      field "userid" c.userid (
        field "realm" c.realm (
          field "resource" c.resource (
            field "mqtt_connection" c.mqtt_connection
              (field "xmpp_connection" c.xmpp_connection end))))))

abbrev user_row : BumperUser → Value
user_row u =
    obj (field "username" u.username (field "userid" u.userid (field "devices" u.devices end)))

unfoldable pub rows {ℓ} : {A : Type ℓ} → (A → Value) → List A → Items
rows f [] = nil
rows f (x ∷ xs) = cons (f x) (rows f xs)

abbrev status : String → String → Value
status what entity_type = obj (field "status" (str (append what entity_type)) end)

abbrev pub removed : Bool → String → Value
removed found entity_type =
    status (if found then "failed to remove " else "successfully removed ") entity_type

abbrev some_left : List CleanLog → Bool
some_left [] = false
some_left (l ∷ ls) = true

abbrev found_log : Option (Option CleanLog) → Option Bool
found_log none = none
found_log (some o) = some (is_some o)

module _ ⦃db : TinyDb⦄ where
  -- `_get_context` of the tables that are shown whole.
  unfoldable pub bots_context : Store → Fields
  unfolding rows
  bots_context s = field "bots" (arr (rows bot_row (Bots.list_all s.bots))) end

  unfoldable pub clients_context : Store → Fields
  unfolding rows
  clients_context s = field "clients" (arr (rows client_row (Clients.list_all s.clients))) end

  unfoldable pub users_context : Store → Fields
  unfolding rows
  users_context s = field "users" (arr (rows user_row (Users.list_all s.users))) end

  -- `remove_func` and `get_func` for an identifier; the second may raise.
  abbrev remove_func : String → String → Store → Store
  remove_func entity_type id s =
      if entity_type == "bot"
      then record s { bots = Bots.remove id s.bots }
      else if entity_type == "client"
      then record s { clients = Clients.remove id s.clients }
      else if entity_type == "user"
      then record s { users = Users.remove id s.users }
      else record s { clean_logs = CleanLogs.remove_by_id id s.clean_logs }

  abbrev get_func : String → String → Store → Option Bool
  get_func entity_type id s =
      if entity_type == "bot"
      then some (is_some (Bots.get id s.bots))
      else if entity_type == "client"
      then some (is_some (Clients.get id s.clients))
      else if entity_type == "user"
      then some (is_some (Users.get_by_id id s.users))
      else found_log (CleanLogs.list_by_id id s.clean_logs)

  -- Without an identifier the removal is called without one, which raises.
  abbrev remove_one : String → Option String → Exec Store Value
  remove_one entity_type none = raise
  remove_one entity_type (some id) = if id == "" then raise else (do
    modify (remove_func entity_type id)
    found ← λ s. (get_func entity_type id s, s)
    pure (removed found entity_type))

  abbrev remove_logs : Exec Store Value
  remove_logs = do
    modify (λ s. record s { clean_logs = CleanLogs.clear s.clean_logs })
    left ← λ s. (CleanLogs.list_all s.clean_logs, s)
    pure (removed (some_left left) "clean_logs")

  -- `_handle_remove_entity`, with the identifier that the path holds.
  unfoldable pub remove_entity : String → Option String → Exec Store Value
  remove_entity entity_type entity_id =
      if entity_type == "clean_logs"
      then remove_logs
      else if entity_type == "bot"
      then remove_one "bot" entity_id
      else if entity_type == "client"
      then remove_one "client" entity_id
      else if entity_type == "user"
      then remove_one "user" entity_id
      else if entity_type == "clean_log"
      then remove_one "clean_log" entity_id
      else pure (status "not implemented for " entity_type)
