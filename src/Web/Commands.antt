-- ===== src/Web/Commands.antt =====
-- Commands that arrive over the web, `handle_commands` of `bumper/web/plugins/api/iot.py`. What the
-- request holds is given: its query, its body, the identifier that is drawn for it, and the
-- messages that come while the command waits.
pub mod Laws
use bumper.Base.{
  String, Bool, true, false, ◌&&◌, ◌||◌, not, Option, none, some, List, [], ◌∷◌, ◌==◌,
  if◌then◌else◌, get_or,
}
use bumper.Value.{Value, null, bool, str, obj, Fields, end, field, insert, value_eq, truthy, Json}
use bumper.Models.{VacBotDevice}
use bumper.Db.Tiny.{TinyDb, eq}
use bumper.Db.Repo.{get_record}
use bumper.Db.Bots.{bot_of}
use bumper.Mqtt.Command.{Command, new_command, version_old, version_new}
use bumper.Mqtt.Helper.{CommandCache, Bot, send_command_plain}
use bumper.Mqtt.Helper.Send.{Response, json_response, send_command}
use bumper.Web.Response.{error_v7, error_v8}

pub record CommandRequest : Type 0 where
  pub query : Fields
  pub body : String
  pub request_id : String

abbrev body_fields : Option Value → Option Fields
body_fields (some (obj d)) = some d
body_fields o = none

abbrev with_payload : Fields → Option Value → Option Fields
with_payload query none = none
with_payload query (some v) = some (insert "payload" v query)

-- `json_body`: none is the exception at a body that is no JSON, or none that a command is read of.
abbrev json_body : Json → String → CommandRequest → Option Fields
json_body json version r =
    if version == version_old
    then body_fields (json.loads r.body)
    else if version == version_new
    then with_payload r.query (json.loads r.body)
    else some end

abbrev command_from : Json → String → String → Option Fields → Option Command
command_from json version request_id none = none
command_from json version request_id (some d) = new_command json request_id d version

unfoldable pub command_of : Json → String → CommandRequest → Option Command
command_of json version r = command_from json version r.request_id (json_body json version r)

abbrev is_null : Value → Bool
is_null null = true
is_null v = false

-- The bot speaks MQTT and, where that is looked at too, is connected.
abbrev pub accepts : Bool → VacBotDevice → Bool
accepts extended_check bot =
    value_eq bot.company (str "eco-ng")
    && not (
        extended_check
        && (not (value_eq bot.company (str "eco-ng")) || not (truthy bot.mqtt_connection)))

abbrev refused : Command → Response
refused cmd = json_response (error_v8 cmd.request_id "requested bot is not supported")

abbrev ok : Fields → Response
ok more = json_response (obj (field "ret" (str "ok") more))

abbrev unknown : Response
unknown = json_response error_v7

-- What is asked without a bot.
abbrev without_bot : Value → Response
without_bot td =
    if value_eq td (str "PollSCResult")
    then ok end
    else if value_eq td (str "HasUnreadMsg")
    then ok (field "unRead" (bool false) end)
    else if value_eq td (str "PreWifiConfig")
    then ok end
    else unknown

module _ ⦃db : TinyDb⦄ ⦃cc : CommandCache⦄ (json : Json) where
  abbrev answered : Command → Value × Bot → Response × Bot
  answered cmd (v, b) = (get_or (send_command json cmd v) unknown, b)

  abbrev for_bot :
      List (String × String) → Bool → Command → Option VacBotDevice → Bot → Response × Bot
  for_bot ms extended_check cmd none b = (refused cmd, b)
  for_bot ms extended_check cmd (some bot) b =
      if accepts extended_check bot
      then answered cmd (send_command_plain json ms cmd b)
      else (refused cmd, b)

  abbrev for_command :
      List (String × String) → Bool → db.Table → Option Command → Bot → Response × Bot
  for_command ms extended_check bots none b = (unknown, b)
  for_command ms extended_check bots (some cmd) b =
      if is_null cmd.did
      then (without_bot cmd.td, b)
      else for_bot ms extended_check cmd (bot_of (get_record (eq "did" cmd.did) bots)) b

  -- `handle_commands`, where there is a helper bot.
  unfoldable pub handle_commands :
      List (String × String) → String → Bool → CommandRequest → db.Table → Bot → Response × Bot
  unfolding command_of
  handle_commands ms version extended_check r bots b =
      for_command ms extended_check bots (command_of json version r) b
