-- ===== src/Mqtt/Helper/Send.antt =====
-- What the web service answers for a command: `send_command` of `bumper/mqtt/helper_bot.py` and
-- its three versions. Each is given what `send_command_plain` returned.
use bumper.Base.{String, ◌||◌, not, Option, none, some, ◌==◌, if◌then◌else◌}
use bumper.Value.{
  pos, Value, null, num, str, obj, arr, Fields, end, field, lookup_or, value_eq, truthy, Json,
}
use bumper.Text.{append}
use bumper.Mqtt.Command.{Command, version_old, version_new, version_p2p}
use bumper.Web.Response.{error_v8, success_v2}

-- A JSON body, or the text of a value as an octet stream.
pub data Response : Type 0 where
  json_response : Value → Response
  octet_response : Value → Response

-- `d.get(key, {})` of what must be a dictionary: none is the `AttributeError`.
abbrev get_in : String → Option Value → Option Value
get_in k (some (obj d)) = some (lookup_or k (obj end) d)
get_in k v = none

-- `d.get(key, default)`
abbrev get_last : String → Value → Option Value → Option Value
get_last k v (some (obj d)) = some (lookup_or k v d)
get_last k v o = none

-- A name as the key of a JSON object: none is the `TypeError` of a list or a dictionary.
abbrev key_of : Json → Value → Option String
key_of json (str s) = some s
key_of json (obj d) = none
key_of json (arr xs) = none
key_of json v = some (json.dumps v)

abbrev failed : String
failed = "mqtt wait for response failed, see logs form more information"

module _ (json : Json) where
  abbrev wrong_version : Command → String → String
  wrong_version cmd expected =
      append "Wrong api call used - used: "
        (append cmd.version (append " :: expected: '" (append expected "'!")))

  unfoldable pub send_command_old : Command → Value → Response
  send_command_old cmd cmd_response =
      if not (cmd.version == version_old)
      then json_response (error_v8 cmd.request_id (wrong_version cmd version_old))
      else if not (truthy cmd_response)
      then json_response (error_v8 cmd.request_id failed)
      else json_response (
          obj (
            field "id" (str cmd.request_id) (
              field "ret" (str "ok")
                (field "resp" cmd_response (field "payloadType" cmd.payload_type end)))))

  unfoldable pub send_command_new : Command → Value → Response
  send_command_new cmd cmd_response =
      if not (cmd.version == version_new)
      then json_response (error_v8 cmd.request_id (wrong_version cmd version_new))
      else if not (truthy cmd_response)
      then json_response (error_v8 cmd.request_id failed)
      else octet_response cmd_response

  abbrev ok_fields : Command → Fields → Fields
  ok_fields cmd more = field "ret" (str "ok") (field "did" cmd.did more)

  abbrev data_of : Fields → Option Value
  data_of d = get_in "data" (get_in "body" (some (obj d)))

  abbrev mode : Value → Value
  mode is_charging =
      if value_eq is_charging (num (pos 1)) then str "SlotCharging" else str "SlotIdle"

  abbrev under : Option String → Option Fields → Option Response
  under (some k) (some d) =
      some (json_response (success_v2 (obj (field k (obj d) end)) (some 0) "data" "ret"))
  under k d = none

  abbrev with_value : Command → String → (Value → Value) → Option Value → Option Fields
  with_value cmd k f none = none
  with_value cmd k f (some v) = some (ok_fields cmd (field k (f v) end))

  abbrev with_message : Command → Option Value → Option Fields
  with_message cmd none = none
  with_message cmd (some v) = some (field "did" cmd.did (field "ret" v end))

  abbrev p2p_fields : Command → Fields → Option Fields
  p2p_fields cmd d =
      if value_eq cmd.cmd_name (str "getBattery")
      then with_value cmd "power" (λ v. v) (get_last "value" null (data_of d))
      else if value_eq cmd.cmd_name (str "getChargeState")
      then with_value cmd "type" mode (get_last "isCharging" null (data_of d))
      else if value_eq cmd.cmd_name (str "charge") || value_eq cmd.cmd_name (str "clean")
      then with_message cmd (get_last "msg" (str "error") (get_in "body" (some (obj d))))
      else some (ok_fields cmd end)

  abbrev p2p_answer : Command → Value → Option Response
  p2p_answer cmd (obj d) = under (key_of json cmd.cmd_name_orig) (p2p_fields cmd d)
  p2p_answer cmd v = some (json_response (error_v8 cmd.request_id "Unknown result return from bot"))

  -- none is the exception at an answer of another form.
  unfoldable pub send_command_p2p : Command → Value → Option Response
  send_command_p2p cmd cmd_response =
      if not (cmd.version == version_p2p)
      then some (json_response (error_v8 cmd.request_id (wrong_version cmd version_p2p)))
      else if not (truthy cmd_response)
      then some (json_response (error_v8 cmd.request_id failed))
      else p2p_answer cmd cmd_response

  unfoldable pub send_command : Command → Value → Option Response
  unfolding send_command_old send_command_new send_command_p2p
  send_command cmd cmd_response =
      if cmd.version == version_old
      then some (send_command_old cmd cmd_response)
      else if cmd.version == version_new
      then some (send_command_new cmd cmd_response)
      else if cmd.version == version_p2p
      then send_command_p2p cmd cmd_response
      else some (
          json_response
            (error_v8 cmd.request_id (append "Unsupported version :: '" (append cmd.version "'"))))
