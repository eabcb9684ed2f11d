-- ===== src/Mqtt/Command.antt =====
-- A command to a robot and the topic that it is published under, `MQTTCommandModel` of
-- `bumper/mqtt/helper_bot.py`. The identifier of the request, four random letters, is an argument.
pub mod Laws
use bumper.Base.{String, Bool, true, false, Option, none, some, List, [], ◌∷◌, ◌==◌, if◌then◌else◌}
use bumper.Text.{append, concat, drop_chars, starts_with_fold}
use bumper.Value.{
  Value, null, str, obj, Fields, end, field, lookup, lookup_or, insert, value_eq, truthy, Json,
  shown,
}

pub record Command : Type 0 where
  pub request_id : String
  pub version : String
  pub payload_type : Value
  pub payload : String
  pub cmd_name : Value
  pub cmd_name_orig : Value
  pub did : Value
  pub to_type : Value
  pub to_res : Value
  pub td : Value

abbrev pub version_old : String
version_old = "1"

abbrev pub version_new : String
version_new = "2"

abbrev pub version_p2p : String
version_p2p = "p2p"

abbrev get : String → Fields → Value
get k d = lookup_or k null d

-- `json.dumps(v) if payload_type == "j" else str(v)`
abbrev write_payload : Json → Value → Value → String
write_payload json payload_type v =
    if value_eq payload_type (str "j") then json.dumps v else shown json v

abbrev without_version : Value → Value
without_version name = if value_eq name (str "clean_V2") then str "clean" else name

unfoldable pub from_version_1 : Json → String → Fields → Command
from_version_1 json request_id cmdjson = record {
  request_id = request_id;
  version = version_old;
  payload_type = lookup_or "payloadType" (str "j") cmdjson;
  payload = write_payload json (lookup_or "payloadType" (str "j") cmdjson) (get "payload" cmdjson);
  cmd_name = without_version (get "cmdName" cmdjson);
  cmd_name_orig = null;
  did = get "toId" cmdjson;
  to_type = get "toType" cmdjson;
  to_res = get "toRes" cmdjson;
  td = get "td" cmdjson;
}

unfoldable pub from_version_2 : Json → String → Fields → Command
from_version_2 json request_id cmdjson = record {
  request_id = request_id;
  version = version_new;
  payload_type = lookup_or "fmt" (str "j") cmdjson;
  payload = write_payload json (lookup_or "fmt" (str "j") cmdjson) (get "payload" cmdjson);
  cmd_name = get "apn" cmdjson;
  cmd_name_orig = null;
  did = get "eid" cmdjson;
  to_type = get "et" cmdjson;
  to_res = get "er" cmdjson;
  td = get "ct" cmdjson;
}

-- The name of a query starts with a small letter; where it does so after `lower()`, its first
-- letter is `g` or `G`.
abbrev query_name : String → String
query_name name = if starts_with_fold "get" name then append "g" (drop_chars 1 name) else name

abbrev battery_name : String → String
battery_name name = if name == "getBatteryInfo" then "getBattery" else name

-- none is the `AttributeError` of a name that is true and no text.
unfoldable pub p2p_name : Value → Option Value
p2p_name (str name) = some (str (battery_name (query_name name)))
p2p_name v = if truthy v then none else some v

abbrev translated : Value → Value
translated act =
    if value_eq act (str "s")
    then str "start"
    else if value_eq act (str "p")
    then str "pause"
    else if value_eq act (str "r")
    then str "resume"
    else if value_eq act (str "t")
    then str "stop"
    else act

-- A list or a dictionary is no key: `TypeError`.
abbrev is_key : Value → Bool
is_key (obj d) = false
is_key (Value.arr xs) = false
is_key v = true

unfoldable pub translate_act : Value → Option Value
translate_act (obj d) =
    if truthy (get "act" d)
    then if is_key (get "act" d)
      then some (obj (insert "act" (translated (get "act" d)) d))
      else none
    else some (obj d)
translate_act v = none

abbrev p2p_data : Value → Value → Option Value
p2p_data name data' =
    if truthy data'
    then if value_eq name (str "clean") then translate_act data' else some data'
    else some data'

abbrev p2p_command : Json → String → Fields → Value → Option Value → Option Command
p2p_command json request_id cmdjson name none = none
p2p_command json request_id cmdjson name (some data') = some (record {
  request_id = request_id;
  version = version_p2p;
  payload_type = str "j";
  payload = json.dumps (obj (field "body" (obj (field "data" data' end)) end));
  cmd_name = name;
  cmd_name_orig = get "cmd" cmdjson;
  did = get "did" cmdjson;
  to_type = get "mid" cmdjson;
  to_res = get "res" cmdjson;
  td = null;
})

abbrev named_p2p : Json → String → Fields → Option Value → Option Command
named_p2p json request_id cmdjson none = none
named_p2p json request_id cmdjson (some name) =
    p2p_command json request_id cmdjson name (p2p_data name (get "data" cmdjson))

unfoldable pub from_version_p2p : Json → String → Fields → Option Command
from_version_p2p json request_id cmdjson =
    named_p2p json request_id cmdjson (p2p_name (get "cmd" cmdjson))

-- `MQTTCommandModel(cmdjson, version)`: none is its exception.
unfoldable pub new_command : Json → String → Fields → String → Option Command
unfolding from_version_1 from_version_2 from_version_p2p
new_command json request_id cmdjson version =
    if version == version_old
    then some (from_version_1 json request_id cmdjson)
    else if version == version_new
    then some (from_version_2 json request_id cmdjson)
    else if version == version_p2p
    then from_version_p2p json request_id cmdjson
    else none

-- `HELPER_BOT_CLIENT_ID_MQTT`
abbrev pub helper_bot_client_id_mqtt : String
helper_bot_client_id_mqtt = "helperbot/bumper/helperbot"

unfoldable pub create_topic : Json → Command → String
create_topic json c = concat (
    "iot/p2p/"
    ∷ shown json c.cmd_name
    ∷ "/"
    ∷ helper_bot_client_id_mqtt
    ∷ "/"
    ∷ shown json c.did
    ∷ "/"
    ∷ shown json c.to_type
    ∷ "/"
    ∷ shown json c.to_res
    ∷ "/q/"
    ∷ c.request_id
    ∷ "/"
    ∷ shown json c.payload_type
    ∷ [])
