-- ===== src/Web/SinglePaths.antt =====
-- The handlers with a path of their own, `bumper/web/single_paths.py`, but for the fixed answers. A
-- body is given as the value that is read of it, none where the reading raises; an answer of none is
-- the internal server error.
pub mod Archive
use bumper.Base.{
  ℕ, String, Bool, true, false, ◌&&◌, Option, none, some, List, [], ◌∷◌, ◌==◌, if◌then◌else◌, Exec,
  pure, raise,
}
use bumper.Settings.{update_server, update_server_port, xmpp_port_tls}
use bumper.Text.{remove_char}
use bumper.Value.{
  Value, null, num, pos, str, obj, Fields, end, field, lookup_or, value_eq, Json, shown,
}
use bumper.Db.Tiny.{TinyDb}
use bumper.Web.Auth.{World, Env, as_text}
use bumper.Web.Codes.{get_new_auth}
use bumper.Web.Response.{error_v2, unknown_todo}

-- `ERR_UNKNOWN_TODO`
abbrev err_unknown_todo : String
err_unknown_todo = "1202"

abbrev todo_of : Fields → Value
todo_of d = lookup_or "todo" (str "") d

module _ ⦃db : TinyDb⦄ (env : Env) where
  -- `handle_new_auth`
  unfoldable pub handle_new_auth : Option Value → Exec World Value
  handle_new_auth (some (obj d)) =
      if value_eq (todo_of d) (str "OLoginByITToken")
      then get_new_auth env (as_text (lookup_or "itToken" null d))
      else pure (error_v2 unknown_todo err_unknown_todo)
  handle_new_auth body = raise

-- The text of an answer, or its value.
pub data Answer : Type 0 where
  text : String → Answer
  json_value : Value → Answer

abbrev xmpp_address : String → Value
xmpp_address ip =
    obj
      (field "ip" (str ip) (field "port" (num (pos xmpp_port_tls)) (field "result" (str "ok") end)))

abbrev update_address : Value
update_address = obj (
    field "result" (str "ok")
      (field "ip" (str update_server) (field "port" (num (pos update_server_port)) end)))

-- A robot wants the answer without spaces.
abbrev service_at : Json → String → Value → Answer
service_at json announce_ip service =
    if value_eq service (str "EcoMsgNew")
    then text (remove_char " " (json.dumps (xmpp_address announce_ip)))
    else if value_eq service (str "EcoUpdate")
    then json_value update_address
    else json_value (obj end)

-- `handle_lookup`, given the address that is announced.
unfoldable pub handle_lookup : Json → String → Option Value → Option Answer
handle_lookup json announce_ip (some (obj d)) = some (
    if value_eq (todo_of d) (str "FindBest")
    then service_at json announce_ip (lookup_or "service" (str "") d)
    else json_value (obj end))
handle_lookup json announce_ip body = none

-- Base64, gzip and UTF-8 in a row: none where one of them raises.
abbrev logged : (String → Option String) → Option String → Option Value
logged decompress none = some null
logged decompress (some data_list) = elim (decompress data_list) [
  | none ↦ none
  | some _ ↦ some null
]

-- `handle_sa`, with the switch `DEBUG_LOGGING_SA_RESULT`: what is only logged may raise.
unfoldable pub handle_sa : Json → (String → Option String) → Bool → Option Value → Option Value
handle_sa json decompress false body = some null
handle_sa json decompress true (some (obj d)) = logged decompress (
    if shown json (lookup_or "gzip" (num (pos 0)) d) == "1"
    then as_text (lookup_or "data_list" null d)
    else none)
handle_sa json decompress true body = none
