-- ===== src/Lifecycle/Status.antt =====
-- The page of the servers' status: the context `server_status` of `_get_context` in
-- `bumper/web/web_paths.py`, with `to_dict` of the XMPP clients. The broker's sessions are given.
use bumper.Base.{String, Bool, false, Option, none, some, List, [], ◌∷◌, if◌then◌else◌}
use bumper.Value.{Value, null, bool, num, pos, str, obj, arr, Items, nil, cons, Fields, end, field}
use bumper.Db.Tiny.{TinyDb}
use bumper.Mqtt.Helper.{Bot, CommandCache}
use bumper.Mqtt.Server.{Broker}
use bumper.Web.Server.{Http}
use bumper.Xmpp.Client.{Client, rank, Kind, bot, controller, unknown}
use bumper.Lifecycle.{Bumper, Xmpp}

-- A session of the broker: the user's name, the client's identifier and the state.
pub record Session : Type 0 where
  pub username : Option String
  pub client_id : Option String
  pub state : String

abbrev text_or_null : Option String → Value
text_or_null none = null
text_or_null (some s) = str s

abbrev session_row : Session → Value
session_row s = obj (
    field "username" (text_or_null s.username)
      (field "client_id" (text_or_null s.client_id) (field "state" (str s.state) end)))

unfoldable pub session_rows : List Session → Items
session_rows [] = nil
session_rows (s ∷ ss) = cons (session_row s) (session_rows ss)

abbrev kind_name : Kind → String
kind_name bot = "BOT"
kind_name controller = "CONTROLLER"
kind_name unknown = "UNKNOWN"

-- `to_dict`
unfoldable pub client_dict : Client → Value
client_dict c = obj (
    field "uid" (str c.uid) (
      field "bumper_jid" (str c.bumper_jid) (
        field "state" (num (pos (rank c.state)))
          (field "address" (num (pos c.address)) (field "type" (str (kind_name c.kind)) end)))))

unfoldable pub client_dicts : List Client → Items
unfolding client_dict
client_dicts [] = nil
client_dicts (c ∷ cs) = cons (client_dict c) (client_dicts cs)

abbrev server_row : String → Items → Value
server_row state clients =
    obj (field "state" (str state) (field "sessions" (obj (field "clients" (arr clients) end)) end))

abbrev serves : Option Bool → Bool
serves none = false
serves (some b) = b

module _ ⦃db : TinyDb⦄ ⦃cc : CommandCache⦄ ⦃broker : Broker⦄ ⦃http : Http⦄ where
  abbrev mqtt_row : (broker.Node → List Session) → Option broker.Node → Value
  mqtt_row sessions none = server_row "offline" nil
  mqtt_row sessions (some n) = server_row (broker.state n) (session_rows (sessions n))

  abbrev xmpp_row : Option Xmpp → Value
  xmpp_row none = server_row "offline" nil
  xmpp_row (some x) =
      server_row (if serves x.socket then "running" else "stopped") (client_dicts x.server.peers)

  abbrev helper_row : Option Bot → Value
  helper_row none = obj (field "state" (str "offline") end)
  helper_row (some b) = obj (field "state" (bool b.is_connected) end)

  -- `_get_context(request, "server_status")`, where the connection of the helper bot does not
  -- change while it is looked at.
  unfoldable pub server_status : (broker.Node → List Session) → Bumper → Fields
  unfolding session_rows client_dicts
  server_status sessions s =
      field "mqtt_server" (mqtt_row sessions s.mqtt)
        (field "xmpp_server" (xmpp_row s.xmpp) (field "helperbot" (helper_row s.helperbot) end))
