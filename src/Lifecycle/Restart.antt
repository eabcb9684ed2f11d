-- ===== src/Lifecycle/Restart.antt =====
-- The restart of a service from the page, `_handle_restart_service` and `_restart_helper_bot` of
-- `bumper/web/web_paths.py`; the restart of the MQTT server is that of Mqtt/Server.
use bumper.Base.{
  String, Bool, true, false, Option, none, some, ◌==◌, if◌then◌else◌, Exec, pure, gets, ◌>>=◌,
}
use bumper.Value.{Value, str, obj, end, field}
use bumper.Db.Tiny.{TinyDb}
use bumper.Mqtt.Helper as HelperBot
use bumper.Mqtt.Helper.{Bot, CommandCache}
use bumper.Mqtt.Server as MqttServer
use bumper.Mqtt.Server.{Broker}
use bumper.Web.Server.{Http}
use bumper.Xmpp.Server.{shut_down}
use bumper.Lifecycle.{Bumper, Xmpp}

abbrev status : String → Value
status s = obj (field "status" (str s) end)

abbrev outcome : Bool → Value
outcome done = status (if done then "complete" else "failed")

module _ ⦃db : TinyDb⦄ ⦃cc : CommandCache⦄ ⦃broker : Broker⦄ ⦃http : Http⦄ where
  -- The connection of the helper bot is closed; it comes back with time.
  abbrev restart_helper : Option Bot → Exec Bumper Value
  restart_helper none s = (some (outcome false), s)
  restart_helper (some b) s = (
    some (outcome true),
    record s { helperbot = some (HelperBot.start (HelperBot.disconnect b)) },
  )

  abbrev outcome_of : Option Bool → Option Value
  outcome_of none = none
  outcome_of (some done) = some (outcome done)

  abbrev restart_mqtt : Option broker.Node → Exec Bumper Value
  restart_mqtt none s = (some (outcome false), s)
  restart_mqtt (some n) s =
      let (r, n') = MqttServer.restart n in (outcome_of r, record s { mqtt = some n' })

  abbrev closed : Option Bool → Option Bool
  closed none = none
  closed (some serves) = some false

  -- A port that cannot be bound raises, after the clients were disconnected.
  abbrev restart_xmpp : Bool → Option Xmpp → Exec Bumper Value
  restart_xmpp binds none s = (some (status "invalid service"), s)
  restart_xmpp binds (some x) s = (
    if binds then some (status "complete") else none,
    record s {
      xmpp = some (record {
        server = shut_down x.server;
        socket = if binds then some true else closed x.socket;
      });
    },
  )

  -- `_handle_restart_service`, given whether the XMPP port can be bound; none is the internal
  -- server error.
  unfoldable pub restart_service : Bool → String → Exec Bumper Value
  unfolding HelperBot.start HelperBot.disconnect
  restart_service binds service = do
    helper ← gets (λ s. s.helperbot)
    node ← gets (λ s. s.mqtt)
    xmpp ← gets (λ s. s.xmpp)
    if service == "Helperbot"
        then restart_helper helper
        else if service == "MQTTServer"
        then restart_mqtt node
        else if service == "XMPPServer"
        then restart_xmpp binds xmpp
        else pure (status "invalid service")
