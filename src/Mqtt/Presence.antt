-- ===== src/Mqtt/Presence.antt =====
-- The broker's hooks for connections, `on_broker_client_connected`,
-- `on_broker_client_disconnected` and `_set_client_connected` of `bumper/mqtt/server.py`.
pub mod Laws
use bumper.Base.{
  String, Bool, true, false, ◌&&◌, Option, none, some, List, [], ◌∷◌, ◌==◌, if◌then◌else◌, contains,
  Exec, modify, ◌>>=◌, ◌>>◌,
}
use bumper.Settings.{Config}
use bumper.Models.{VacBotDevice, VacBotClient}
use bumper.Db.Tiny.{TinyDb}
use bumper.Db.Bots
use bumper.Db.Clients
use bumper.Mqtt.ClientId.{ClientId, ClientType, split_client_id}
use bumper.Mqtt.Auth.{helper_bot_client_id}

-- The tables, the clients with a proxy, and the bots whose time zone is to be synchronised.
pub record Presence ⦃db : TinyDb⦄ : Type 0 where
  pub bots : db.Table
  pub clients : db.Table
  pub proxies : List String
  pub syncs : List String

unfoldable pub without : String → List String → List String
without x [] = []
without x (y ∷ ys) = if y == x then without x ys else y ∷ without x ys

module _ ⦃db : TinyDb⦄ where
  abbrev bot_connected : String → Bool → Option VacBotDevice → Presence → Presence
  bot_connected did connected none s = s
  bot_connected did connected (some b) s = record s {
    bots = Bots.set_mqtt b.did connected s.bots;
    syncs = if connected then did ∷ s.syncs else s.syncs;
  }

  abbrev client_connected : Bool → Option VacBotClient → Presence → Presence
  client_connected connected none s = s
  client_connected connected (some c) s = record s {
    clients = Clients.set_mqtt c.userid connected s.clients;
  }

  abbrev device_connected : String → Bool → ClientType → Presence → Presence
  device_connected did connected ClientType.bot s =
      bot_connected did connected (Bots.get did s.bots) s
  device_connected did connected ClientType.user s =
      client_connected connected (Clients.get did s.clients) s

  abbrev split_connected : Bool → Option ClientId → Presence → Presence
  split_connected connected none s = s
  split_connected connected (some c) s = device_connected c.did connected c.client_type s

  unfoldable pub set_client_connected : String → Bool → Presence → Presence
  set_client_connected client_id connected s =
      if client_id == helper_bot_client_id
      then s
      else split_connected connected (split_client_id client_id) s

  unfoldable pub on_client_connected : String → Presence → Presence
  unfolding set_client_connected
  on_client_connected client_id s = set_client_connected client_id true s

  -- `pop` raises no error here: it stands behind the test that the client has a proxy. The flag
  -- says whether the proxy's `disconnect` returns; where it raises the proxy is off the list.
  abbrev drop_proxy : Config → Bool → String → Exec Presence (Unit {0})
  drop_proxy cfg disconnects client_id s =
      if cfg.proxy_mqtt && contains s.proxies client_id
      then (
        if disconnects then some tt else none,
        record s { proxies = without client_id s.proxies },
      )
      else (some tt, s)

  unfoldable pub on_client_disconnected : Config → Bool → String → Exec Presence (Unit {0})
  unfolding set_client_connected without
  on_client_disconnected cfg disconnects client_id = do
    drop_proxy cfg disconnects client_id
    modify (set_client_connected client_id false)
