-- ===== src/Lifecycle.antt =====
-- The life of the program, `bumper/__init__.py`: its configuration, the start of the servers, the
-- periodic maintenance and the shutdown. A loop that waits for a state runs on fuel, a round for
-- each time that it looks; none is an exception, or a wait that has not ended. A background task is
-- carried out where it is stored, and its exception stays with it.
pub mod Off
pub mod Laws
pub mod Restart
pub mod Status
use bumper.Base.{
  ℕ, zero, suc, String, Bool, true, false, not, Option, none, some, is_some, List, [], ◌∷◌, ◌==◌,
  contains, if◌then◌else◌, Exec, pure, raise, gets, modify, or_raise, raise_if, ◌>>=◌, ◌>>◌,
}
use bumper.Settings.{Config}
use bumper.Value.{Value}
use bumper.Db.Tiny.{TinyDb}
use bumper.Db.Bots
use bumper.Db.Clients
use bumper.Db.Tokens
use bumper.Db.Migration.{Database, migrate_db}
use bumper.Mqtt.Helper as HelperBot
use bumper.Mqtt.Helper.{Bot, CommandCache}
use bumper.Mqtt.Server as MqttServer
use bumper.Mqtt.Server.{Broker, Listener, MqttBinding, configure}
use bumper.Web.Server as WebServer
use bumper.Web.Server.{Http, Web, WebserverBinding}
use bumper.Xmpp.Server as XmppServer
use bumper.Xmpp.Server.{Server, shut_down}

-- `while test: sleep`, and what time makes of the state.
unfoldable pub wait_while : {A : Type 0} → ℕ → (A → Bool) → (A → A) → A → Option A
wait_while zero test elapse a = if test a then none else some a
wait_while (suc fuel) test elapse a =
    let later = wait_while fuel test elapse (elapse a) in if test a then later else some a

-- What the arguments and the environment set.
pub record Options : Type 0 where
  pub listen : String
  pub announce : String
  pub debug_level : String
  pub debug_verbose : ℕ

pub record Args : Type 0 where
  pub listen : Option String
  pub announce : Option String
  pub debug_level : Option String
  pub debug_verbose : Option ℕ

abbrev text_or : Option String → String → String
text_or none old = old
text_or (some new) old = if new == "" then old else new

abbrev number_or : Option ℕ → ℕ → ℕ
number_or (some (suc n)) old = suc n
number_or n old = old

-- `read_args`: an empty argument and a zero change nothing.
unfoldable pub read_args : Args → Options → Options
read_args args o = record {
  listen = text_or args.listen o.listen;
  announce = text_or args.announce o.announce;
  debug_level = text_or args.debug_level o.debug_level;
  debug_verbose = number_or args.debug_verbose o.debug_verbose;
}

-- `socket` is the server object of asyncio, none before there is one, and whether it serves.
pub record Xmpp ⦃db : TinyDb⦄ : Type 0 where
  pub server : Server
  pub socket : Option Bool

-- How a task ends that was cancelled, or that it does not.
pub data TaskEnd : Type 0 where
  returned cancelled raised never : TaskEnd

pub record Bumper ⦃db : TinyDb⦄ ⦃cc : CommandCache⦄ ⦃broker : Broker⦄ ⦃http : Http⦄ : Type 0 where
  pub bots : db.Table
  pub clients : db.Table
  pub tokens : db.Table
  pub database : Database
  pub helperbot : Option Bot
  pub mqtt : Option broker.Node
  pub web : Option Web
  pub xmpp : Option Xmpp
  pub shutting_down : Bool

-- What is given of the deployment: the ports, whether the certificates can be made and the database
-- copied, the objects that are made, what time makes of the helper bot's connection, and whether
-- the XMPP port can be bound.
pub record Deployment ⦃db : TinyDb⦄ ⦃cc : CommandCache⦄ ⦃broker : Broker⦄ ⦃http : Http⦄
    : Type 0 where
  pub config : Config
  pub mqtt_port : ℕ
  pub mqtt_port_tls : ℕ
  pub web_port : ℕ
  pub web_port_tls : ℕ
  pub certificates : Bool
  pub copies : Bool
  pub new_node : List (String × Listener) → broker.Node
  pub new_bot : Bot
  pub new_net : http.Net
  pub connecting : Bot → Bot
  pub xmpp_binds : Bool

module _ ⦃db : TinyDb⦄ ⦃cc : CommandCache⦄ ⦃broker : Broker⦄ ⦃http : Http⦄ where
  module _ (d : Deployment) where
    abbrev mqtt_bindings : String → List MqttBinding
    mqtt_bindings host =
        record { host = host; port = d.mqtt_port_tls; use_ssl = true }
        ∷ record { host = host; port = d.mqtt_port; use_ssl = false }
        ∷ []

    abbrev web_bindings : String → List WebserverBinding
    web_bindings host =
        record { host = host; port = d.web_port_tls; use_ssl = true }
        ∷ record { host = host; port = d.web_port; use_ssl = false }
        ∷ []

    abbrev migrate : ℕ → Exec Bumper (Unit {0})
    migrate fuel s =
        let (r, database') = migrate_db d.config d.copies fuel s.database in
        (if is_some r then some tt else none, record s { database = database' })

    abbrev reset : Bumper → Bumper
    reset s = record s {
      bots = Bots.reset_all_connections s.bots;
      clients = Clients.reset_all_connections s.clients;
    }

    -- The four servers are made, and none is started.
    abbrev make_servers : String → Bumper → Bumper
    make_servers host s = record s {
      mqtt = some (d.new_node (configure (mqtt_bindings host)));
      helperbot = some d.new_bot;
      web = some (record { runners = []; net = d.new_net });
      xmpp = some (record {
        server = record { peers = []; bots = s.bots; clients = s.clients; sent = [] };
        socket = none;
      });
    }

    -- `start_configuration`, at the address to listen at.
    unfoldable pub start_configuration : ℕ → String → Exec Bumper (Unit {0})
    start_configuration fuel listen = do
      raise_if (listen == "")
      raise_if (not d.certificates)
      migrate fuel
      modify reset
      modify (make_servers listen)

    abbrev listen_xmpp : Option Xmpp → Option Xmpp
    listen_xmpp none = none
    listen_xmpp (some x) = some (record x { socket = if d.xmpp_binds then some true else x.socket })

    abbrev start_xmpp : Bumper → Bumper
    start_xmpp s = record s { xmpp = listen_xmpp s.xmpp }

    abbrev on_mqtt : Exec broker.Node (Unit {0}) → broker.Node → Exec Bumper (Unit {0})
    on_mqtt m n s = let (r, n') = m n in (r, record s { mqtt = some n' })

    abbrev set_mqtt : Option broker.Node → Exec Bumper (Unit {0})
    set_mqtt none = raise
    set_mqtt (some n) = modify (λ s. record s { mqtt = some n })

    abbrev not_started : broker.Node → Bool
    not_started n = not (broker.state n == "started")

    abbrev wait_node : ℕ → (broker.Node → Bool) → Option broker.Node → Exec Bumper (Unit {0})
    wait_node fuel test none = pure tt
    wait_node fuel test (some n) = set_mqtt (wait_while fuel test broker.elapse n)

    abbrev not_connected : Bot → Bool
    not_connected b = not b.is_connected

    abbrev set_helper : Option Bot → Exec Bumper (Unit {0})
    set_helper none = raise
    set_helper (some b) = modify (λ s. record s { helperbot = some b })

    abbrev start_helper : ℕ → Option Bot → Exec Bumper (Unit {0})
    start_helper fuel none = pure tt
    start_helper fuel (some b) =
        set_helper (wait_while fuel not_connected d.connecting (HelperBot.start b))

    abbrev start_mqtt : ℕ → Option broker.Node → Exec Bumper (Unit {0})
    start_mqtt fuel none = pure tt
    start_mqtt fuel (some n) = do
      on_mqtt MqttServer.start n
      node ← gets (λ s. s.mqtt)
      wait_node fuel not_started node
      helper ← gets (λ s. s.helperbot)
      start_helper fuel helper

    abbrev start_web : String → Option Web → Exec Bumper (Unit {0})
    start_web host none = pure tt
    start_web host (some w) =
        modify (λ s. record s { web = some (WebServer.start (web_bindings host) w).1 })

    -- `start_service`
    unfoldable pub start_service : ℕ → String → Exec Bumper (Unit {0})
    unfolding wait_while
    start_service fuel listen = do
      modify start_xmpp
      node ← gets (λ s. s.mqtt)
      start_mqtt fuel node
      web ← gets (λ s. s.web)
      start_web listen web

  -- `maintenance`, at the moments at which it wakes before the shutdown.
  unfoldable pub maintain : List String → db.Table → db.Table
  maintain [] t = t
  maintain (now_iso ∷ moments) t = maintain moments (Tokens.revoke_expired now_iso t)

  abbrev maintenance : List String → Bumper → Bumper
  maintenance moments s =
      if s.shutting_down then s else record s { tokens = maintain moments s.tokens }

  abbrev stop_helper : Option Bot → Option Bot
  stop_helper none = none
  stop_helper (some b) = some (HelperBot.disconnect b)

  abbrev begin_shutdown : Bumper → Bumper
  begin_shutdown s = record s { shutting_down = true; helperbot = stop_helper s.helperbot }

  abbrev pub stop_web : Option Web → Exec Bumper (Unit {0})
  stop_web none s = (some tt, s)
  stop_web (some w) s = let (r, w') = WebServer.shutdown w in (r, record s { web = some w' })

  abbrev is_moving : broker.Node → Bool
  is_moving n = contains ("starting" ∷ "stopping" ∷ []) (broker.state n)

  abbrev stop_node : Option broker.Node → Exec Bumper (Unit {0})
  stop_node none s = (none, s)
  stop_node (some n) s =
      let (r, n') = if broker.state n == "started" then MqttServer.shutdown n else pure tt n in
      (r, record s { mqtt = some n' })

  abbrev pub stop_mqtt : ℕ → Option broker.Node → Exec Bumper (Unit {0})
  stop_mqtt fuel none = pure tt
  stop_mqtt fuel (some n) = stop_node (wait_while fuel is_moving broker.elapse n)

  -- The clients are disconnected, and a server that serves is closed.
  abbrev pub stop_xmpp : Option Xmpp → Option Xmpp
  stop_xmpp none = none
  stop_xmpp (some x) = elim x.socket [
    | none ↦ some x
    | some serves ↦ some (record { server = shut_down x.server; socket = some false })
  ]

  abbrev close_xmpp : Bumper → Bumper
  close_xmpp s = record s { xmpp = stop_xmpp s.xmpp }

  -- `await asyncio.gather(*tasks)` of the cancelled tasks, in the order in which they end: the first
  -- that does not return decides, and a cancellation is suppressed.
  unfoldable pub gather : List TaskEnd → Exec Bumper (Unit {0})
  gather [] = pure tt
  gather (returned ∷ tasks) = gather tasks
  gather (cancelled ∷ tasks) = pure tt
  gather (raised ∷ tasks) = raise
  gather (never ∷ tasks) = raise

  -- `shutdown`, given how the other tasks end.
  unfoldable pub shutdown : ℕ → List TaskEnd → Exec Bumper (Unit {0})
  unfolding wait_while gather HelperBot.disconnect
  shutdown fuel tasks = do
    modify begin_shutdown
    web ← gets (λ s. s.web)
    stop_web web
    node ← gets (λ s. s.mqtt)
    stop_mqtt fuel node
    modify close_xmpp
    gather tasks

  -- `start`: an exception is logged, and the maintenance then does not run.
  unfoldable pub start : Deployment → ℕ → String → List String → Bumper → Bumper
  unfolding start_configuration start_service maintain
  start d fuel listen moments s =
      ((do
        start_configuration d fuel listen
        start_service d fuel listen
        modify (maintenance moments))
        s).1

  -- `_lifecycle`, with the test of the address; whatever happened, the shutdown follows.
  unfoldable pub lifecycle :
      Deployment
      → (String → Bool)
      → Args
      → Options
      → ℕ
      → List String
      → List TaskEnd
      → Exec Bumper (Unit {0})
  unfolding read_args start shutdown
  lifecycle d is_valid_ip args o fuel moments tasks s =
      let listen = (read_args args o).listen in
      shutdown fuel tasks (if is_valid_ip listen then start d fuel listen moments s else s)
