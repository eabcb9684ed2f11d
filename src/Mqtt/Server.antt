-- ===== src/Mqtt/Server.antt =====
-- `MQTTServer` of `bumper/mqtt/server.py`: the listeners that it configures, its start, its shutdown
-- and the wait for a state. The broker is amqtt's and not part of the repository. Nothing notifies
-- the condition that a wait stands at, so a wait that does not hold at once lasts its full time.
pub mod Laws
use bumper.Base.{
  ◌≡◌, ℕ, ◌+◌, String, Bool, true, false, not, Option, none, some, is_some, List, [], ◌∷◌, ◌==◌,
  if◌then◌else◌, contains, nat_eq, Exec, pure, gets, modify, ◌>>=◌, ◌>>◌,
}
use bumper.Text.{append, concat}
use bumper.Numbers.{digits}

pub record MqttBinding : Type 0 where
  pub host : String
  pub port : ℕ
  pub use_ssl : Bool

-- An entry of the listeners; a listener with TLS gets the three files.
pub record Listener : Type 0 where
  pub bind : Option String
  pub ssl : Bool
  pub with_files : Bool

abbrev put_listener : String → Listener → List (String × Listener) → List (String × Listener)
put_listener n l [] = (n, l) ∷ []
put_listener n l ((m, k) ∷ ls) = if m == n then (n, l) ∷ ls else (m, k) ∷ put_listener n l ls

abbrev listener_name : ℕ → MqttBinding → String
listener_name index b = if nat_eq b.port 1883 then "default" else append "mqtt" (digits index)

abbrev listener_of : MqttBinding → Listener
listener_of b = record {
  bind = some (concat (b.host ∷ ":" ∷ digits b.port ∷ []));
  ssl = b.use_ssl;
  with_files = b.use_ssl;
}

unfoldable pub configure_from :
    ℕ → List MqttBinding → List (String × Listener) → List (String × Listener)
configure_from index [] ls = ls
configure_from index (b ∷ bs) ls =
    configure_from (index + 1) bs (put_listener (listener_name index b) (listener_of b) ls)

-- The listeners of `__init__`.
unfoldable pub configure : List MqttBinding → List (String × Listener)
unfolding configure_from
configure bs =
    configure_from 0 bs (("default", record { bind = none; ssl = false; with_files = false }) ∷ [])

-- What is used of amqtt's broker: its state, its start and shutdown, which may raise, and what
-- becomes of it while a wait lasts.
pub record Broker : Type 1 where
  pub Node : Type 0
  pub state : Node → String
  pub start : Exec Node (Unit {0})
  pub shutdown : Exec Node (Unit {0})
  pub elapse : Node → Node

-- The documented behaviour: where its call returns, a stopped broker has started, and one that ran
-- has stopped. Either may raise.
pub record BrokerLaws (broker : Broker) : Type 0 where
  pub state-start :
      (n : broker.Node)
      → broker.state n ≡ "stopped"
      → is_some (broker.start n).0 ≡ true
      → broker.state (broker.start n).1 ≡ "started"
  pub state-shutdown :
      (n : broker.Node)
      → broker.state n ≡ "started"
      → is_some (broker.shutdown n).0 ≡ true
      → broker.state (broker.shutdown n).1 ≡ "stopped"

-- `_check`
abbrev pub reached : Bool → String → String → Bool
reached reverse desired st = if reverse then not (st == desired) else st == desired

module _ ⦃broker : Broker⦄ where
  -- `wait_for_state_change` returns in any case; a timeout is logged.
  unfoldable pub wait_for_state_change : String → Bool → broker.Node → broker.Node
  wait_for_state_change desired reverse n =
      if reached reverse desired (broker.state n) then n else broker.elapse n

  abbrev when : Bool → Exec broker.Node (Unit {0}) → Exec broker.Node (Unit {0})
  when b m = if b then m else pure tt

  -- A stopping server is started where the wait has seen it stop.
  abbrev start_at : String → Exec broker.Node (Unit {0})
  start_at state =
      if not (contains ("stopping" ∷ "starting" ∷ "started" ∷ []) state)
      then broker.start
      else if state == "stopping"
      then (do
        modify (wait_for_state_change "stopping" true)
        settled ← gets broker.state
        when (settled == "stopped") broker.start)
      else pure tt

  -- `start`; its listeners are those of the configuration.
  unfoldable pub start : Exec broker.Node (Unit {0})
  unfolding wait_for_state_change
  start = do state ← gets broker.state; start_at state

  abbrev shutdown_at : String → Exec broker.Node (Unit {0})
  shutdown_at state =
      if state == "started"
      then broker.shutdown
      else if state == "starting"
      then (do
        modify (wait_for_state_change "starting" true)
        settled ← gets broker.state
        when (settled == "started") broker.shutdown)
      else if state == "stopping"
      then modify (wait_for_state_change "stopping" true)
      else pure tt

  unfoldable pub shutdown : Exec broker.Node (Unit {0})
  unfolding wait_for_state_change
  shutdown = do state ← gets broker.state; shutdown_at state

  -- `_restart_mqtt_server` of `bumper/web/web_paths.py`, where there is a server; behind its
  -- shutdown, and behind the test that it has stopped.
  abbrev pub await_started : Exec broker.Node Bool
  await_started = do
    modify (wait_for_state_change "started" false)
    settled ← gets broker.state
    pure (settled == "started")

  abbrev restart_stopped : Exec broker.Node Bool
  restart_stopped = do start; await_started

  unfoldable pub restart_on : Exec broker.Node Bool
  unfolding start wait_for_state_change
  restart_on = do
    modify (wait_for_state_change "stopped" false)
    settled ← gets broker.state
    if settled == "stopped" then restart_stopped else pure false

  unfoldable pub restart : Exec broker.Node Bool
  unfolding shutdown restart_on
  restart = do shutdown; restart_on
