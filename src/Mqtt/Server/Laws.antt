-- ===== src/Mqtt/Server/Laws.antt =====
-- The states that the server's operations lead to.
use bumper.Base.{
  String, ◌≡◌, refl, Bool, true, false, ◌&&◌, Option, none, some, is_some, [], ◌∷◌, contains,
  continue, ==_self, ◌==◌, if◌then◌else◌, ◌⊎◌, inl, inr,
}
use bumper.Mqtt.Server.{
  Broker, BrokerLaws, start, shutdown, restart, restart_on, await_started, wait_for_state_change,
  reached,
}

module _ ⦃broker : Broker⦄ where
  -- Time settles what is on the way: who starts has started, who stops has stopped.
  pub record Settling (n : broker.Node) : Type 0 where
    pub starting : broker.state n ≡ "starting" → broker.state (broker.elapse n) ≡ "started"
    pub stopping : broker.state n ≡ "stopping" → broker.state (broker.elapse n) ≡ "stopped"

  -- The states that a server passes through after its first start.
  pub data Running : String → Type 0 where
    starting : Running "starting"
    started : Running "started"
    stopping : Running "stopping"
    stopped : Running "stopped"

  wait-here :
      (desired : String) (reverse : Bool) (n : broker.Node)
      → reached reverse desired (broker.state n) ≡ true
      → wait_for_state_change desired reverse n ≡ n
  unfolding wait_for_state_change
  wait-here desired reverse n h = rw h

  wait-elapse :
      (desired : String) (reverse : Bool) (n : broker.Node)
      → reached reverse desired (broker.state n) ≡ false
      → wait_for_state_change desired reverse n ≡ broker.elapse n
  unfolding wait_for_state_change
  wait-elapse desired reverse n h = rw h

  not_reached :
      (n : broker.Node) (st : String)
      → broker.state n ≡ st
      → reached true st (broker.state n) ≡ false
  not_reached n st e = rw (e, ==_self st)

  is_reached :
      (n : broker.Node) (st : String)
      → broker.state n ≡ st
      → reached false st (broker.state n) ≡ true
  is_reached n st e = rw e (==_self st)

module _ ⦃broker : Broker⦄ where
  -- The broker when what was on the way has come to its end.
  abbrev calm : broker.Node → broker.Node
  calm n = if contains ("starting" ∷ "stopping" ∷ []) (broker.state n) then broker.elapse n else n

  -- The calls of amqtt that a restart makes: a shutdown where the broker runs, and a start.
  abbrev pub brought_down : broker.Node → Option (Unit {0}) × broker.Node
  brought_down n =
      if broker.state (calm n) == "started" then broker.shutdown (calm n) else (some tt, calm n)

  abbrev pub both_return : broker.Node → Bool
  both_return n = is_some (brought_down n).0 && is_some (broker.start (brought_down n).1).0

  abbrev pub Outcome : Bool → Option Bool × broker.Node → Type 0
  Outcome returns (r, n) =
      ((returns ≡ true) × ((r ≡ some true) × (broker.state n ≡ "started")))
      ⊎ ((returns ≡ false) × (r ≡ none))

  shutdown-brought_down :
      (n : broker.Node) (st : String)
      → Running st
      → broker.state n ≡ st
      → Settling n
      → shutdown n ≡ brought_down n
  unfolding shutdown wait_for_state_change
  shutdown-brought_down n st starting e h =
      rw (e, wait-elapse "starting" true n (not_reached n "starting" e), h.starting e) refl
  shutdown-brought_down n st started e h = rw (e, e) refl
  shutdown-brought_down n st stopping e h =
      rw (e, wait-elapse "stopping" true n (not_reached n "stopping" e), h.stopping e) refl
  shutdown-brought_down n st stopped e h = rw (e, e) refl

module _ ⦃broker : Broker⦄ ⦃laws : BrokerLaws broker⦄ where
  -- A shutdown that returns stops the server in every state that it passes through.
  down-stopped :
      (n : broker.Node) (st : String)
      → Running st
      → broker.state n ≡ st
      → Settling n
      → is_some (brought_down n).0 ≡ true
      → broker.state (brought_down n).1 ≡ "stopped"
  down-stopped n st starting e h =
      rw (e, h.starting e) (laws.state-shutdown (broker.elapse n) (h.starting e))
  down-stopped n st started e h = rw (e, e) (laws.state-shutdown n e)
  down-stopped n st stopping e h = rw (e, h.stopping e) (λ u. h.stopping e)
  down-stopped n st stopped e h = rw (e, e) (λ u. e)

  after_start :
      (r : Option (Unit {0})) (n : broker.Node)
      → (is_some r ≡ true → broker.state n ≡ "started")
      → Outcome (is_some r) (continue (λ u. await_started) r n)
  after_start none n h = inr (refl, refl)
  after_start (some u) n h =
      let e = h refl in
      inl (refl, rw (wait-here "started" false n (is_reached n "started" e), e) (refl, refl))

  start-stopped : (n : broker.Node) → broker.state n ≡ "stopped" → start n ≡ broker.start n
  unfolding start
  start-stopped n e = rw e refl

  after_shutdown :
      (r : Option (Unit {0})) (n : broker.Node)
      → (is_some r ≡ true → broker.state n ≡ "stopped")
      → Outcome (is_some r && is_some (broker.start n).0) (continue (λ u. restart_on) r n)
  unfolding restart_on
  after_shutdown none n h = inr (refl, refl)
  after_shutdown (some u) n h =
      let e = h refl in
      rw (wait-here "stopped" false n (is_reached n "stopped" e), e, start-stopped n e)
        (after_start (broker.start n).0 (broker.start n).1 (laws.state-start n e))

  -- A restart of a server that runs, is stopped, or is on the way to one of these, where a way ends
  -- within one wait: it never answers false. Where amqtt's own shutdown and start return, it answers
  -- true and the server has started; where one of them raises, it raises.
  pub restart-started :
      (n : broker.Node) (st : String)
      → Running st
      → broker.state n ≡ st
      → Settling n
      → Outcome (both_return n) (restart n)
  unfolding restart
  restart-started n st running e h =
      rw (shutdown-brought_down n st running e h)
        (after_shutdown (brought_down n).0 (brought_down n).1 (down-stopped n st running e h))
