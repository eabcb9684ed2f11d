-- ===== src/Lifecycle/Laws.antt =====
-- What runs after `shutdown` of `bumper/__init__.py`.
use mathlib.Core.Path.{subst}
use bumper.Base.{
  ap, sym, ◌∙◌, modify, ◌>>◌, List, ◌∷◌, is_some, contains, inl, inr, ℕ, suc, ◌≡◌, refl, true,
  false, Option, none, some, [], continue, Exec,
}
use bumper.Db.Tiny.{TinyDb}
use bumper.Mqtt.Helper as HelperBot
use bumper.Mqtt.Helper.{Bot, CommandCache}
use bumper.Mqtt.Server as MqttServer
use bumper.Mqtt.Server.{Broker, BrokerLaws}
use bumper.Mqtt.Server.Laws.{Settling}
use bumper.Web.Server as WebServer
use bumper.Web.Server.{Http, Web}
use bumper.Web.Server.Laws.{Stops, shutdown-cleared}
use bumper.Lifecycle.{
  Bumper, wait_while, stop_web, stop_node, stop_mqtt, stop_helper, begin_shutdown, close_xmpp,
  is_moving, shutdown, gather, TaskEnd, returned, cancelled, raised, never,
}
use bumper.Lifecycle.Off.{
  AllEnd, none_left, one_returns, one_cancelled, transient, active, stop_xmpp-XmppOff,
  wait_while-ended, wait_while-once, state_cases, at_rest-started, at_rest-transient, Halts,
  Settled, Down, HelperOff, WebOff, MqttOff,
}

module _ ⦃db : TinyDb⦄ ⦃cache : CommandCache⦄ ⦃broker : Broker⦄ ⦃laws : BrokerLaws broker⦄
    ⦃http : Http⦄ where
  abbrev Stopped : Option (Unit {0}) × Bumper → Type 0
  Stopped (r, s) = (r ≡ some tt) × MqttOff s.mqtt

  some_unit : (o : Option (Unit {0})) → is_some o ≡ true → o ≡ some tt
  some_unit none h = cc
  some_unit (some u) h = refl

  node_runs :
      (halts : Halts) (n : broker.Node) (s : Bumper)
      → broker.state n ≡ "started"
      → Stopped (stop_node (some n) s)
  unfolding MqttServer.shutdown
  node_runs halts n s e =
      rw e
        (some_unit (broker.shutdown n).0 (halts n e), rw (laws.state-shutdown n e (halts n e)) refl)

  node_at_rest :
      (n : broker.Node) (s : Bumper)
      → contains active (broker.state n) ≡ false
      → Stopped (stop_node (some n) s)
  node_at_rest n s e = rw (at_rest-started (broker.state n) e) (refl, e)

  settles :
      (fuel : ℕ) (n : broker.Node)
      → contains transient (broker.state n) ≡ true
      → contains transient (broker.state (broker.elapse n)) ≡ false
      → wait_while (suc fuel) is_moving broker.elapse n ≡ some (broker.elapse n)
  settles fuel n h k = wait_while-once fuel is_moving broker.elapse n h k

  stop_mqtt-Stopped :
      (halts : Halts) (fuel : ℕ) (n : broker.Node) (s : Bumper)
      → Settling n
      → Stopped (stop_mqtt (suc fuel) (some n) s)
  stop_mqtt-Stopped halts fuel n s h = elim (state_cases (broker.state n)) [
    | inl e ↦
        rw (settles fuel n (rw e refl) (rw (h.starting e) refl))
          (node_runs halts (broker.elapse n) s (h.starting e))
    | inr (inl e) ↦
        rw (settles fuel n (rw e refl) (rw (h.stopping e) refl))
          (node_at_rest (broker.elapse n) s (rw (h.stopping e) refl))
    | inr (inr (inl e)) ↦
        rw (wait_while-ended (suc fuel) is_moving broker.elapse n (rw e refl))
          (node_runs halts n s e)
    | inr (inr (inr e)) ↦
        rw
          (wait_while-ended (suc fuel) is_moving broker.elapse n
            (at_rest-transient (broker.state n) e))
          (node_at_rest n s e)
  ]

  abbrev Finished : Option (Unit {0}) × Bumper → Type 0
  Finished (r, s) = (r ≡ some tt) × Down s

  -- A stage that succeeds goes on.
  goes_on :
      (f : Unit {0} → Exec Bumper (Unit {0})) (o : Option (Unit {0})) (s : Bumper)
      → o ≡ some tt
      → Finished (f tt s)
      → Finished (continue f o s)
  goes_on f none s h k = absurd cc
  goes_on f (some u) s h k = k

  -- Only the broker's place changes.
  stop_node-keeps :
      (o : Option broker.Node) (s : Bumper)
      → (stop_node o s).1 ≡ record s { mqtt = (stop_node o s).1.mqtt }
  stop_node-keeps none s = refl
  stop_node-keeps (some n) s = refl

  stop_mqtt-keeps :
      (fuel : ℕ) (m : Option broker.Node) (s : Bumper)
      → (stop_mqtt fuel m s).1 ≡ record s { mqtt = (stop_mqtt fuel m s).1.mqtt }
  stop_mqtt-keeps fuel none s = refl
  stop_mqtt-keeps fuel (some n) s = stop_node-keeps (wait_while fuel is_moving broker.elapse n) s

  mqtt_stage :
      (halts : Halts) (fuel : ℕ) (m : Option broker.Node) (s : Bumper)
      → Settled m
      → s.mqtt ≡ m
      → Stopped (stop_mqtt (suc fuel) m s)
  mqtt_stage halts fuel none s settled h = (refl, rw h tt)
  mqtt_stage halts fuel (some n) s settling h = stop_mqtt-Stopped halts fuel n s settling

  gather_lem : (tasks : List TaskEnd) (s : Bumper) → AllEnd tasks → gather tasks s ≡ (some tt, s)
  unfolding gather
  gather_lem [] s none_left = refl
  gather_lem (returned ∷ tasks) s (one_returns h) = gather_lem tasks s h
  gather_lem (cancelled ∷ tasks) s (one_cancelled h) = refl
  gather_lem (raised ∷ tasks) s h = elim h [ ]
  gather_lem (never ∷ tasks) s h = elim h [ ]

  abbrev finish : List TaskEnd → Exec Bumper (Unit {0})
  finish tasks = do modify close_xmpp; gather tasks

  last_stage :
      (tasks : List TaskEnd) (s s' : Bumper) (r : Option (Unit {0}))
      → AllEnd tasks
      → s' ≡ record s { mqtt = s'.mqtt }
      → Stopped (r, s')
      → s.shutting_down ≡ true
      → HelperOff s.helperbot
      → WebOff s.web
      → Finished (continue (λ u. finish tasks) r s')
  last_stage tasks s s' r ends keeps (ok, off) down helper web =
      goes_on (λ u. finish tasks) r s' ok
        (rw (gather_lem tasks (close_xmpp s') ends) (
          refl,
          record {
            shutting_down = ap (λ x. x.shutting_down) keeps ∙ down;
            helperbot = subst HelperOff (sym (ap (λ x. x.helperbot) keeps)) helper;
            web = subst WebOff (sym (ap (λ x. x.web) keeps)) web;
            mqtt = off;
            xmpp = stop_xmpp-XmppOff s'.xmpp;
          },
        ))

  helper_off : (b : Option Bot) → HelperOff (stop_helper b)
  unfolding HelperBot.disconnect
  helper_off none = tt
  helper_off (some b) = (refl, (refl, refl))

  abbrev rest : ℕ → List TaskEnd → Bumper → Option (Unit {0}) × Bumper
  rest fuel tasks s =
      continue (λ u. finish tasks) (stop_mqtt fuel s.mqtt s).0 (stop_mqtt fuel s.mqtt s).1

  rest-Finished :
      (halts : Halts) (fuel : ℕ) (tasks : List TaskEnd) (s : Bumper)
      → AllEnd tasks
      → Settled s.mqtt
      → s.shutting_down ≡ true
      → HelperOff s.helperbot
      → WebOff s.web
      → Finished (rest (suc fuel) tasks s)
  rest-Finished halts fuel tasks s ends settled down helper web =
      last_stage tasks s (stop_mqtt (suc fuel) s.mqtt s).1 (stop_mqtt (suc fuel) s.mqtt s).0 ends
        (stop_mqtt-keeps (suc fuel) s.mqtt s) (mqtt_stage halts fuel s.mqtt s settled refl) down
        helper web

  web_stage :
      (halts : Halts) (fuel : ℕ) (tasks : List TaskEnd) (w : Option Web) (s : Bumper)
      → Stops
      → AllEnd tasks
      → Settled s.mqtt
      → s.shutting_down ≡ true
      → HelperOff s.helperbot
      → s.web ≡ w
      → Finished (continue (λ u. rest (suc fuel) tasks) (stop_web w s).0 (stop_web w s).1)
  web_stage halts fuel tasks none s stops ends settled down helper h =
      rest-Finished halts fuel tasks s ends settled down helper (rw h tt)
  web_stage halts fuel tasks (some w) s stops ends settled down helper h =
      let s' : Bumper = record s { web = some (WebServer.shutdown w).1 } in
      let (ok, off) = shutdown-cleared stops w in
      goes_on (λ u. rest (suc fuel) tasks) (WebServer.shutdown w).0 s' ok
        (rest-Finished halts fuel tasks s' ends settled down helper off)

  -- A shutdown completes, with one look at a broker that is on its way, and then nothing runs: the
  -- helper bot has no connection, the web server no runner, the broker neither runs nor is on its
  -- way, and where an XMPP server was made it does not serve and the transport of every client is
  -- closed. That is so for a broker in any state, one that never started included, where aiohttp and
  -- the shutdown of a running broker do not raise, a broker that starts or stops has done so by the
  -- next look, and every other task, once cancelled, ends by returning or by its cancellation.
  pub shutdown-Down :
      (stops : Stops) (halts : Halts) (fuel : ℕ) (tasks : List TaskEnd) (s : Bumper)
      → AllEnd tasks
      → Settled s.mqtt
      → let (r, s') = shutdown (suc fuel) tasks s in (r ≡ some tt) × Down s'
  unfolding shutdown
  shutdown-Down stops halts fuel tasks s ends settled =
      let s' : Bumper = begin_shutdown s in
      web_stage halts fuel tasks s'.web s' stops ends settled refl (helper_off s.helperbot) refl
