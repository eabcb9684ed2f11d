-- ===== src/Lifecycle/Off.antt =====
-- That nothing of the program runs, for `shutdown` of `bumper/__init__.py`: what is left of the XMPP
-- clients, and the states that a broker may be met in.
use bumper.Base.{
  sym, List, ◌∷◌, ◌++◌, is_some, contains, Option-cases, ◌⊎◌, ◌==◌, eq_iff, ==_ne, arith,
  Bool-cases, inl, inr, ℕ, zero, suc, String, ◌≡◌, refl, Bool, true, false, Option, none, some, [],
}
use bumper.Db.Tiny.{TinyDb}
use bumper.Mqtt.Helper.{Bot, CommandCache}
use bumper.Mqtt.Server.{Broker}
use bumper.Mqtt.Server.Laws.{Settling}
use bumper.Xmpp.Client.{Client, Conn, disconnect}
use bumper.Xmpp.Server.{Server, disconnect_each, shut_down, unfocus}
use bumper.Web.Server.{Http, Web}
use bumper.Lifecycle.{Bumper, Xmpp, wait_while, stop_xmpp, TaskEnd, returned, cancelled}

abbrev pub AllClosed : List Client → Type 0
AllClosed [] = Unit
AllClosed (c ∷ cs) = (c.closed ≡ true) × AllClosed cs

AllClosed-snoc :
    (cs : List Client) (c : Client) → AllClosed cs → c.closed ≡ true → AllClosed (cs ++ c ∷ [])
AllClosed-snoc [] c h k = (k, tt)
AllClosed-snoc (x ∷ cs) c (p, h) k = (p, AllClosed-snoc cs c h k)

-- Every task that is cancelled ends, by returning or by its cancellation.
pub data AllEnd : List TaskEnd → Type 0 where
  none_left : AllEnd []
  one_returns : {tasks : List TaskEnd} → AllEnd tasks → AllEnd (returned ∷ tasks)
  one_cancelled : {tasks : List TaskEnd} → AllEnd tasks → AllEnd (cancelled ∷ tasks)

-- What may stand in the way of a shutdown.
abbrev pub transient : List String
transient = "starting" ∷ "stopping" ∷ []

abbrev pub active : List String
active = "starting" ∷ "stopping" ∷ "started" ∷ []

-- Nothing runs: the helper bot has no connection, the web server no runner, the broker neither runs
-- nor is on its way, and where an XMPP server was made it does not serve and every client's
-- transport is closed.
module _ ⦃db : TinyDb⦄ ⦃cache : CommandCache⦄ ⦃broker : Broker⦄ ⦃http : Http⦄ where
  abbrev pub HelperOff : Option Bot → Type 0
  HelperOff none = Unit
  HelperOff (some b) = (b.client ≡ false) × ((b.started ≡ false) × (b.is_connected ≡ false))

  abbrev pub WebOff : Option Web → Type 0
  WebOff none = Unit
  WebOff (some w) = w.runners ≡ []

  abbrev pub MqttOff : Option broker.Node → Type 0
  MqttOff none = Unit
  MqttOff (some n) = contains active (broker.state n) ≡ false

  abbrev pub XmppOff : Option Xmpp → Type 0
  XmppOff none = Unit
  XmppOff (some x) = (x.socket ≡ none) ⊎ ((x.socket ≡ some false) × AllClosed x.server.peers)

  pub record Down (s : Bumper) : Type 0 where
    pub shutting_down : s.shutting_down ≡ true
    pub helperbot : HelperOff s.helperbot
    pub web : WebOff s.web
    pub mqtt : MqttOff s.mqtt
    pub xmpp : XmppOff s.xmpp

  -- Time settles a broker that is on its way; of others nothing is asked.
  abbrev pub Settled : Option broker.Node → Type 0
  Settled none = Unit
  Settled (some n) = Settling n

  -- The shutdown of a broker that runs does not raise.
  abbrev pub Halts : Type 0
  Halts = (n : broker.Node) → broker.state n ≡ "started" → is_some (broker.shutdown n).0 ≡ true

  disconnect-closed : (s : Conn) → (disconnect s).self.closed ≡ true
  unfolding disconnect
  disconnect-closed s = refl

  disconnect_each-AllClosed :
      (seen cs : List Client) (sv : Server)
      → AllClosed seen
      → AllClosed (disconnect_each seen cs sv).peers
  unfolding disconnect_each
  disconnect_each-AllClosed seen [] sv h = h
  disconnect_each-AllClosed seen (c ∷ cs) sv h =
      let s : Conn = disconnect (record {
        before = seen;
        self = c;
        after = cs;
        bots = sv.bots;
        clients = sv.clients;
        sent = sv.sent;
      }) in
      disconnect_each-AllClosed (seen ++ s.self ∷ []) cs (unfocus s)
        (AllClosed-snoc seen s.self h (disconnect-closed _))

  pub stop_xmpp-XmppOff : (x : Option Xmpp) → XmppOff (stop_xmpp x)
  unfolding shut_down
  stop_xmpp-XmppOff none = tt
  stop_xmpp-XmppOff (some x) = elim (Option-cases x.socket) [
    | inl e ↦ rw e (inl e)
    | inr (serves, e) ↦ rw e (inr (refl, disconnect_each-AllClosed [] x.server.peers x.server tt))
  ]

pub wait_while-ended :
    {A : Type 0} (fuel : ℕ) (test : A → Bool) (elapse : A → A) (a : A)
    → test a ≡ false
    → wait_while fuel test elapse a ≡ some a
unfolding wait_while
wait_while-ended zero test elapse a h = rw h refl
wait_while-ended (suc fuel) test elapse a h = rw h refl

pub wait_while-once :
    {A : Type 0} (fuel : ℕ) (test : A → Bool) (elapse : A → A) (a : A)
    → test a ≡ true
    → test (elapse a) ≡ false
    → wait_while (suc fuel) test elapse a ≡ some (elapse a)
unfolding wait_while
wait_while-once fuel test elapse a h k = rw h (wait_while-ended fuel test elapse (elapse a) k)

pub state_cases :
    (st : String)
    → (st ≡ "starting") ⊎ ((st ≡ "stopping") ⊎ ((st ≡ "started") ⊎ (contains active st ≡ false)))
state_cases st = elim (Bool-cases ("starting" == st)) [
  | inl e ↦ inl (sym ((eq_iff "starting" st).0 e))
  | inr e ↦ elim (Bool-cases ("stopping" == st)) [
    | inl p ↦ inr (inl (sym ((eq_iff "stopping" st).0 p)))
    | inr p ↦ elim (Bool-cases ("started" == st)) [
      | inl q ↦ inr (inr (inl (sym ((eq_iff "started" st).0 q))))
      | inr q ↦ inr (inr (inr (rw (e, p, q) refl)))
    ]
  ]
]

pub at_rest-started : (st : String) → contains active st ≡ false → (st == "started") ≡ false
at_rest-started st h = ==_ne st "started" (λ e. absurd cc (rw e at h))

pub at_rest-transient : (st : String) → contains active st ≡ false → contains transient st ≡ false
at_rest-transient st h = ground (arith, h)
