-- ===== src/Xmpp/Client.antt =====
-- The state of one connection among the server's clients, and the operations on which the
-- handlers rest: `send`, `set_state` and `disconnect` of `XMPPAsyncClient`.
pub mod Laws
use bumper.Base.{
  ℕ, String, Bool, true, false, not, Option, none, some, List, [], ◌∷◌, ◌++◌, ◌==◌, if◌then◌else◌,
  ltb,
}
use bumper.Text.{replace_char}
use bumper.Models.{VacBotDevice, VacBotClient}
use bumper.Db.Tiny.{TinyDb}
use bumper.Db.Bots
use bumper.Db.Clients

pub data ClientState : Type 0 where
  idle connect init bind ready disconnected : ClientState

-- The numbers of the states, IDLE to DISCONNECT.
abbrev pub rank : ClientState → ℕ
rank idle = 0
rank connect = 1
rank init = 2
rank bind = 3
rank ready = 4
rank disconnected = 5

abbrev pub is_ready : ClientState → Bool
is_ready ready = true
is_ready s = false

pub data Kind : Type 0 where
  unknown bot controller : Kind

abbrev pub is_bot : Kind → Bool
is_bot bot = true
is_bot k = false

pub record Client : Type 0 where
  -- Which connection this is: the address of the peer.
  pub address : ℕ
  pub kind : Kind
  pub state : ClientState
  pub resource : Option String
  pub devclass : String
  pub bumper_jid : String
  pub uid : String
  pub tls_upgraded : Bool
  -- Whether the ping task runs, and whether the transport was closed.
  pub pinging : Bool
  pub closed : Bool

-- `XMPPAsyncClient.__init__`
abbrev pub new_client : ℕ → Client
new_client address = record {
  address = address;
  kind = unknown;
  state = idle;
  resource = some "";
  devclass = "";
  bumper_jid = "";
  uid = "";
  tls_upgraded = false;
  pinging = false;
  closed = false;
}

-- One client, `self`, in its place among the clients of the server, with the tables of bots and
-- clients and the texts that were written so far, each with the connection that it went to.
pub record Conn ⦃db : TinyDb⦄ : Type 0 where
  pub before : List Client
  pub self : Client
  pub after : List Client
  pub bots : db.Table
  pub clients : db.Table
  pub sent : List (ℕ × String)

module _ ⦃db : TinyDb⦄ where
  abbrev pub everyone : Conn → List Client
  everyone s = s.before ++ s.self ∷ s.after

  -- `send`: double quotes become single quotes.
  unfoldable pub send_to : Client → String → Conn → Conn
  send_to c command s = record s {
    sent = s.sent ++ (c.address, replace_char "\"" "'" command) ∷ [];
  }

  unfoldable pub send : String → Conn → Conn
  unfolding send_to
  send command s = send_to s.self command s

  abbrev bot_gone : Option VacBotDevice → Conn → Conn
  bot_gone none s = s
  bot_gone (some b) s = record s { bots = Bots.set_xmpp b.did false s.bots }

  abbrev client_gone : Option VacBotClient → Conn → Conn
  client_gone none s = s
  client_gone (some c) s = record s { clients = Clients.set_xmpp c.userid false s.clients }

  abbrev pub mark_offline : Conn → Conn
  mark_offline s =
      if not (s.self.devclass == "")
      then bot_gone (Bots.get s.self.uid s.bots) s
      else client_gone (Clients.get s.self.uid s.clients) s

  abbrev pub close_self : Conn → Conn
  close_self s = record s { self = record s.self { pinging = false; closed = true } }

  unfoldable pub disconnect : Conn → Conn
  disconnect s = close_self (mark_offline s)

  abbrev pub enter : ClientState → Conn → Conn
  enter disconnected s = disconnect (record s { self = record s.self { state = disconnected } })
  enter new s = record s { self = record s.self { state = new } }

  -- A step back in the order of the states is logged and not made.
  unfoldable pub set_state : ClientState → Conn → Conn
  unfolding disconnect
  set_state new s = if ltb (rank new) (rank s.self.state) then s else enter new s
