-- ===== src/Xmpp/Server.antt =====
-- The server's list of clients: `XMPPServerProtocol` and the shutdown of `XMPPServer`.
pub mod Laws
use bumper.Base.{
  ℕ, String, Bool, true, false, Option, none, some, List, [], ◌∷◌, ◌++◌, nat_eq, if◌then◌else◌,
}
use bumper.Db.Tiny.{TinyDb}
use bumper.Xmpp.Element.{Element}
use bumper.Xmpp.Client.{
  Client, new_client, connect, disconnected, Conn, everyone, set_state, disconnect,
}
use bumper.Xmpp.Dispatch.{Service}
use bumper.Xmpp.Repair.{parse_data}

pub record Server ⦃db : TinyDb⦄ : Type 0 where
  pub peers : List Client
  pub bots : db.Table
  pub clients : db.Table
  pub sent : List (ℕ × String)

-- What happens to the server: a connection, its upgrade to TLS, its loss, text that it receives,
-- and the shutdown. Data that is no UTF-8 raises, and asyncio answers with the loss of the
-- connection.
pub data Event : Type 0 where
  made : ℕ → Event
  upgraded : ℕ → Event
  lost : ℕ → Event
  received : ℕ → String → Event
  shutdown : Event

module _ ⦃db : TinyDb⦄ where
  -- The client with the address, in its place, or none.
  unfoldable pub focus_in : ℕ → List Client → List Client → Server → Option Conn
  focus_in a seen [] sv = none
  focus_in a seen (c ∷ cs) sv =
      let rest = focus_in a (seen ++ c ∷ []) cs sv in
      if nat_eq c.address a
      then some (record {
        before = seen;
        self = c;
        after = cs;
        bots = sv.bots;
        clients = sv.clients;
        sent = sv.sent;
      })
      else rest

  unfoldable pub focus : ℕ → Server → Option Conn
  unfolding focus_in
  focus a sv = focus_in a [] sv.peers sv

  abbrev pub unfocus : Conn → Server
  unfocus s = record { peers = everyone s; bots = s.bots; clients = s.clients; sent = s.sent }

  -- The client is taken off the list.
  abbrev pub unfocus_without : Conn → Server
  unfocus_without s = record {
    peers = s.before ++ s.after;
    bots = s.bots;
    clients = s.clients;
    sent = s.sent;
  }

  -- `self._client.transport = transport`: the new transport is open.
  abbrev upgrade : Option Conn → Server → Server
  upgrade none sv = sv
  upgrade (some s) sv = unfocus (record s { self = record s.self { closed = false } })

  -- The first argument says whether the protocol has a client already.
  unfoldable pub connection_made : Bool → ℕ → Server → Server
  connection_made true a sv = upgrade (focus a sv) sv
  connection_made false a sv = record sv {
    peers = sv.peers ++ record (new_client a) { state = connect } ∷ [];
  }

  abbrev lose : Option Conn → Server → Server
  lose none sv = sv
  lose (some s) sv = unfocus_without (set_state disconnected s)

  unfoldable pub connection_lost : ℕ → Server → Server
  connection_lost a sv = lose (focus a sv) sv

  abbrev receive : Service → (String → Option Element) → String → Option Conn → Server → Server
  receive service parse text none sv = sv
  receive service parse text (some s) sv = unfocus (parse_data service parse text s)

  unfoldable pub data_received : Service → (String → Option Element) → ℕ → String → Server → Server
  data_received service parse a text sv = receive service parse text (focus a sv) sv

  -- `for client in self.clients: client.disconnect()`
  unfoldable pub disconnect_each : List Client → List Client → Server → Server
  disconnect_each seen [] sv = record sv { peers = seen }
  disconnect_each seen (c ∷ cs) sv =
      let s = disconnect (record {
        before = seen;
        self = c;
        after = cs;
        bots = sv.bots;
        clients = sv.clients;
        sent = sv.sent;
      }) in
      disconnect_each (seen ++ s.self ∷ []) cs (unfocus s)

  unfoldable pub shut_down : Server → Server
  unfolding disconnect_each
  shut_down sv = disconnect_each [] sv.peers sv

  unfoldable pub step : Service → (String → Option Element) → Event → Server → Server
  step service parse (made a) sv = connection_made false a sv
  step service parse (upgraded a) sv = connection_made true a sv
  step service parse (lost a) sv = connection_lost a sv
  step service parse (received a text) sv = data_received service parse a text sv
  step service parse shutdown sv = shut_down sv

  unfoldable pub run : Service → (String → Option Element) → List Event → Server → Server
  unfolding step
  run service parse [] sv = sv
  run service parse (e ∷ es) sv = run service parse es (step service parse e sv)
