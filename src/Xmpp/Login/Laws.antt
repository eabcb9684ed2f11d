-- ===== src/Xmpp/Login/Laws.antt =====
-- Who gets through the login, and that no step of it moves a connection's state back.
use bumper.Base.{
  String, Bool, true, false, not, Option, none, some, arith, ◌==◌, Bool-cases, inl, inr,
}
use bumper.Settings.{Config}
use bumper.Db.Tiny.{TinyDb}
use bumper.Xmpp.Element.{Element, element, children, head}
use bumper.Xmpp.Client.{
  ClientState, connect, init, bind, ready, disconnected, Conn, send, send_to, set_state,
}
use bumper.Xmpp.Client.Laws.{
  Advances, Advances-refl, Advances-trans, send-Advances, set_state-Advances,
}
use bumper.Xmpp.Login.{
  Credentials, handle_connect, handle_starttls, read_credentials, login, login_bot,
  login_controller, handle_sasl_auth, handle_bind, handle_session, handle_presence, mark_online,
  connect_in, bind_first, bound, login_read, login_decoded,
}

module _ ⦃db : TinyDb⦄ where
  connect_in-Advances : (st : ClientState) (d : String) (s : Conn) → Advances s (connect_in st d s)
  unfolding send send_to
  connect_in-Advances connect d s = ground arith
  connect_in-Advances _ d s = ground arith

  pub handle_connect-Advances : (d : String) (s : Conn) → Advances s (handle_connect d s)
  unfolding handle_connect
  handle_connect-Advances d s = connect_in-Advances s.self.state d s

  pub handle_starttls-Advances : (s : Conn) → Advances s (handle_starttls s)
  unfolding handle_starttls send
  handle_starttls-Advances s = ground arith

  advance_to :
      (new : ClientState) (s : Conn) {u : Conn} → Advances s u → Advances s (set_state new u)
  advance_to new s {u} h = Advances-trans h (set_state-Advances new u)

  named :
      (s : Conn) (c : Credentials)
      → Advances s (record s { self = record s.self { uid = c.username; resource = c.resource } })
  named s c = ground arith

  login_bot-Advances : (s : Conn) → Advances s (login_bot s)
  unfolding send
  login_bot-Advances s = advance_to init s (ground arith)

  login_controller-Advances :
      (auth : Bool) (resource : Option String) (s : Conn)
      → Advances s (login_controller auth resource s)
  unfolding send
  login_controller-Advances true (some resource) s =
      Advances-trans (advance_to init s (ground arith)) (send-Advances _ _)
  login_controller-Advances true none s = ground arith
  login_controller-Advances false resource s = ground arith

  login-Advances :
      (cfg : Config) (tokens : db.Table) (c : Credentials) (s : Conn)
      → Advances s (login cfg tokens c s)
  unfolding login
  login-Advances cfg tokens c s = elim (Bool-cases (not (s.self.devclass == ""))) [
    | inl e ↦ rw e (Advances-trans (named s c) (login_bot-Advances _))
    | inr e ↦ rw e (Advances-trans (named s c) (login_controller-Advances _ _ _))
  ]

  pub handle_session-Advances : (xml : Element) (s : Conn) → Advances s (handle_session xml s)
  unfolding handle_session send
  handle_session-Advances xml s = ground (arith, set_state-Advances ready s)

  read-Advances :
      (cfg : Config) (tokens : db.Table) (c : Option Credentials) (s : Conn)
      → Advances s (login_read cfg tokens c s)
  read-Advances cfg tokens none s = Advances-refl s
  read-Advances cfg tokens (some c) s = login-Advances cfg tokens c s

  decoded-Advances :
      (cfg : Config) (tokens : db.Table) (d : Option String) (s : Conn)
      → Advances s (login_decoded cfg tokens d s)
  decoded-Advances cfg tokens none s = Advances-refl s
  decoded-Advances cfg tokens (some d) s =
      read-Advances cfg tokens (read_credentials d s.self.resource) s

  bound-Advances : (e : Option Element) (s : Conn) → Advances s (record s { self = bound e s.self })
  bound-Advances none s = ground arith
  bound-Advances (some e) s = ground arith

  mark_online-Advances : (s : Conn) → Advances s (mark_online s)
  mark_online-Advances s = ground arith

  bind_first-Advances :
      (xml : Element) (e : Option Element) (s : Conn) → Advances s (bind_first xml e s)
  bind_first-Advances xml none s = Advances-refl s
  bind_first-Advances xml (some b) s =
      Advances-trans
        (advance_to bind s {u = record s { self = bound (head (children b)) s.self }}
          (bound-Advances (head (children b)) s))
        (send-Advances _ _)

  pub handle_bind-Advances : (xml : Element) (s : Conn) → Advances s (handle_bind xml s)
  unfolding handle_bind
  handle_bind-Advances xml s =
      Advances-trans (mark_online-Advances s)
        (bind_first-Advances xml (head (children xml)) (mark_online s))

  pub handle_sasl_auth-Advances :
      (decode : String → Option String) (cfg : Config) (tokens : db.Table) (xml : Element)
      (s : Conn)
      → Advances s (handle_sasl_auth decode cfg tokens xml s)
  unfolding handle_sasl_auth
  handle_sasl_auth-Advances decode cfg tokens (element t a none c) s = Advances-refl s
  handle_sasl_auth-Advances decode cfg tokens (element t a (some x) c) s =
      decoded-Advances cfg tokens (decode x) s

  pub handle_presence-Advances : (xml : Element) (s : Conn) → Advances s (handle_presence xml s)
  unfolding handle_presence send
  handle_presence-Advances xml s = ground (arith, set_state-Advances disconnected s)
