-- ===== src/Xmpp/Login.antt =====
-- From the first stream to a ready session: `_handle_connect`, `_handle_starttls`,
-- `_handle_sasl_auth`, `_handle_bind`, `_handle_session` and `_handle_presence`.
pub mod Laws
use bumper.Base.{
  ℕ, ◌+◌, String, Bool, true, false, not, ◌&&◌, ◌||◌, Option, none, some, List, [], ◌∷◌, ◌==◌,
  if◌then◌else◌, get_elem?,
}
use bumper.Settings.{Config, domain_main}
use bumper.Text.{split, first_piece, find, contains_text, slice, concat}
use bumper.Models.{VacBotDevice, VacBotClient}
use bumper.Db.Tiny.{TinyDb}
use bumper.Db.Bots
use bumper.Db.Clients
use bumper.Db.Tokens.{verify_auth_code}
use bumper.Xmpp.Element.{
  Element, Children, element, leaf, child, tag, attr, text, children, head, shown,
}
use bumper.Xmpp.Client.{
  Client, Kind, bot, controller, is_bot, ClientState, connect, init, bind, ready, disconnected,
  Conn, send, set_state,
}

abbrev stream_header : String
stream_header = concat (
    "<stream:stream xmlns:stream='http://etherx.jabber.org/streams'"
    ∷ " xmlns='jabber:client' version='1.0' id='1' from='" ∷ domain_main ∷ "'>" ∷ [])

abbrev features_starttls : String
features_starttls = concat (
    "<stream:features><starttls xmlns='urn:ietf:params:xml:ns:xmpp-tls'><required/></starttls>"
    ∷ "<mechanisms xmlns='urn:ietf:params:xml:ns:xmpp-sasl'><mechanism>PLAIN</mechanism></mechanisms>"
    ∷ "</stream:features>" ∷ [])

abbrev features_sasl : String
features_sasl = concat (
    "<stream:features><mechanisms xmlns='urn:ietf:params:xml:ns:xmpp-sasl'>"
    ∷ "<mechanism>PLAIN</mechanism></mechanisms></stream:features>" ∷ [])

abbrev features_session : String
features_session = concat (
    "<stream:features><bind xmlns='urn:ietf:params:xml:ns:xmpp-bind'/>"
    ∷ "<session xmlns='urn:ietf:params:xml:ns:xmpp-session'/></stream:features>" ∷ [])

abbrev sasl_success : String
sasl_success = "<success xmlns='urn:ietf:params:xml:ns:xmpp-sasl'/>"

abbrev sasl_failure : String
sasl_failure = "<response xmlns='urn:ietf:params:xml:ns:xmpp-sasl'/>"

-- Where `xml_str[sc + 4 : ec]` begins; a text that is not found is at -1.
abbrev class_start : Option ℕ → ℕ
class_start none = 3
class_start (some sc) = sc + 4

abbrev class_between : String → Option ℕ → Option ℕ → String → String
class_between data' sc none old = old
class_between data' sc (some ec) old = slice (class_start sc) ec data'

-- The class of a device from the address that its stream names.
unfoldable pub device_class : String → String → String
device_class data' old = class_between data' (find "to=" data') (find ".ecorobot.net" data') old

-- The pieces of the credentials that were sent.
pub record Credentials : Type 0 where
  pub username : String
  pub resource : Option String
  pub authcode : String

module _ ⦃db : TinyDb⦄ where
  abbrev connect_first : String → Conn → Conn
  connect_first data' s =
      if contains_text "jabber:client" data'
      then send (if s.self.tls_upgraded then features_sasl else features_starttls) (
          send stream_header
            (record s { self = record s.self { devclass = device_class data' s.self.devclass } }))
      else send "</stream>" s

  abbrev connect_again : String → Conn → Conn
  connect_again data' s =
      if contains_text "jabber:client" data'
      then send features_session (send stream_header s)
      else s

  abbrev connect_in : ClientState → String → Conn → Conn
  connect_in connect data' s = connect_first data' s
  connect_in init data' s = connect_again data' s
  connect_in other data' s = s

  -- `_handle_connect` with no element, as the dispatcher calls it.
  unfoldable pub handle_connect : String → Conn → Conn
  unfolding device_class
  handle_connect data' s = connect_in s.self.state data' s

  -- `_handle_starttls` up to the change of transports.
  unfoldable pub handle_starttls : Conn → Conn
  handle_starttls s =
      if s.self.tls_upgraded
      then s
      else send "<proceed xmlns='urn:ietf:params:xml:ns:xmpp-tls'/>"
          (record s { self = record s.self { tls_upgraded = true } })

  abbrev or_else : Option String → Option String → Option String
  or_else none d = d
  or_else (some a) d = some a

  abbrev pub credentials_of :
      List String → Option String → Option String → Option String → Option Credentials
  credentials_of saslauth none third old = none
  credentials_of saslauth (some username) third old = some (record {
    username = username;
    resource = or_else (get_elem? saslauth 1) (or_else third old);
    authcode = elim (get_elem? saslauth 2) [ none ↦ "" | some c ↦ c ];
  })

  -- `username NUL resource` or `.../resource/authcode`; none is the `IndexError` without a NUL.
  unfoldable pub read_credentials : String → Option String → Option Credentials
  read_credentials decoded old =
      let saslauth = split "/" decoded in
      let first = split "\0" (first_piece saslauth) in
      credentials_of saslauth (get_elem? first 1) (get_elem? first 2) old

  abbrev login_bot : Conn → Conn
  login_bot s = set_state init (
      send sasl_success (record s {
        bots = Bots.add s.self.uid s.self.uid s.self.devclass "atom" "eco-legacy" s.bots;
        self = record s.self { kind = bot };
      }))

  abbrev login_controller : Bool → Option String → Conn → Conn
  login_controller true (some resource) s = send sasl_success (
      set_state init (record s {
        clients = Clients.add (some s.self.uid) s.self.uid "USER" resource s.clients;
        self = record s.self { kind = controller };
      }))
  login_controller auth resource s = send sasl_failure s

  unfoldable pub login : Config → db.Table → Credentials → Conn → Conn
  login cfg tokens c s =
      let s' = record s { self = record s.self { uid = c.username; resource = c.resource } } in
      if not (s.self.devclass == "")
      then login_bot s'
      else login_controller (verify_auth_code c.username c.authcode tokens || not cfg.use_auth)
          c.resource s'

  abbrev login_read : Config → db.Table → Option Credentials → Conn → Conn
  login_read cfg tokens none s = s
  login_read cfg tokens (some c) s = login cfg tokens c s

  abbrev login_decoded : Config → db.Table → Option String → Conn → Conn
  login_decoded cfg tokens none s = s
  login_decoded cfg tokens (some decoded) s =
      login_read cfg tokens (read_credentials decoded s.self.resource) s

  -- The first argument decodes base64 to text; none is its exception.
  unfoldable pub handle_sasl_auth :
      (String → Option String) → Config → db.Table → Element → Conn → Conn
  handle_sasl_auth decode cfg tokens xml s = elim (text xml) [
    | none ↦ s
    | some t ↦ login_decoded cfg tokens (decode t) s
  ]

  abbrev bot_bound : Option VacBotDevice → Conn → Conn
  bot_bound none s = s
  bot_bound (some b) s = record s { bots = Bots.set_xmpp b.did true s.bots }

  abbrev client_bound : Option VacBotClient → Conn → Conn
  client_bound none s = s
  client_bound (some c) s = record s { clients = Clients.set_xmpp c.userid true s.clients }

  abbrev pub mark_online : Conn → Conn
  mark_online s =
      if not (s.self.devclass == "")
      then bot_bound (Bots.get s.self.uid s.bots) s
      else client_bound (Clients.get s.self.uid s.clients) s

  abbrev bot_jid : Client → String
  bot_jid c = concat (c.uid ∷ "@" ∷ c.devclass ∷ ".ecorobot.net/atom" ∷ [])

  abbrev bound : Option Element → Client → Client
  bound first c =
      if not (c.devclass == "") then record c { bumper_jid = bot_jid c } else elim first [
        | none ↦ record c { bumper_jid = concat (c.uid ∷ "@" ∷ domain_main ∷ []) }
        | some e ↦ record c {
          resource = text e;
          bumper_jid = concat (c.uid ∷ "@" ∷ domain_main ∷ "/" ∷ shown (text e) ∷ []);
        }
      ]

  abbrev bind_reply : Element → String → String
  bind_reply xml jid = concat (
      "<iq type='result' id='"
      ∷ shown (attr "id" xml)
      ∷ "'><bind xmlns='urn:ietf:params:xml:ns:xmpp-bind'><jid>"
      ∷ jid
      ∷ "</jid></bind></iq>"
      ∷ [])

  abbrev bind_first : Element → Option Element → Conn → Conn
  bind_first xml none s = s
  bind_first xml (some b) s =
      let self' = bound (head (children b)) s.self in
      send (bind_reply xml self'.bumper_jid) (set_state bind (record s { self = self' }))

  -- The bot or client is marked as online before the binding is read.
  unfoldable pub handle_bind : Element → Conn → Conn
  handle_bind xml s = bind_first xml (head (children xml)) (mark_online s)

  abbrev start_ping : Conn → Conn
  start_ping s = record s { self = record s.self { pinging = true } }

  unfoldable pub handle_session : Element → Conn → Conn
  handle_session xml s = start_ping (
      send (concat ("<iq type='result' id='" ∷ shown (attr "id" xml) ∷ "' />" ∷ []))
        (set_state ready s))

  abbrev dummy_presence : Conn → Conn
  dummy_presence s =
      send (concat ("<presence to='" ∷ s.self.bumper_jid ∷ "'> dummy </presence>" ∷ [])) s

  abbrev device_info : Conn → Conn
  device_info s =
      send
        (concat (
          "<iq type='set' id='14' to='" ∷ s.self.bumper_jid ∷ "' from='" ∷ domain_main
          ∷ "'><query xmlns='com:ctl'><ctl td='GetDeviceInfo'/></query></iq>" ∷ []))
        s

  abbrev is_status : Option Element → Bool
  is_status none = false
  is_status (some e) = tag e == "status"

  abbrev is_unavailable : Option String → Bool
  is_unavailable none = false
  is_unavailable (some t) = t == "unavailable"

  unfoldable pub handle_presence : Element → Conn → Conn
  handle_presence xml s =
      if is_status (head (children xml))
      then (if is_bot s.self.kind then device_info (dummy_presence s) else dummy_presence s)
      else if is_unavailable (attr "type" xml)
      then set_state disconnected s
      else dummy_presence s
