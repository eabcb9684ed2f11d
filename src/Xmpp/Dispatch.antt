-- ===== src/Xmpp/Dispatch.antt =====
-- What a connection does with the data that it receives: `parse_data` from the parsed elements on,
-- and `_handle_iq`.
pub mod Laws
use bumper.Base.{
  ℕ, zero, suc, ◌+◌, String, Bool, true, false, not, ◌&&◌, ◌||◌, Option, none, some, List, [], ◌∷◌,
  ◌==◌, if◌then◌else◌,
}
use bumper.Settings.{Config}
use bumper.Db.Tiny.{TinyDb}
use bumper.Xmpp.Element.{
  Element, element, Children, leaf, child, tag, attr, children, head, strip_uri, item_tag,
  item_namespace,
}
use bumper.Xmpp.Client.{Client, ClientState, connect, init, is_bot, Conn}
use bumper.Xmpp.Login.{
  handle_connect, handle_starttls, handle_sasl_auth, handle_bind, handle_session, handle_presence,
}
use bumper.Xmpp.Route.{Rendering, handle_ctl, handle_ping, handle_result}

abbrev is_type : Option String → String → Bool
is_type none t = false
is_type (some s) t = s == t

abbrev is_opening : ClientState → Bool
is_opening connect = true
is_opening init = true
is_opening s = false

-- What the handlers are given: the decoder of credentials, the rendering, the settings and the
-- table of tokens.
pub record Service ⦃db : TinyDb⦄ : Type 0 where
  pub decode : String → Option String
  pub out : Rendering
  pub cfg : Config
  pub tokens : db.Table

module _ ⦃db : TinyDb⦄ (sv : Service) where
  abbrev query : Element → String → Conn → Conn
  query xml data' s =
      if is_bot s.self.kind
      then handle_result sv.out sv.cfg xml data' s
      else handle_ctl sv.out xml data' s

  abbrev untitled : Element → String → Conn → Conn
  untitled xml data' s =
      if is_type (attr "type" xml) "result" || is_type (attr "type" xml) "set"
      then handle_result sv.out sv.cfg xml data' s
      else s

  abbrev by_child : Option String → Element → String → Conn → Conn
  by_child none xml data' s = untitled xml data' s
  by_child (some c) xml data' s =
      if c == "bind"
      then handle_bind xml s
      else if c == "session"
      then handle_session xml s
      else if c == "ping"
      then handle_ping sv.out xml s
      else if c == "query"
      then query xml data' s
      else untitled xml data' s

  abbrev child_name : Option Element → Option String
  child_name none = none
  child_name (some e) = some (strip_uri (tag e))

  unfoldable pub handle_iq : Element → String → Conn → Conn
  handle_iq xml data' s =
      if tag xml == "iq" then by_child (child_name (head (children xml))) xml data' s else s

  -- One element; the number counts the upgrades to TLS that are scheduled.
  unfoldable pub handle_item : Element → String → Conn × ℕ → Conn × ℕ
  handle_item xml data' (s, n) =
      if item_tag xml == "iq"
      then (handle_iq xml data' s, n)
      else if item_tag xml == "auth" && item_namespace xml == "urn:ietf:params:xml:ns:xmpp-sasl"
      then (handle_sasl_auth sv.decode sv.cfg sv.tokens xml s, n)
      else if item_tag xml == "starttls" && not s.self.tls_upgraded
      then (s, n + 1)
      else if item_tag xml == "presence"
      then (handle_presence xml s, n)
      else if item_tag xml == "stream" && is_opening s.self.state
      then (handle_connect data' s, n)
      else (s, n)

  -- Every element that is handled is cleared, so only what stands directly below a root is seen.
  unfoldable mutual
    pub visit : Element → String → Conn × ℕ → Conn × ℕ
    visit (element t a x c) data' s =
        if item_tag (element t a x c) == "root"
        then visit_all c data' s
        else handle_item (element t a x c) data' s

    pub visit_all : Children → String → Conn × ℕ → Conn × ℕ
    visit_all leaf data' s = s
    visit_all (child e es) data' s = visit_all es data' (visit e data' s)

  unfoldable pub run_upgrades : ℕ → Conn → Conn
  run_upgrades zero s = s
  run_upgrades (suc n) s = run_upgrades n (handle_starttls s)

  -- `parse_data` behind the parser: the root that was put round the data, and the upgrades that
  -- it scheduled, which run when it is done.
  unfoldable pub handle_data : Element → String → Conn → Conn
  unfolding visit run_upgrades
  handle_data root data' s = let (s', n) = visit root data' (s, 0) in run_upgrades n s'
