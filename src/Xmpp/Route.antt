-- ===== src/Xmpp/Route.antt =====
-- Stanzas for others: `_handle_ctl`, `_handle_ping` and `_handle_result`.
pub mod Laws
use bumper.Base.{
  ℕ, String, Bool, true, false, not, ◌&&◌, ◌||◌, Option, none, some, List, [], ◌∷◌, ◌==◌,
  if◌then◌else◌, is_some,
}
use bumper.Settings.{Config, domain_main}
use bumper.Text.{
  split, first_piece, contains_char, contains_text, contains_fold, starts_with, remove_from, concat,
}
use bumper.Db.Tiny.{TinyDb}
use bumper.Xmpp.Element.{Element, Children, leaf, child, attr, children, head, shown, set_from}
use bumper.Xmpp.Client.{Client, is_bot, is_ready, Conn, everyone, send_to, send}

-- Code outside, and what it makes: the text of an element with its namespaces put right
-- (`_xml_replacer` over ElementTree), and the identifiers of `uuid4`.
pub record Rendering : Type 0 where
  pub render : Element → String → String → String
  pub uuid : ℕ → String

-- A text that may be missing contains the identifier, whatever the case of its letters.
unfoldable pub addressed_to : String → Option String → Bool
addressed_to uid none = false
addressed_to uid (some to) = contains_fold uid to

module _ (p : Client → Bool) where
  unfoldable pub choose : List Client → List Client
  choose [] = []
  choose (c ∷ cs) = if p c then c ∷ choose cs else choose cs

-- Another client, with its session ready.
abbrev pub is_peer : Client → Client → Bool
is_peer self c = not (c.bumper_jid == self.bumper_jid) && is_ready c.state

not_implemented : Element → String
not_implemented xml = concat (
    "<iq type='error' id='"
    ∷ shown (attr "id" xml)
    ∷ "'><error type='cancel' code='501'>"
    ∷ "<feature-not-implemented xmlns='urn:ietf:params:xml:ns:xmpp-stanzas'/></error></iq>"
    ∷ [])

abbrev is_value : Option String → String → Bool
is_value none t = false
is_value (some s) t = s == t

abbrev has_value : Option String → Bool
has_value none = false
has_value (some s) = not (s == "")

module _ ⦃db : TinyDb⦄ where
  unfoldable pub send_all : String → List Client → Conn → Conn
  send_all command [] s = s
  send_all command (c ∷ cs) s = send_all command cs (send_to c command s)

  -- To the bots that the stanza is addressed to.
  unfoldable pub forward_ctl : Rendering → Element → Conn → Conn
  unfolding choose send_all addressed_to
  forward_ctl out xml s =
      send_all (out.render (set_from s.self.bumper_jid xml) "query" "com:ctl")
        (choose (λ c. is_peer s.self c && (is_bot c.kind && addressed_to c.uid (attr "to" xml)))
          (everyone s))
        s

  abbrev answer_sf : Element → String → Conn → Conn
  answer_sf xml data' s =
      if is_value (attr "type" xml) "set"
        && (contains_text "com:sf" data' && is_value (attr "to" xml) "rl.ecorobot.net")
      then send
          (concat (
            "<iq id='"
            ∷ shown (attr "id" xml)
            ∷ "' to='"
            ∷ s.self.uid
            ∷ "@"
            ∷ domain_main
            ∷ "/"
            ∷ shown s.self.resource
            ∷ "' from='rl.ecorobot.net' type='result'/>"
            ∷ []))
          s
      else s

  -- An administrator's name from a bot is not forwarded.
  abbrev unless_admin : Option Element → Rendering → Element → Conn → Conn
  unless_admin none out xml s = forward_ctl out xml s
  unless_admin (some ctl) out xml s =
      if has_value (attr "admin" ctl) && is_bot s.self.kind then s else forward_ctl out xml s

  -- Without a child the `IndexError` ends the handler.
  abbrev ctl_child : Option Element → Rendering → Element → Conn → Conn
  ctl_child none out xml s = s
  ctl_child (some e) out xml s = unless_admin (head (children e)) out xml s

  unfoldable pub handle_ctl : Rendering → Element → String → Conn → Conn
  unfolding not_implemented
  handle_ctl out xml data' s =
      if contains_text "roster" data'
        || (contains_text "disco#items" data' || contains_text "disco#info" data')
      then send (not_implemented xml) s
      else ctl_child (head (children xml)) out xml (answer_sf xml data' s)

  abbrev is_server : Option String → Bool
  is_server none = false
  is_server (some to) = not (contains_char "@" to)

  unfoldable pub handle_ping : Rendering → Element → Conn → Conn
  unfolding choose send_all addressed_to
  handle_ping out xml s =
      if is_server (attr "to" xml)
      then send
          (concat (
            "<iq type='result' id='"
            ∷ shown (attr "id" xml)
            ∷ "' from='"
            ∷ shown (attr "to" xml)
            ∷ "' />"
            ∷ []))
          s
      else send_all (out.render (set_from s.self.bumper_jid xml) "ping" "urn:xmpp:ping")
          (choose (λ c. is_peer s.self c && addressed_to c.uid (attr "to" xml)) (everyone s)) s

  -- Who administers the bot, from the error that it reports or from its own word.
  abbrev admin_of : Element → Option String
  admin_of ctl = elim (attr "error" ctl) [
    | none ↦ attr "admin" ctl
    | some e ↦ some (remove_from " " 0 (remove_from "permission denied, please contact " 0 e))
  ]

  abbrev add_user : String → String → String → String → String
  add_user id admin jid newuser = concat (
      "<iq type='set' id='" ∷ id ∷ "' from='" ∷ admin ∷ "' to='" ∷ jid
      ∷ "'><query xmlns='com:ctl'><ctl td='AddUser' id='0000' jid='" ∷ newuser ∷ "' /></query></iq>"
      ∷ [])

  abbrev set_acs : String → String → String → String → String
  set_acs id admin jid newuser = concat (
      "<iq type='set' id='" ∷ id ∷ "' from='" ∷ admin ∷ "' to='" ∷ jid
      ∷ "'><query xmlns='com:ctl'><ctl td='SetAC' id='1111' jid='" ∷ newuser
      ∷ "'><acs><ac name='userman' allow='1'/><ac name='setting' allow='1'/><ac name='clean' allow='1'/>"
      ∷ "</acs></ctl></query></iq>" ∷ [])

  abbrev get_user_info : String → String → String → String
  get_user_info id admin jid = concat (
      "<iq type='set' id='" ∷ id ∷ "' from='" ∷ admin ∷ "' to='" ∷ jid
      ∷ "'><query xmlns='com:ctl'><ctl td='GetUserInfo' id='4444' /><UserInfos/></query></iq>" ∷ [])

  abbrev grant : Rendering → Config → Option String → Option String → Conn → Conn
  grant out cfg (some admin) (some to) s =
      if starts_with "fuid_" admin || (starts_with "fusername_" admin || cfg.use_auth)
      then s
      else send (get_user_info (out.uuid 2) admin s.self.bumper_jid) (
          send (set_acs (out.uuid 1) admin s.self.bumper_jid (first_piece (split "/" to)))
            (send (add_user (out.uuid 0) admin s.self.bumper_jid (first_piece (split "/" to))) s))
  grant out cfg admin to s = s

  abbrev grant_from : Rendering → Config → Option Element → Option String → Conn → Conn
  grant_from out cfg none to s = s
  grant_from out cfg (some ctl) to s = grant out cfg (admin_of ctl) to s

  -- A bot that knows no permission for the user: the user is made its owner.
  abbrev no_permission : Rendering → Config → Option Element → Option String → Conn → Conn
  no_permission out cfg none to s = s
  no_permission out cfg (some e) to s =
      if is_bot s.self.kind then grant_from out cfg (head (children e)) to s else s

  abbrev user_address : Option String → Option String
  user_address none = none
  user_address (some to) =
      if contains_char "@" to
      then some (concat (first_piece (split "@" to) ∷ "@ecouser.net" ∷ []))
      else some to

  -- Without a user's address a result goes to every peer.
  abbrev pub wants_result : Option String → Client → Bool
  wants_result none c = true
  wants_result (some to) c = not (contains_char "@" to) || contains_fold c.uid to

  abbrev broadcast : String → Option String → Conn → Conn
  broadcast command to s =
      if is_bot s.self.kind && is_value to "de.ecorobot.net"
      then send_all command (everyone s) s
      else s

  abbrev forward_result : String → Option String → Conn → Conn
  forward_result command to s =
      send_all command
        (choose (λ c. is_peer s.self c && wants_result (user_address to) c) (everyone s))
        (broadcast command to s)

  unfoldable pub handle_result : Rendering → Config → Element → String → Conn → Conn
  unfolding choose send_all
  handle_result out cfg xml data' s =
      if contains_text "errno='103'" data'
      then no_permission out cfg (head (children xml)) (attr "to" xml) s
      else forward_result (out.render (set_from s.self.bumper_jid xml) "query" "com:ctl")
          (attr "to" xml) s
