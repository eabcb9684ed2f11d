-- ===== src/Xmpp/Repair/Laws.antt =====
-- A connection and its data, from the text that is received.
use bumper.Base.{String, Option, none, some}
use bumper.Db.Tiny.{TinyDb}
use bumper.Xmpp.Element.{Element}
use bumper.Xmpp.Client.{Conn, disconnected, send}
use bumper.Xmpp.Client.Laws.{
  Advances, Advances-refl, Advances-trans, send-Advances, set_state-Advances,
}
use bumper.Xmpp.Dispatch.{Service}
use bumper.Xmpp.Dispatch.Laws.{handle_data-Advances}
use bumper.Xmpp.Repair.{repaired, rooted, parse_root, parse_repaired, parse_data}

module _ ⦃db : TinyDb⦄ (sv : Service) (parse : String → Option Element) where
  parse_root-Advances :
      (d : String) (root : Option Element) (s : Conn) → Advances s (parse_root sv parse d root s)
  parse_root-Advances d none s = Advances-refl s
  parse_root-Advances d (some root) s = handle_data-Advances sv root d s

  parse_repaired-Advances :
      (d : Option String) (s : Conn) → Advances s (parse_repaired sv parse d s)
  parse_repaired-Advances none s =
      Advances-trans (send-Advances "</stream:stream>" s)
        (set_state-Advances disconnected (send "</stream:stream>" s))
  parse_repaired-Advances (some d) s = parse_root-Advances d (parse d) s

  -- Whatever text a connection receives, well formed or not, its state does not go back and no other
  -- client of the server changes.
  pub parse_data-Advances : (text : String) (s : Conn) → Advances s (parse_data sv parse text s)
  unfolding parse_data
  parse_data-Advances text s = parse_repaired-Advances (repaired (rooted text)) s
