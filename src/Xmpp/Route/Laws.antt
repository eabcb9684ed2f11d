-- ===== src/Xmpp/Route/Laws.antt =====
-- Routing reaches no one but its recipients, and changes no client.
use bumper.Base.{String, ◌&&◌, ◌||◌, Option, none, some, List, [], ◌∷◌, arith, Bool-cases, inl, inr}
use bumper.Settings.{Config}
use bumper.Text.{contains_text}
use bumper.Db.Tiny.{TinyDb}
use bumper.Xmpp.Element.{Element, attr, children, head, set_from}
use bumper.Xmpp.Client.{Client, is_bot, Conn, everyone, send_to, send}
use bumper.Xmpp.Client.Laws.{
  Advances, Advances-refl, Advances-trans, send_to-Advances, send-Advances,
}
use bumper.Xmpp.Route.{
  Rendering, choose, is_peer, send_all, forward_ctl, handle_ctl, handle_ping, handle_result,
  ctl_child, unless_admin, answer_sf, no_permission, grant, grant_from, admin_of, forward_result,
  broadcast, is_server, wants_result, user_address,
}

module _ ⦃db : TinyDb⦄ where
  pub send_all-Advances : (m : String) (cs : List Client) (s : Conn) → Advances s (send_all m cs s)
  unfolding send_all
  send_all-Advances m [] s = Advances-refl s
  send_all-Advances m (c ∷ cs) s =
      Advances-trans (send_to-Advances c m s) (send_all-Advances m cs (send_to c m s))

  forward_ctl-Advances :
      (out : Rendering) (xml : Element) (s : Conn) → Advances s (forward_ctl out xml s)
  unfolding forward_ctl
  forward_ctl-Advances out xml s = search send_all-Advances

  unless_admin-Advances :
      (e : Option Element) (out : Rendering) (xml : Element) (s : Conn)
      → Advances s (unless_admin e out xml s)
  unless_admin-Advances none out xml s = forward_ctl-Advances out xml s
  unless_admin-Advances (some ctl) out xml s =
      ground (arith, forward_ctl-Advances out xml s, Advances-refl s)

  ctl_child-Advances :
      (e : Option Element) (out : Rendering) (xml : Element) (s : Conn)
      → Advances s (ctl_child e out xml s)
  ctl_child-Advances none out xml s = Advances-refl s
  ctl_child-Advances (some e) out xml s = unless_admin-Advances (head (children e)) out xml s

  answer_sf-Advances : (xml : Element) (d : String) (s : Conn) → Advances s (answer_sf xml d s)
  unfolding send send_to
  answer_sf-Advances xml d s = ground arith

  pub handle_ctl-Advances :
      (out : Rendering) (xml : Element) (d : String) (s : Conn)
      → Advances s (handle_ctl out xml d s)
  unfolding handle_ctl
  handle_ctl-Advances out xml d s =
      elim (Bool-cases (
        contains_text "roster" d
        || (contains_text "disco#items" d || contains_text "disco#info" d))) [
          | inl e ↦ rw e (search send-Advances)
          | inr e ↦ rw e (
              Advances-trans (answer_sf-Advances xml d s)
                (ctl_child-Advances (head (children xml)) out xml (answer_sf xml d s)))
        ]

  pub handle_ping-Advances :
      (out : Rendering) (xml : Element) (s : Conn) → Advances s (handle_ping out xml s)
  unfolding handle_ping
  handle_ping-Advances out xml s = elim (Bool-cases (is_server (attr "to" xml))) [
    | inl e ↦ rw e (search send-Advances)
    | inr e ↦ rw e (search send_all-Advances)
  ]

  grant-Advances :
      (out : Rendering) (cfg : Config) (admin to : Option String) (s : Conn)
      → Advances s (grant out cfg admin to s)
  unfolding send send_to
  grant-Advances out cfg none to s = Advances-refl s
  grant-Advances out cfg (some a) none s = Advances-refl s
  grant-Advances out cfg (some a) (some to) s = ground arith

  no_permission-Advances :
      (out : Rendering) (cfg : Config) (e : Option Element) (to : Option String) (s : Conn)
      → Advances s (no_permission out cfg e to s)
  no_permission-Advances out cfg none to s = Advances-refl s
  no_permission-Advances out cfg (some e) to s = elim (Bool-cases (is_bot s.self.kind)) [
    | inl b ↦ rw b (granted (head (children e)))
    | inr b ↦ rw b (Advances-refl s)
  ]
    where
      granted : (o : Option Element) → Advances s (grant_from out cfg o to s)
      granted none = Advances-refl s
      granted (some ctl) = grant-Advances out cfg (admin_of ctl) to s

  broadcast-Advances : (m : String) (to : Option String) (s : Conn) → Advances s (broadcast m to s)
  broadcast-Advances m to s = ground (arith, send_all-Advances m (everyone s) s, Advances-refl s)

  forward_result-Advances :
      (m : String) (to : Option String) (s : Conn) → Advances s (forward_result m to s)
  forward_result-Advances m to s = Advances-trans (broadcast-Advances m to s) (
      send_all-Advances m
        (choose (λ c. is_peer s.self c && wants_result (user_address to) c) (everyone s))
        (broadcast m to s))

  pub handle_result-Advances :
      (out : Rendering) (cfg : Config) (xml : Element) (d : String) (s : Conn)
      → Advances s (handle_result out cfg xml d s)
  unfolding handle_result
  handle_result-Advances out cfg xml d s = elim (Bool-cases (contains_text "errno='103'" d)) [
    | inl e ↦ rw e (no_permission-Advances out cfg (head (children xml)) (attr "to" xml) s)
    | inr e ↦ rw e (
        forward_result-Advances (out.render (set_from s.self.bumper_jid xml) "query" "com:ctl")
          (attr "to" xml) s)
  ]
