-- ===== src/Xmpp/Dispatch/Laws.antt =====
-- Whatever a connection sends, its state does not go back, and no other client changes.
use bumper.Base.{
  ℕ, zero, suc, String, Option, none, some, arith, ◌==◌, Bool, true, false, if◌then◌else◌,
  Bool-cases, inl, inr,
}
use bumper.Db.Tiny.{TinyDb}
use bumper.Xmpp.Element.{Element, element, Children, leaf, child, children, head, item_tag}
use bumper.Xmpp.Client.{Conn}
use bumper.Xmpp.Client.Laws.{Advances, Advances-refl, Advances-trans}
use bumper.Xmpp.Login.Laws.{
  handle_connect-Advances, handle_starttls-Advances, handle_sasl_auth-Advances,
  handle_bind-Advances, handle_session-Advances, handle_presence-Advances,
}
use bumper.Xmpp.Route.Laws.{handle_ctl-Advances, handle_ping-Advances, handle_result-Advances}
use bumper.Xmpp.Dispatch.{
  Service, query, untitled, by_child, child_name, handle_iq, handle_item, visit, visit_all,
  run_upgrades, handle_data,
}

if-Advances :
    ⦃db : TinyDb⦄
    → (b : Bool) {s x y : Conn} → Advances s x
    → Advances s y
    → Advances s (if b then x else y)
if-Advances true h k = h
if-Advances false h k = k

module _ ⦃db : TinyDb⦄ (sv : Service) where
  query-Advances : (xml : Element) (d : String) (s : Conn) → Advances s (query sv xml d s)
  query-Advances xml d s =
      if-Advances _ (handle_result-Advances sv.out sv.cfg xml d s)
        (handle_ctl-Advances sv.out xml d s)

  untitled-Advances : (xml : Element) (d : String) (s : Conn) → Advances s (untitled sv xml d s)
  untitled-Advances xml d s =
      ground (arith, handle_result-Advances sv.out sv.cfg xml d s, Advances-refl s)

  by_child-Advances :
      (c : Option String) (xml : Element) (d : String) (s : Conn)
      → Advances s (by_child sv c xml d s)
  by_child-Advances none xml d s = untitled-Advances xml d s
  by_child-Advances (some c) xml d s = if-Advances _ (handle_bind-Advances xml s) (
      if-Advances _ (handle_session-Advances xml s) (
        if-Advances _ (handle_ping-Advances sv.out xml s)
          (if-Advances _ (query-Advances xml d s) (untitled-Advances xml d s))))

  handle_iq-Advances : (xml : Element) (d : String) (s : Conn) → Advances s (handle_iq sv xml d s)
  unfolding handle_iq
  handle_iq-Advances xml d s =
      if-Advances _ (by_child-Advances (child_name sv (head (children xml))) xml d s)
        (Advances-refl s)

  item_if-Advances :
      (b : Bool) {s : Conn} (x y : Conn × ℕ)
      → Advances s x.0
      → Advances s y.0
      → Advances s (if b then x else y).0
  item_if-Advances true x y h k = h
  item_if-Advances false x y h k = k

  handle_item-Advances :
      (xml : Element) (d : String) (s : Conn) (n : ℕ) → Advances s (handle_item sv xml d (s, n)).0
  unfolding handle_item
  handle_item-Advances xml d s n = item_if-Advances _ _ _ (handle_iq-Advances xml d s) (
      item_if-Advances _ _ _ (handle_sasl_auth-Advances sv.decode sv.cfg sv.tokens xml s) (
        item_if-Advances _ _ _ (Advances-refl s) (
          item_if-Advances _ _ _ (handle_presence-Advances xml s)
            (item_if-Advances _ _ _ (handle_connect-Advances d s) (Advances-refl s)))))

  mutual
    unfolding visit

    visit-Advances :
        (e : Element) (d : String) (s : Conn) (n : ℕ) → Advances s (visit sv e d (s, n)).0
    visit-Advances (element t a x c) d s n =
        elim (Bool-cases (item_tag (element t a x c) == "root")) [
          | inl e ↦ rw e (visit_all-Advances c d s n)
          | inr e ↦ rw e (handle_item-Advances (element t a x c) d s n)
        ]

    visit_all-Advances :
        (c : Children) (d : String) (s : Conn) (n : ℕ) → Advances s (visit_all sv c d (s, n)).0
    visit_all-Advances leaf d s n = Advances-refl s
    visit_all-Advances (child e es) d s n =
        let r = visit sv e d (s, n) in
        Advances-trans (visit-Advances e d s n) (visit_all-Advances es d r.0 r.1)

  run_upgrades-Advances : (n : ℕ) (s : Conn) → Advances s (run_upgrades sv n s)
  unfolding run_upgrades
  run_upgrades-Advances zero s = Advances-refl s
  run_upgrades-Advances (suc n) s =
      Advances-trans (handle_starttls-Advances s) (run_upgrades-Advances n _)

  -- Whatever data a connection receives, in whatever state: its state does not go back in the
  -- order from IDLE to DISCONNECT, and no other client of the server changes.
  pub handle_data-Advances :
      (root : Element) (d : String) (s : Conn) → Advances s (handle_data sv root d s)
  unfolding handle_data
  handle_data-Advances root d s =
      let r = visit sv root d (s, 0) in
      Advances-trans (visit-Advances root d s 0) (run_upgrades-Advances r.1 r.0)
