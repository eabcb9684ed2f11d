-- ===== src/Xmpp/Server/Laws.antt =====
-- The list of the server's clients over any run: who is on it, and in which order.
use bumper.Base.{
  ℕ, String, Option, false, ◌≡◌, refl, List, [], ◌∷◌, ◌++◌, if◌then◌else◌, nat_eq, Bool-cases, inl,
  inr, sym, ap, ◌∙◌,
}
use bumper.Db.Tiny.{TinyDb}
use bumper.Xmpp.Element.{Element}
use bumper.Xmpp.Client.{Client, Conn, disconnected, connect, new_client, everyone, disconnect}
use bumper.Xmpp.Client.Laws.{Advances, disconnect-Advances, set_state-Advances}
use bumper.Xmpp.Dispatch.{Service}
use bumper.Xmpp.Repair.Laws.{parse_data-Advances}
use bumper.Xmpp.Server.{
  Server, Event, made, upgraded, lost, received, shutdown, focus_in, focus, unfocus,
  connection_made, upgrade, lose, connection_lost, receive, data_received, disconnect_each,
  shut_down, step, run,
}

abbrev pub addresses : List Client → List ℕ
addresses [] = []
addresses (c ∷ cs) = c.address ∷ addresses cs

-- The first of equal addresses goes.
abbrev pub without_first : ℕ → List ℕ → List ℕ
without_first a [] = []
without_first a (b ∷ bs) = if nat_eq b a then bs else b ∷ without_first a bs

-- What the list of clients promises: a connection is put last, its loss takes it off, and nothing
-- else changes who is on the list.
abbrev pub list_step : Event → List ℕ → List ℕ
list_step (made a) cs = cs ++ a ∷ []
list_step (upgraded a) cs = cs
list_step (lost a) cs = without_first a cs
list_step (received a text) cs = cs
list_step shutdown cs = cs

unfoldable pub list_run : List Event → List ℕ → List ℕ
list_run [] cs = cs
list_run (e ∷ es) cs = list_run es (list_step e cs)

addresses-append : (cs ds : List Client) → addresses (cs ++ ds) ≡ addresses cs ++ addresses ds
addresses-append [] ds = refl
addresses-append (c ∷ cs) ds = rw (addresses-append cs ds)

append_nothing : (xs : List ℕ) → xs ≡ xs ++ []
append_nothing [] = refl
append_nothing (x ∷ xs) = ap (x ∷◌) (append_nothing xs)

append_one : (xs bs : List ℕ) (a : ℕ) → (xs ++ a ∷ []) ++ bs ≡ xs ++ a ∷ bs
append_one [] bs a = refl
append_one (x ∷ xs) bs a = rw (append_one xs bs a)

append_client : (cs ds : List Client) (c : Client) → (cs ++ c ∷ []) ++ ds ≡ cs ++ c ∷ ds
append_client [] ds c = refl
append_client (x ∷ cs) ds c = rw (append_client cs ds c)

-- One client further on.
moved :
    (seen : List Client) (c : Client) (xs : List ℕ)
    → addresses (seen ++ c ∷ []) ++ xs ≡ addresses seen ++ c.address ∷ xs
moved seen c xs = rw (addresses-append seen (c ∷ [])) (append_one (addresses seen) xs c.address)

module _ ⦃db : TinyDb⦄ where
  everyone-Advances :
      (s s' : Conn)
      → Advances s s'
      → addresses (everyone s') ≡ addresses s.before ++ s.self.address ∷ addresses s.after
  everyone-Advances s s' h =
      rw (
        addresses-append s'.before (s'.self ∷ s'.after),
        h.same_before,
        h.same_after,
        h.same_address,
      )

  others-Advances :
      (s s' : Conn)
      → Advances s s'
      → addresses (s'.before ++ s'.after) ≡ addresses s.before ++ addresses s.after
  others-Advances s s' h = rw (addresses-append s'.before s'.after, h.same_before, h.same_after)

  abbrev conn : List Client → Client → List Client → Server → Conn
  conn seen c cs sv = record {
    before = seen;
    self = c;
    after = cs;
    bots = sv.bots;
    clients = sv.clients;
    sent = sv.sent;
  }

  addresses-lose :
      (a : ℕ) (seen cs : List Client) (sv sv' : Server)
      → sv'.peers ≡ seen ++ cs
      → addresses (lose (focus_in a seen cs sv) sv').peers
        ≡ addresses seen ++ without_first a (addresses cs)
  unfolding focus_in
  addresses-lose a seen [] sv sv' h = rw h (addresses-append seen [])
  addresses-lose a seen (c ∷ cs) sv sv' h = elim (Bool-cases (nat_eq c.address a)) [
    | inl e ↦ rw e (
        others-Advances (conn seen c cs sv) _ (set_state-Advances disconnected (conn seen c cs sv)))
    | inr e ↦ rw e (
        addresses-lose a (seen ++ c ∷ []) cs sv sv' (h ∙ sym (append_client seen cs c))
        ∙ moved seen c (without_first a (addresses cs)))
  ]

  addresses-receive :
      (service : Service) (parse : String → Option Element) (text : String) (a : ℕ)
      (seen cs : List Client) (sv sv' : Server)
      → sv'.peers ≡ seen ++ cs
      → addresses (receive service parse text (focus_in a seen cs sv) sv').peers
        ≡ addresses seen ++ addresses cs
  unfolding focus_in
  addresses-receive service parse text a seen [] sv sv' h = rw h (addresses-append seen [])
  addresses-receive service parse text a seen (c ∷ cs) sv sv' h =
      elim (Bool-cases (nat_eq c.address a)) [
        | inl e ↦ rw e (
            everyone-Advances (conn seen c cs sv) _
              (parse_data-Advances service parse text (conn seen c cs sv)))
        | inr e ↦ rw e (
            addresses-receive service parse text a (seen ++ c ∷ []) cs sv sv'
              (h ∙ sym (append_client seen cs c))
            ∙ moved seen c (addresses cs))
      ]

  addresses-upgrade :
      (a : ℕ) (seen cs : List Client) (sv sv' : Server)
      → sv'.peers ≡ seen ++ cs
      → addresses (upgrade (focus_in a seen cs sv) sv').peers ≡ addresses seen ++ addresses cs
  unfolding focus_in
  addresses-upgrade a seen [] sv sv' h = rw h (addresses-append seen [])
  addresses-upgrade a seen (c ∷ cs) sv sv' h = elim (Bool-cases (nat_eq c.address a)) [
    | inl e ↦ rw e (addresses-append seen (record c { closed = false } ∷ cs))
    | inr e ↦ rw e (
        addresses-upgrade a (seen ++ c ∷ []) cs sv sv' (h ∙ sym (append_client seen cs c))
        ∙ moved seen c (addresses cs))
  ]

  addresses-disconnect_each :
      (seen cs : List Client) (sv : Server)
      → addresses (disconnect_each seen cs sv).peers ≡ addresses seen ++ addresses cs
  unfolding disconnect_each
  addresses-disconnect_each seen [] sv = append_nothing (addresses seen)
  addresses-disconnect_each seen (c ∷ cs) sv =
      let s : Conn = disconnect (conn seen c cs sv) in
      let h : Advances (conn seen c cs sv) s = disconnect-Advances (conn seen c cs sv) in
      addresses-disconnect_each (seen ++ s.self ∷ []) cs (unfocus s)
      ∙ moved seen s.self (addresses cs)
      ∙ ap (λ x. addresses seen ++ x ∷ addresses cs) h.same_address

  addresses-step :
      (service : Service) (parse : String → Option Element) (e : Event) (sv : Server)
      → addresses (step service parse e sv).peers ≡ list_step e (addresses sv.peers)
  unfolding step connection_made connection_lost data_received shut_down focus
  addresses-step service parse (made a) sv =
      addresses-append sv.peers (record (new_client a) { state = connect } ∷ [])
  addresses-step service parse (upgraded a) sv = addresses-upgrade a [] sv.peers sv sv refl
  addresses-step service parse (lost a) sv = addresses-lose a [] sv.peers sv sv refl
  addresses-step service parse (received a text) sv =
      addresses-receive service parse text a [] sv.peers sv sv refl
  addresses-step service parse shutdown sv = addresses-disconnect_each [] sv.peers sv

  -- Over any sequence of connections, upgrades to TLS, losses, received texts and shutdowns the list
  -- of clients is the one that the connections and the losses alone make: whatever text arrives,
  -- well formed or not, no client is added, dropped or moved.
  pub addresses-run :
      (service : Service) (parse : String → Option Element) (es : List Event) (sv : Server)
      → addresses (run service parse es sv).peers ≡ list_run es (addresses sv.peers)
  unfolding run list_run
  addresses-run service parse [] sv = refl
  addresses-run service parse (e ∷ es) sv =
      addresses-run service parse es (step service parse e sv)
      ∙ ap (list_run es) (addresses-step service parse e sv)
