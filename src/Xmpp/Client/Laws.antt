-- ===== src/Xmpp/Client/Laws.antt =====
-- The states of a connection only move forward, and an operation on one client leaves the others
-- as they are.
use bumper.Base.{ℕ, ◌≤◌, String, ◌≡◌, false, arith, ltb, Bool-cases, inl, inr}
use bumper.Db.Tiny.{TinyDb}
use bumper.Xmpp.Client.{
  Client, ClientState, disconnected, rank, Conn, send_to, send, mark_offline, disconnect, set_state,
  enter,
}

-- From `s` to `s'` the other clients stay, the connection is the same, and its state is not
-- behind.
pub record Advances ⦃db : TinyDb⦄ (s s' : Conn) : Type 0 where
  pub same_before : s'.before ≡ s.before
  pub same_after : s'.after ≡ s.after
  pub same_address : s'.self.address ≡ s.self.address
  pub forward : rank s.self.state ≤ rank s'.self.state

module _ ⦃db : TinyDb⦄ where
  pub Advances-refl : (s : Conn) → Advances s s
  Advances-refl s = ground arith

  pub Advances-trans : {s t u : Conn} → Advances s t → Advances t u → Advances s u
  Advances-trans h k = ground arith

  pub send_to-Advances : (c : Client) (m : String) (s : Conn) → Advances s (send_to c m s)
  unfolding send_to
  send_to-Advances c m s = ground arith

  pub send-Advances : (m : String) (s : Conn) → Advances s (send m s)
  unfolding send
  send-Advances m s = ground arith

  mark_offline-Advances : (s : Conn) → Advances s (mark_offline s)
  mark_offline-Advances s = ground arith

  pub disconnect-Advances : (s : Conn) → Advances s (disconnect s)
  unfolding disconnect
  disconnect-Advances s = ground (arith, mark_offline-Advances s)

  enter-Advances :
      (new : ClientState) (s : Conn) → rank s.self.state ≤ rank new → Advances s (enter new s)
  enter-Advances disconnected s h =
      ground
        (arith, disconnect-Advances (record s { self = record s.self { state = disconnected } }))
  enter-Advances _ s h = ground arith

  pub set_state-Advances : (new : ClientState) (s : Conn) → Advances s (set_state new s)
  unfolding set_state
  set_state-Advances new s = elim (Bool-cases (ltb (rank new) (rank s.self.state))) [
    | inl back ↦ rw back (Advances-refl s)
    | inr on ↦ rw on (enter-Advances new s (not_behind (rank new) (rank s.self.state) on))
  ]
    where
      not_behind : (a b : ℕ) → ltb a b ≡ false → b ≤ a
      not_behind a b h = ground arith

  -- The state that is asked for is the state, unless it lies behind; the kind stays.
  pub state-set_state :
      (new : ClientState) (s : Conn)
      → rank s.self.state ≤ rank new
      → (set_state new s).self.state ≡ new
  unfolding set_state disconnect
  state-set_state disconnected s h = ground arith
  state-set_state _ s h = ground arith

  pub self-set_state :
      (new : ClientState) (s : Conn)
      → ((set_state new s).self.kind ≡ s.self.kind) × ((set_state new s).self.uid ≡ s.self.uid)
  unfolding set_state disconnect
  self-set_state disconnected s = ground arith
  self-set_state _ s = ground arith
