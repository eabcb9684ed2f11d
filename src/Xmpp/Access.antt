-- ===== src/Xmpp/Access.antt =====
-- Who is let in over XMPP: what a login requires, and what is reached without one.
use bumper.Base.{
  ◌≤◌, String, ◌≡◌, refl, ◌≢◌, true, false, Option, none, some, Bool-cases, Option-cases, inl, inr,
  ==_ne, sym, ◌∙◌,
}
use bumper.Settings.{Config}
use bumper.Db.Tiny.{TinyDb}
use bumper.Db.Tokens.{verify_auth_code}
use bumper.Xmpp.Element.{Element, element, tag, text, children, head, strip_uri}
use bumper.Xmpp.Client.{bot, controller, init, ready, rank, Conn, send}
use bumper.Xmpp.Client.Laws.{self-set_state, state-set_state}
use bumper.Xmpp.Login.{Credentials, read_credentials, login, handle_sasl_auth, handle_session}
use bumper.Xmpp.Dispatch.{Service, handle_iq}

module _ ⦃db : TinyDb⦄ where
  -- What the server has seen of a controller: credentials whose code is known for their user.
  abbrev pub HasCode : (String → Option String) → db.Table → Element → Conn → Type 0
  HasCode decode tokens xml s =
      (sent : String) × (decoded : String) × (c : Credentials) × (text xml ≡ some sent)
      × (decode sent ≡ some decoded)
      × (read_credentials decoded s.self.resource ≡ some c)
      × (verify_auth_code c.username c.authcode tokens ≡ true)

  login_refused :
      (cfg : Config) (tokens : db.Table) (c : Credentials) (s : Conn)
      → cfg.use_auth ≡ true
      → s.self.devclass ≡ ""
      → verify_auth_code c.username c.authcode tokens ≡ false
      → (login cfg tokens c s).self.kind ≡ s.self.kind
  unfolding login send
  login_refused cfg tokens c s auth device wrong = rw (device, wrong, auth)

  -- With password authentication on, a connection that named no device class and is no controller
  -- becomes one by its credentials only where these can be read and hold a code that is known for
  -- their user.
  pub handle_sasl_auth-HasCode :
      (decode : String → Option String) (cfg : Config) (tokens : db.Table) (xml : Element)
      (s : Conn)
      → cfg.use_auth ≡ true
      → s.self.devclass ≡ ""
      → s.self.kind ≢ controller
      → (handle_sasl_auth decode cfg tokens xml s).self.kind ≡ controller
      → HasCode decode tokens xml s
  unfolding handle_sasl_auth
  handle_sasl_auth-HasCode decode cfg tokens (element t a none c) s auth device before after =
      absurd (before after)
  handle_sasl_auth-HasCode decode cfg tokens (element t a (some x) c) s auth device before after =
      elim (Option-cases (decode x)) [
        | inl e ↦ absurd (before (rw e at after))
        | inr (d, e) ↦ elim (Option-cases (read_credentials d s.self.resource)) [
          | inl f ↦ absurd (before (rw (e, f) at after))
          | inr (k, f) ↦ elim (Bool-cases (verify_auth_code k.username k.authcode tokens)) [
            | inl v ↦ (x, d, k, refl, e, f, v)
            | inr v ↦
                absurd
                  (before (sym (login_refused cfg tokens k s auth device v) ∙ (rw (e, f) at after)))
          ]
        ]
      ]

  -- A connection that named a device class becomes a bot under the user name of any credentials
  -- that can be read, whatever their code, and whether or not password authentication is on.
  pub handle_sasl_auth-bot :
      (decode : String → Option String) (cfg : Config) (tokens : db.Table) (xml : Element)
      (s : Conn) (sent decoded : String) (c : Credentials)
      → s.self.devclass ≢ ""
      → text xml ≡ some sent
      → decode sent ≡ some decoded
      → read_credentials decoded s.self.resource ≡ some c
      → ((handle_sasl_auth decode cfg tokens xml s).self.kind ≡ bot)
        × ((handle_sasl_auth decode cfg tokens xml s).self.uid ≡ c.username)
  unfolding handle_sasl_auth login send
  handle_sasl_auth-bot decode cfg tokens (element t a x es) s sent decoded c device e f g =
      rw (e, f, g, ==_ne s.self.devclass "" device) (self-set_state init _)

module _ ⦃db : TinyDb⦄ (sv : Service) where
  -- An `iq` whose first child is a `session` makes the connection ready in every state but
  -- DISCONNECT, before any login too, and the connection stays of the kind that it was.
  pub handle_iq-ready :
      (xml e : Element) (d : String) (s : Conn)
      → tag xml ≡ "iq"
      → head (children xml) ≡ some e
      → strip_uri (tag e) ≡ "session"
      → rank s.self.state ≤ rank ready
      → ((handle_iq sv xml d s).self.state ≡ ready)
        × ((handle_iq sv xml d s).self.kind ≡ s.self.kind)
  unfolding handle_iq handle_session send
  handle_iq-ready xml e d s iq first name open' =
      rw (iq, first, name) (state-set_state ready s open', (self-set_state ready s).0)
