-- ===== src/Mqtt/Auth/Laws.antt =====
-- Whom the broker lets in, and what an authentication leaves in the tables.
use bumper.Base.{
  String, ◌≡◌, refl, ◌≢◌, Bool, true, false, Option, none, some, arith, eq_iff, Bool-cases,
  Option-cases, inl, inr,
}
use bumper.Settings.{Config}
use bumper.Text.{contains_char}
use bumper.Db.Tiny.{TinyDb}
use bumper.Db.Tokens.{verify_auth_code}
use bumper.Mqtt.ClientId.{ClientId, split_client_id}
use bumper.Mqtt.Auth.{
  helper_bot_client_id, Plugin, Outside, Session, AuthState, authenticate, try_authenticate,
  device_auth, check_password, or_anonymous, name_pieces, read_name, strip_realm,
}

module _ ⦃db : TinyDb⦄ (out : Outside) (cfg : Config) (plugin : Plugin) (tokens : db.Table) where
  granted_lem :
      (r : Option Bool)
      → plugin.allow_anonymous ≡ false
      → or_anonymous out plugin r ≡ true
      → r ≡ some true
  granted_lem r closed h = ground arith

  abbrev Admitted : String → Option String → Type 0
  Admitted client_id password =
      (c : ClientId) × (code : String) × (split_client_id client_id ≡ some c)
      × (password ≡ some code)
      × (verify_auth_code c.did code tokens ≡ true)

  -- Behind a password that does not verify every device is refused.
  device_auth_refused :
      (client_id : String) (c : ClientId) (username password : Option String) (s : AuthState)
      → split_client_id client_id ≡ some c
      → ((s' : AuthState) → (check_password out cfg tokens c.did password s').0 ≡ none)
      → (device_auth out cfg tokens client_id username password s).0 ≡ none
  unfolding device_auth
  device_auth_refused client_id c username password s e h =
      ground (arith, h (read_name out (name_pieces username) username s).1)

  device_auth_unsplit :
      (client_id : String) (username password : Option String) (s : AuthState)
      → split_client_id client_id ≡ none
      → (device_auth out cfg tokens client_id username password s).0 ≡ none
  unfolding device_auth
  device_auth_unsplit client_id username password s e = rw e

  device_auth-Admitted :
      (client_id : String) (username password : Option String) (s : AuthState)
      → cfg.use_auth ≡ true
      → (device_auth out cfg tokens client_id username password s).0 ≡ some true
      → Admitted client_id password
  unfolding check_password
  device_auth-Admitted client_id username none s auth h =
      elim (Option-cases (split_client_id client_id)) [
        | inl e ↦ cc (device_auth_unsplit client_id username none s e)
        | inr (c, e) ↦ cc (device_auth_refused client_id c username none s e (λ s'. rw auth))
      ]
  device_auth-Admitted client_id username (some code) s auth h =
      elim (Option-cases (split_client_id client_id)) [
        | inl e ↦ cc (device_auth_unsplit client_id username (some code) s e)
        | inr (c, e) ↦ elim (Bool-cases (verify_auth_code c.did code tokens)) [
          | inl v ↦ (c, code, e, refl, v)
          | inr v ↦
              cc (device_auth_refused client_id c username (some code) s e (λ s'. rw (auth, v)))
        ]
      ]

  try_authenticate-Admitted :
      (session : Session) (client_id : String) (s : AuthState)
      → cfg.use_auth ≡ true
      → session.client_id ≡ some client_id
      → client_id ≢ helper_bot_client_id
      → contains_char "@" client_id ≡ true
      → (try_authenticate out cfg plugin tokens session s).0 ≡ some true
      → Admitted client_id session.password
  unfolding try_authenticate
  try_authenticate-Admitted session client_id s auth id other at h =
      device_auth-Admitted client_id (strip_realm session.username) session.password
        (record s { session_username = strip_realm session.username }) auth
        (ground (arith, eq_iff client_id helper_bot_client_id))

  -- With password authentication on and anonymous access off, a client whose identifier holds an
  -- `@` and is not the helper bot's gets in only if the identifier splits, and with a password that
  -- is a known code of the device that it names.
  pub authenticate-code :
      (session : Session) (client_id : String) (s : AuthState)
      → cfg.use_auth ≡ true
      → plugin.allow_anonymous ≡ false
      → session.client_id ≡ some client_id
      → client_id ≢ helper_bot_client_id
      → contains_char "@" client_id ≡ true
      → (authenticate out cfg plugin tokens session s).0 ≡ true
      → (c : ClientId) × (password : String) × (split_client_id client_id ≡ some c)
        × (session.password ≡ some password)
        × (verify_auth_code c.did password tokens ≡ true)
  unfolding authenticate
  authenticate-code session client_id s auth closed id other at granted =
      try_authenticate-Admitted session client_id s auth id other at
        (granted_lem (try_authenticate out cfg plugin tokens session s).0 closed granted)
