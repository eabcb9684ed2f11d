-- ===== src/Mqtt/Auth.antt =====
-- `BumperMQTTServerPlugin.authenticate` of `bumper/mqtt/server.py`. The `try` block is an action
-- that may raise; a raise falls through to the test for anonymous access.
pub mod Laws
use bumper.Base.{
  ℕ, ◌<◌, leb, length, String, Bool, true, false, not, ◌&&◌, ◌||◌, Option, none, some, List, [],
  ◌∷◌, ◌==◌, if◌then◌else◌, is_some, get_elem?, Exec, pure, raise, gets, modify, or_raise, raise_if,
  ◌>>=◌, ◌>>◌,
}
use bumper.Settings.{Config}
use bumper.Text.{split, contains_char, remove_char, first_piece}
use bumper.Db.Tiny.{TinyDb}
use bumper.Db.Bots
use bumper.Db.Clients
use bumper.Db.Tokens.{verify_auth_code}
use bumper.Mqtt.ClientId.{ClientId, ClientType, split_client_id}

abbrev pub helper_bot_client_id : String
helper_bot_client_id = "helperbot@bumper/helperbot"

-- The plugin's options and its password file, read into names and hashes.
pub record Plugin : Type 0 where
  pub allow_anonymous : Bool
  pub users : List (String × String)

-- What the plugin asks of code outside: the verification of a password hash (none where the hash
-- is malformed), base64 decoding to text, the resolver, and the connection of a proxy client.
pub record Outside : Type 0 where
  pub verify_hash : String → String → Option Bool
  pub decode : String → Option String
  pub resolve : Option String
  pub connect : String → String → String → Bool

pub record Session : Type 0 where
  pub client_id : Option String
  pub username : Option String
  pub password : Option String

-- What a call can write: the tables of bots and clients, the proxy clients, the session's name.
pub record AuthState ⦃db : TinyDb⦄ : Type 0 where
  pub bots : db.Table
  pub clients : db.Table
  pub proxies : List String
  pub session_username : Option String

abbrev pub find_user : String → List (String × String) → Option String
find_user u [] = none
find_user u ((v, h) ∷ us) = if v == u then some h else find_user u us

abbrev pub non_empty : Option String → Bool
non_empty none = false
non_empty (some s) = not (s == "")

-- `username.split("@")[0] if username and "@" in username else username`
unfoldable pub strip_realm : Option String → Option String
strip_realm none = none
strip_realm (some u) = if contains_char "@" u then some (first_piece (split "@" u)) else some u

-- The pieces of a name that carries more information, behind backticks.
unfoldable pub name_pieces : Option String → List String
name_pieces none = []
name_pieces (some u) = if contains_char "`" u then split "`" u else []

module _ ⦃db : TinyDb⦄ (out : Outside) where
  -- The file holds the name: the password decides.
  unfoldable pub file_auth : Plugin → String → String → Exec AuthState Bool
  file_auth plugin username password = do
    hash ← or_raise (find_user username plugin.users)
    verified ← or_raise (out.verify_hash password hash)
    raise_if (not verified)
    pure true

  -- Both pieces must decode; the first piece is the name from then on.
  unfoldable pub read_name : List String → Option String → Exec AuthState (Option String)
  read_name (name ∷ header ∷ body ∷ more) username = do
    or_raise (out.decode (remove_char "\n" header))
    or_raise (out.decode (remove_char "\n" body))
    modify (λ s. record s { session_username = some name })
    pure (some name)
  read_name pieces username = pure username

  unfoldable pub check_password :
      Config → db.Table → String → Option String → Exec AuthState (Unit {0})
  check_password cfg tokens did none = raise_if cfg.use_auth
  check_password cfg tokens did (some password) =
      raise_if (cfg.use_auth && not (verify_auth_code did password tokens))

  unfoldable pub start_proxy : Config → String → String → Option String → Exec AuthState (Unit {0})
  start_proxy cfg client_id username none = pure tt
  start_proxy cfg client_id username (some password) =
      if cfg.proxy_mqtt
      then (do
        server ← or_raise out.resolve
        modify (λ s. record s { proxies = client_id ∷ s.proxies })
        raise_if (not (out.connect server username password)))
      else pure tt

  unfoldable pub add_bot : String → ClientId → AuthState → AuthState
  add_bot username c s = record s {
    bots = Bots.add username c.did c.class_id c.resource "eco-ng" s.bots;
  }

  unfoldable pub add_client : Option String → ClientId → AuthState → AuthState
  add_client username c s = record s {
    clients = Clients.add username c.did c.class_id c.resource s.clients;
  }

  -- A name that is not empty and a bot's class make a bot; all others are clients.
  unfoldable pub register :
      Config → String → ClientId → ClientType → Option String → Option String → Exec AuthState Bool
  register cfg client_id c ClientType.bot (some username) password =
      if not (username == "")
      then (do modify (add_bot username c); start_proxy cfg client_id username password; pure true)
      else (do modify (add_client (some username) c); pure true)
  register cfg client_id c kind username password = do modify (add_client username c); pure true

  -- Everyone but the helper bot and the users of the password file.
  unfoldable pub device_auth :
      Config → db.Table → String → Option String → Option String → Exec AuthState Bool
  device_auth cfg tokens client_id username password = do
    c ← or_raise (split_client_id client_id)
    name ← read_name (name_pieces username) username
    check_password cfg tokens c.did password
    register cfg client_id c c.client_type name password

  abbrev file_or_device :
      Config → Plugin → db.Table → String → Option String → Option String → Exec AuthState Bool
  file_or_device cfg plugin tokens client_id (some username) (some password) =
      if not (contains_char "@" client_id)
      then file_auth plugin username password
      else device_auth cfg tokens client_id (some username) (some password)
  file_or_device cfg plugin tokens client_id username password =
      device_auth cfg tokens client_id username password

  unfoldable pub try_authenticate : Config → Plugin → db.Table → Session → Exec AuthState Bool
  try_authenticate cfg plugin tokens session = do
    client_id ← or_raise session.client_id
    if client_id == helper_bot_client_id then pure true else (do
      let username = strip_realm session.username
      modify (λ s. record s { session_username = username })
      file_or_device cfg plugin tokens client_id username session.password)

  abbrev pub or_anonymous : Plugin → Option Bool → Bool
  or_anonymous plugin none = plugin.allow_anonymous
  or_anonymous plugin (some granted) = granted

  unfoldable pub authenticate : Config → Plugin → db.Table → Session → AuthState → Bool × AuthState
  authenticate cfg plugin tokens session s =
      let (r, s') = try_authenticate cfg plugin tokens session s in (or_anonymous plugin r, s')
