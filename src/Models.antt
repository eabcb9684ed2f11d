-- ===== src/Models.antt =====
-- The records of the database, `bumper/web/utils/models.py`: from a stored dictionary and back.
-- A field holds whatever value the dictionary holds, as in the source.
pub mod Laws
pub mod CleanLog
use bumper.Base.{ℕ, zero, String, Bool, true, false, Option, none, some, get_or, ◌==◌}
use bumper.Settings.{user_username_default}
use bumper.Text.{append}
use bumper.Value.{
  ℤ, pos, Value, null, bool, num, str, arr, Items, nil, Fields, end, field, lookup, lookup_or,
}

pub record VacBotDevice : Type 0 where
  pub class_id : Value
  pub company : Value
  pub did : Value
  pub name : Value
  pub nick : Value
  pub resource : Value
  pub mqtt_connection : Value
  pub xmpp_connection : Value

-- `VacBotDevice.__init__` with the keyword arguments that the program passes.
abbrev pub new_bot : String → String → String → String → VacBotDevice
new_bot did name resource company = record {
  class_id = str "";
  company = str company;
  did = str did;
  name = str name;
  nick = str "";
  resource = str resource;
  mqtt_connection = bool false;
  xmpp_connection = bool false;
}

unfoldable pub bot_as_dict : VacBotDevice → Fields
bot_as_dict b = field "class" b.class_id (
    field "company" b.company (
      field "did" b.did (
        field "name" b.name (
          field "nick" b.nick (
            field "resource" b.resource (
              field "mqtt_connection" b.mqtt_connection
                (field "xmpp_connection" b.xmpp_connection end)))))))

unfoldable pub bot_from_dict : Fields → VacBotDevice
unfolding lookup_or
bot_from_dict d = record {
  class_id = lookup_or "class" (str "") d;
  company = lookup_or "company" (str "") d;
  did = lookup_or "did" (str "") d;
  name = lookup_or "name" (str "") d;
  nick = lookup_or "nick" (str "") d;
  resource = lookup_or "resource" (str "") d;
  mqtt_connection = lookup_or "mqtt_connection" (bool false) d;
  xmpp_connection = lookup_or "xmpp_connection" (bool false) d;
}

pub record VacBotClient : Type 0 where
  pub userid : Value
  pub name : Value
  pub realm : Value
  pub resource : Value
  pub mqtt_connection : Value
  pub xmpp_connection : Value

abbrev pub new_client : String → String → String → String → VacBotClient
new_client name userid realm resource = record {
  userid = str userid;
  name = str name;
  realm = str realm;
  resource = str resource;
  mqtt_connection = bool false;
  xmpp_connection = bool false;
}

unfoldable pub client_as_dict : VacBotClient → Fields
client_as_dict c = field "userid" c.userid (
    field "name" c.name (
      field "realm" c.realm (
        field "resource" c.resource (
          field "mqtt_connection" c.mqtt_connection
            (field "xmpp_connection" c.xmpp_connection end)))))

unfoldable pub client_from_dict : Fields → VacBotClient
unfolding lookup_or
client_from_dict d = record {
  userid = lookup_or "userid" (str "") d;
  name = lookup_or "name" (str "") d;
  realm = lookup_or "realm" (str "") d;
  resource = lookup_or "resource" (str "") d;
  mqtt_connection = lookup_or "mqtt_connection" (bool false) d;
  xmpp_connection = lookup_or "xmpp_connection" (bool false) d;
}

pub record BumperUser : Type 0 where
  pub userid : Value
  pub username : Value
  pub homeids : Value
  pub devices : Value
  pub bots : Value

abbrev pub new_user : String → BumperUser
new_user userid = record {
  userid = str userid;
  username = str user_username_default;
  homeids = arr nil;
  devices = arr nil;
  bots = arr nil;
}

unfoldable pub user_as_dict : BumperUser → Fields
user_as_dict u = field "userid" u.userid (
    field "username" u.username
      (field "homeids" u.homeids (field "devices" u.devices (field "bots" u.bots end))))

unfoldable pub user_from_dict : Fields → BumperUser
unfolding lookup_or
user_from_dict d = record {
  userid = lookup_or "userid" (str "") d;
  username = lookup_or "username" (str user_username_default) d;
  homeids = lookup_or "homeids" (arr nil) d;
  devices = lookup_or "devices" (arr nil) d;
  bots = lookup_or "bots" (arr nil) d;
}

-- A moment, in microseconds since the epoch, and the ISO texts that it is stored as.
pub record Datetime : Type 0 where
  pub isoformat : ℕ → String
  pub fromisoformat : String → Option ℕ

pub record Token : Type 0 where
  pub userid : Value
  pub token : Value
  pub expiration : ℕ
  pub auth_code : Value
  pub it_token : Value

abbrev pub new_token : String → String → ℕ → Token
new_token userid token expiration = record {
  userid = str userid;
  token = str token;
  expiration = expiration;
  auth_code = null;
  it_token = null;
}

abbrev pub parse_time : Datetime → Value → Option ℕ
parse_time dt (str s) = dt.fromisoformat s
parse_time dt v = none

abbrev pub token_at : Fields → Option ℕ → Option Token
token_at d none = none
token_at d (some e) = some (record {
  userid = lookup_or "userid" (str "") d;
  token = lookup_or "token" (str "") d;
  expiration = e;
  auth_code = get_or (lookup "auth_code" d) null;
  it_token = get_or (lookup "it_token" d) null;
})

module _ (dt : Datetime) where
  unfoldable pub token_to_db : Token → Fields
  token_to_db t = field "userid" t.userid (
      field "token" t.token (
        field "expiration" (str (dt.isoformat t.expiration))
          (field "auth_code" t.auth_code (field "it_token" t.it_token end))))

  -- none is the exception of `fromisoformat` at what is no ISO text.
  unfoldable pub token_from_dict : Fields → Option Token
  unfolding lookup_or
  token_from_dict d = token_at d (parse_time dt (lookup_or "expiration" (str "") d))
