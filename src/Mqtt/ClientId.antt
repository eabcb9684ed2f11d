-- ===== src/Mqtt/ClientId.antt =====
-- Client identifiers, `<did>@<class>/<resource>`: `_client_id_split_helper` of
-- `bumper/mqtt/server.py`.
use bumper.Base.{String, Option, none, some, contains, if◌then◌else◌}
use bumper.Settings.{user_realms}
use bumper.Text.{split_once}

pub data ClientType : Type 0 where
  bot user : ClientType

pub record ClientId : Type 0 where
  pub did : String
  pub class_id : String
  pub resource : String
  pub client_type : ClientType

-- Whoever has no class of a user is a bot.
unfoldable pub type_of : String → ClientType
type_of class_id = if contains user_realms class_id then user else bot

abbrev with_class : String → Option (String × String) → Option ClientId
with_class did none = none
with_class did (some (class_id, resource)) =
    some (record {
      did = did;
      class_id = class_id;
      resource = resource;
      client_type = type_of class_id;
    })

abbrev with_did : Option (String × String) → Option ClientId
with_did none = none
with_did (some (did, rest)) = with_class did (split_once "/" rest)

unfoldable pub split_client_id : String → Option ClientId
split_client_id client_id = with_did (split_once "@" client_id)
