-- ===== src/Web/Devices.antt =====
-- The list of devices that an application sees, `create_device_list` of
-- `bumper/web/plugins/api/appsvr.py`. The product map and the configuration robots are JSON files of
-- the repository, read once and shared from then on: lists of dictionaries here, the products and
-- the robots of the groups, one group after the other. A dictionary is built by actions on it, which
-- raise where a key is missing.
pub mod Keys
pub mod Laws
pub mod QrCode
use bumper.Base.{
  ℕ, String, Bool, true, false, not, ◌&&◌, ◌||◌, Option, none, some, List, [], ◌∷◌, ◌==◌,
  if◌then◌else◌, get_or, Exec, pure, raise, gets, modify, or_raise, ◌>>=◌, ◌>>◌,
}
use bumper.Settings.{home_id, domain_main, dom_sub_1, dom_sub_2}
use bumper.Text.{starts_with, append, concat}
use bumper.Value.{
  Value, null, bool, num, pos, str, obj, arr, Items, nil, cons, Fields, end, field, lookup,
  lookup_or, insert, value_eq, truthy,
}
use bumper.Models.{VacBotDevice, bot_as_dict}
use bumper.Db.Tiny.{TinyDb}
use bumper.Db.Bots.{list_all}

pub record Static : Type 0 where
  pub products : List Fields
  pub robots : List Fields

-- A dictionary has a key once.
unfoldable pub without_key : String → Fields → Fields
without_key k end = end
without_key k (field j v d) = let rest = without_key k d in if j == k then rest else field j v rest

-- `result[k] = v`
unfoldable pub put : String → Value → Exec Fields (Unit {0})
put k v d = (some tt, insert k v d)

abbrev pub popped : String → Fields → Option Value → Option Value × Fields
popped k d none = (none, d)
popped k d (some v) = (some v, without_key k d)

-- `d.pop(k)`
unfoldable pub pop : String → Exec Fields Value
unfolding without_key
pop k d = popped k d (lookup k d)

-- `result[k] = source[j]`
unfoldable pub copy : Fields → String → String → Exec Fields (Unit {0})
unfolding put
copy source j k = do v ← or_raise (lookup j source); put k v

abbrev pub get : String → Fields → Value
get k d = lookup_or k null d

unfoldable pub first_robot : String → Value → List Fields → Option Fields
first_robot key value [] = none
first_robot key value (robot ∷ robots) =
    if value_eq (get key robot) value then some robot else first_robot key value robots

-- `_get_config_groups_robot`
unfoldable pub get_robot : String → Value → List Fields → Option Fields
unfolding first_robot
get_robot key value robots = if truthy value then first_robot key value robots else none

-- A dictionary without entries is false.
abbrev pub is_robot : Option Fields → Bool
is_robot none = false
is_robot (some end) = false
is_robot (some (field k v d)) = true

abbrev pub name_category : String → String
name_category name =
    if starts_with "DEEBOT" name
    then "DEEBOT"
    else if starts_with "GOAT" name
    then "GOATBOT"
    else "UNKNOWN"

-- `device_name.startswith`: none is the `AttributeError` of what is no text.
abbrev category_of_name : Value → Option Value
category_of_name (str name) = some (str (name_category name))
category_of_name v = none

-- `_get_product_category`
unfoldable pub get_product_category : Value → Option Fields → Option Value
get_product_category device_name none = category_of_name device_name
get_product_category device_name (some robot) =
    if is_robot (some robot)
    then some (lookup_or "category" (str "UNKNOWN") robot)
    else category_of_name device_name

abbrev pub flags : Bool → Fields → Value
flags stand more = obj (
    field "battery" (bool true) (
      field "tmallstand" (bool stand) (
        field "video" (bool stand) (
          field "clean" (bool true)
            (field "charge" (bool true) (field "chargestate" (bool true) more))))))

abbrev pub blap_flags : Value
blap_flags = obj (
    field "battery" (bool true) (
      field "appArchVer" (str "2.0") (
        field "bt_mode" (bool true) (field "ff_mode" (bool true) (field "fwPlat" (str "DZ") end)))))

-- The flags by the kind of connection.
abbrev pub put_flags : String → Exec Fields (Unit {0})
put_flags smart_type =
    if starts_with "MQ" smart_type
    then put "scode" (flags true end)
    else if starts_with "BLAP" smart_type
    then (do put "scode" blap_flags; put "btName" (str ""); put "btMac" (str ""))
    else put "scode" (flags false end)

-- A kind of connection that is true and no text raises.
abbrev pub put_scode : Value → Exec Fields (Unit {0})
put_scode (str smart_type) = put_flags smart_type
put_scode v = if truthy v then raise else put "scode" (flags false end)

abbrev pub or_robot : Option Fields → Option Fields → Option Fields
or_robot none other = other
or_robot (some end) other = other
or_robot (some (field k v d)) other = some (field k v d)

-- Some classes are in no group of the configuration: then the name of the product decides.
abbrev pub category_for : List Fields → Option Fields → Value → Option Value
category_for robots robot name =
    get_product_category name (or_robot robot (get_robot "groupName" name robots))

-- What the product map adds.
unfoldable pub put_product : List Fields → Option Fields → Fields → Exec Fields (Unit {0})
unfolding put copy get_robot get_product_category
put_product robots robot product = do
  copy product "_id" "pid"
  copy product "materialNo" "materialNo"
  copy product "name" "deviceName"
  copy product "model" "model"
  copy product "UILogicId" "UILogicId"
  copy product "ota" "ota"
  copy product "iconUrl" "icon"
  name ← or_raise (lookup "name" product)
  category ← or_raise (category_for robots robot name)
  put "product_category" category
  put_scode (get "smartType" product)

abbrev pub put_product_of : List Fields → Option Fields → Value → Exec Fields (Unit {0})
put_product_of robots robot null = pure tt
put_product_of robots robot (obj product) = put_product robots robot product
put_product_of robots robot v = raise

abbrev service : Value
service = obj (
    field "jmq" (str (concat ("jmq-ngiot-eu." ∷ dom_sub_2 ∷ domain_main ∷ [])))
      (field "mqs" (str (concat ("api-ngiot." ∷ dom_sub_1 ∷ domain_main ∷ []))) end))

abbrev is_online : VacBotDevice → Bool
is_online bot = truthy bot.mqtt_connection || truthy bot.xmpp_connection

-- What every device has.
unfoldable pub put_state : ℕ → VacBotDevice → Exec Fields (Unit {0})
unfolding put
put_state now bot = do
  put "status" (num (pos (if is_online bot then 1 else 0)))
  put "otaUpgrade" (obj end)
  put "updateInfo" (obj (field "changeLog" (str "") (field "needUpdate" (bool false) end)))
  put "shareable" (bool (truthy bot.mqtt_connection))
  put "sharedDevice" (bool false)
  put "homeId" (str home_id)
  put "homeSort" (num (pos 1))
  put "bindTs" (num (pos now))
  put "offmap" (bool true)
  put "service" service

-- `_include_product_iot_map_info` at the product of the bot's class.
unfoldable pub include_product : ℕ → List Fields → VacBotDevice → Fields → Exec Fields (Unit {0})
unfolding pop put_product put_state
include_product now robots bot botprod = do
  pop "mqtt_connection"
  pop "xmpp_connection"
  class_id ← gets (get "class")
  put_product_of robots (get_robot "mid" class_id robots) (get "product" botprod)
  put_state now bot

-- The first product of the class: none is the `KeyError` of a product without one.
unfoldable pub product_of : Value → List Fields → Option (Option Fields)
product_of class_id [] = some none
product_of class_id (botprod ∷ products) =
    let rest = product_of class_id products in
    elim (lookup "classid" botprod) [
      | none ↦ none
      | some c ↦ if value_eq c class_id then some (some botprod) else rest
    ]

abbrev pub built : Option (Unit {0}) × Fields → Option (Option Fields)
built (none, d) = none
built (some u, d) = some (some d)

abbrev pub device_at : ℕ → Static → VacBotDevice → Option (Option Fields) → Option (Option Fields)
device_at now static bot none = none
device_at now static bot (some none) = some none
device_at now static bot (some (some botprod)) =
    built (include_product now static.robots bot botprod (bot_as_dict bot))

-- `_include_product_iot_map_info`: outside is the exception, inside the missing product.
unfoldable pub device_of : ℕ → Static → VacBotDevice → Option (Option Fields)
unfolding include_product product_of
device_of now static bot = device_at now static bot (product_of bot.class_id static.products)

abbrev pub next_device : Option (Option Fields) → Option (List Fields) → Option (List Fields)
next_device none rest = none
next_device (some o) none = none
next_device (some none) (some ds) = some ds
next_device (some (some d)) (some ds) = some (d ∷ ds)

-- A bot without a class is passed over.
unfoldable pub devices_of : ℕ → Static → List VacBotDevice → Option (List Fields)
unfolding device_of
devices_of now static [] = some []
devices_of now static (b ∷ bs) =
    let rest = devices_of now static bs in
    if truthy b.class_id then next_device (device_of now static b) rest else rest

module _ ⦃db : TinyDb⦄ where
  -- `create_device_list`, at the moment of the request in milliseconds.
  unfoldable pub create_device_list : ℕ → Static → db.Table → Option (List Fields)
  unfolding devices_of
  create_device_list now static bots = devices_of now static (list_all bots)
