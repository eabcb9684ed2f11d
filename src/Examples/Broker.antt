-- ===== src/Examples/Broker.antt =====
-- The broker at concrete clients: authentication, presence and topics.
use bumper.Db.Clients
use bumper.Db.Repo.{get_first, get_record, upsert_record}
use bumper.Base.{
  String, ◌≡◌, refl, ◌≢◌, true, false, none, some, [], ◌∷◌, ◌==◌, if◌then◌else◌, set, eq_iff, arith,
}
use bumper.Settings.{Config}
use bumper.Text.{split, split_once, join, contains_char}
use bumper.Value.{bool, lookup, value_eq, update, insert}
use bumper.Models.{new_bot, bot_as_dict, new_token, token_to_db, client_as_dict}
use bumper.Db.Rows.{Rows}
use bumper.Db.Bots
use bumper.Db.Bots.Laws.{map_bot}
use bumper.Db.Tokens.{add_auth_code, verify_auth_code}
use bumper.Mqtt.ClientId.{ClientId, ClientType, split_client_id, type_of}
use bumper.Mqtt.Auth.{
  helper_bot_client_id, Plugin, Outside, Session, AuthState, authenticate, try_authenticate,
  strip_realm, device_auth, read_name, name_pieces, check_password, register, add_client,
}
use bumper.Mqtt.Auth.Laws.{authenticate-code}
use bumper.Mqtt.Presence.{Presence, on_client_disconnected}
use bumper.Mqtt.Presence.Laws.{bots-on_client_disconnected, proxy_fails}
use bumper.Mqtt.Forward.{proxy_helper, receive, forward}
use bumper.Mqtt.Forward.Laws.{forward-receive}
use bumper.Examples.Memory.{memory, memory_laws, moments, cache, cache_laws}

abbrev closed : Config
closed = record { use_auth = true; proxy_mqtt = false; sync_timezone = false; app_version = "1" }

abbrev no_users : Plugin
no_users = record { allow_anonymous = false; users = [] }

abbrev outside : Outside
outside = record {
  verify_hash = λ p h. some (p == h);
  decode = λ s. none;
  resolve = none;
  connect = λ i u p. true;
}

-- The device `d1` with a token and the code `c1`.
abbrev coded : Rows
coded =
    (add_auth_code "d1" "c1"
      (record { doc_id = 1; fields = token_to_db moments (new_token "d1" "k1" 5) } ∷ [])).1

abbrev device : String
device = "d1@USER/r"

abbrev device_id : ClientId
device_id = record { did = "d1"; class_id = "USER"; resource = "r"; client_type = ClientType.user }

abbrev session : Session
session = record { client_id = some device; username = some "n"; password = some "c1" }

abbrev empty_state : AuthState
empty_state = record { bots = []; clients = []; proxies = []; session_username = none }

not_helper : device ≢ helper_bot_client_id
not_helper = ground (arith, eq_iff device helper_bot_client_id)

has_at : contains_char "@" device ≡ true
unfolding contains_char
has_at = refl

let_in : (authenticate outside closed no_users coded session empty_state).0 ≡ true
unfolding authenticate try_authenticate strip_realm contains_char device_auth split_client_id
    split_once read_name name_pieces check_password verify_auth_code add_auth_code get_first lookup
    token_to_db value_eq upsert_record update insert Clients.add register type_of get_record
    client_as_dict split add_client
let_in = refl

authenticate-code_example :
    (c : ClientId) × (password : String) × (split_client_id device ≡ some c)
    × (session.password ≡ some password)
    × (verify_auth_code c.did password coded ≡ true)
authenticate-code_example =
    authenticate-code outside closed no_users coded session device empty_state refl refl refl
      not_helper has_at let_in

abbrev robot : String
robot = "d1@c/r"

abbrev robot_id : ClientId
robot_id = record { did = "d1"; class_id = "c"; resource = "r"; client_type = ClientType.bot }

abbrev present : Presence
present = record {
  bots = record { doc_id = 1; fields = bot_as_dict (new_bot "d1" "n" "r" "eco") } ∷ [];
  clients = [];
  proxies = robot ∷ [];
  syncs = [];
}

-- Proxy mode, with a proxy that disconnects, and with one that does not.
abbrev proxied : Config
proxied = record closed { proxy_mqtt = true }

robot_not_helper : robot ≢ helper_bot_client_id
robot_not_helper = ground (arith, eq_iff robot helper_bot_client_id)

robot_split : split_client_id robot ≡ some robot_id
unfolding split_client_id split_once type_of
robot_split = refl

bots-on_client_disconnected_example :
    let (r, s') = on_client_disconnected proxied true robot present in
    let fails = proxy_fails proxied true robot present in
    (r ≡ (if fails then none else some tt))
    × (Bots.get "d1" s'.bots ≡ (
        if fails
        then Bots.get "d1" present.bots
        else if "d1" == "d1"
        then map_bot (λ v. record v { mqtt_connection = bool false }) (Bots.get "d1" present.bots)
        else Bots.get "d1" present.bots))
bots-on_client_disconnected_example =
    bots-on_client_disconnected proxied true robot robot_id "d1" present robot_not_helper
      robot_split refl

raises : (on_client_disconnected proxied false robot present).0 ≡ none
unfolding on_client_disconnected
raises = refl

abbrev request : String
request = "iot/p2p/clean/app/cls/res/d1/c/r/q/id7/j"

abbrev reply : String
reply = "iot/p2p/clean/d1/c/r/proxyhelper/cls/res/p/id7/j"

forward-receive_example :
    ((receive request []).0 ≡ some (join "/" (set (split "/" request) 3 proxy_helper)))
    × ((forward true reply (receive request []).1).0
        ≡ some (join "/" (set (split "/" reply) 6 "app")))
unfolding split
forward-receive_example =
    forward-receive cache_laws request reply "app" "id7" [] refl refl refl
      (ground (arith, eq_iff "app" proxy_helper)) (ground (arith, eq_iff "app" "")) refl refl refl
