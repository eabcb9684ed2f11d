-- ===== src/Examples/Messenger.antt =====
-- The XMPP server at concrete stanzas.
use bumper.Db.Repo.{get_first, upsert_record}
use bumper.Value.{lookup, value_eq, update, insert}
use bumper.Text.{split, starts_with}
use bumper.Base.{
  ◌==◌, if◌then◌else◌, Option, List, String, ◌≡◌, refl, ◌≢◌, true, false, none, some, [], ◌∷◌,
  eq_iff, arith,
}
use bumper.Settings.{Config}
use bumper.Models.{new_token, token_to_db}
use bumper.Db.Rows.{Rows}
use bumper.Db.Tokens.{add_auth_code, verify_auth_code}
use bumper.Xmpp.Element.{Element, element, leaf, child, strip_uri}
use bumper.Xmpp.Client.{bot, controller, unknown, ready, Conn, new_client, send, set_state}
use bumper.Xmpp.Client.Laws.{Advances}
use bumper.Xmpp.Login.{Credentials, read_credentials, handle_sasl_auth, login}
use bumper.Xmpp.Route.{Rendering}
use bumper.Xmpp.Dispatch.{Service, handle_iq}
use bumper.Xmpp.Repair.Laws.{parse_data-Advances}
use bumper.Xmpp.Repair.{
  parse_data, repaired, rooted, remove_matches, declaration_length, opening_length, find_matches,
  close_each, replace_text,
}
use bumper.Xmpp.Server.{Server, Event, made, upgraded, lost, received, shutdown, run}
use bumper.Xmpp.Server.Laws.{addresses, list_run, addresses-run}
use bumper.Xmpp.Access.{HasCode, handle_sasl_auth-HasCode, handle_iq-ready, handle_sasl_auth-bot}
use bumper.Examples.Memory.{memory, memory_laws, moments}

abbrev closed : Config
closed = record { use_auth = true; proxy_mqtt = false; sync_timezone = false; app_version = "1" }

abbrev rendering : Rendering
rendering = record { render = λ xml name space. name; uuid = λ n. "0" }

-- The user `u1` with a token and the code `c1`.
abbrev coded : Rows
coded =
    (add_auth_code "u1" "c1"
      (record { doc_id = 1; fields = token_to_db moments (new_token "u1" "k1" 5) } ∷ [])).1

abbrev service : Service
service = record { decode = some; out = rendering; cfg = closed; tokens = coded }

abbrev fresh : Conn
fresh = record { before = []; self = new_client 1; after = []; bots = []; clients = []; sent = [] }

abbrev session_iq : Element
session_iq = element "iq" (("type", "set") ∷ []) none (child (element "session" [] none leaf) leaf)

abbrev root : Element
root = element "root" [] none (child session_iq leaf)

-- A parser that knows one text.
abbrev parser : String → Option Element
parser text = if text == "<root><iq/></root>" then some root else none

parse_data-Advances_example : Advances fresh (parse_data service parser "<iq/>" fresh)
parse_data-Advances_example = parse_data-Advances service parser "<iq/>" fresh

handle_iq-ready_example :
    ((handle_iq service session_iq "" fresh).self.state ≡ ready)
    × ((handle_iq service session_iq "" fresh).self.kind ≡ unknown)
unfolding strip_uri starts_with
handle_iq-ready_example =
    handle_iq-ready service session_iq (element "session" [] none leaf) "" fresh refl refl refl
      (omega arith)

abbrev auth_text : String
auth_text = "\0u1\0atom/r/c1"

abbrev auth : Element
auth = element "auth" [] (some auth_text) leaf

becomes_controller : (handle_sasl_auth some closed coded auth fresh).self.kind ≡ controller
unfolding handle_sasl_auth read_credentials split login verify_auth_code add_auth_code get_first
    lookup token_to_db value_eq upsert_record update insert send set_state
becomes_controller = refl

not_controller : unknown ≢ controller
not_controller = ground arith

handle_sasl_auth-HasCode_example : HasCode some coded auth fresh
handle_sasl_auth-HasCode_example =
    handle_sasl_auth-HasCode some closed coded auth fresh refl refl not_controller
      becomes_controller

abbrev device : Conn
device = record fresh { self = record (new_client 1) { devclass = "126" } }

abbrev no_code : Credentials
no_code = record { username = "d7"; resource = some "r"; authcode = "" }

handle_sasl_auth-bot_example :
    ((handle_sasl_auth some closed [] (element "auth" [] (some "\0d7\0r") leaf) device).self.kind
      ≡ bot)
    × ((handle_sasl_auth some closed [] (element "auth" [] (some "\0d7\0r") leaf) device).self.uid
        ≡ "d7")
unfolding read_credentials split
handle_sasl_auth-bot_example =
    handle_sasl_auth-bot some closed [] (element "auth" [] (some "\0d7\0r") leaf) device "\0d7\0r"
      "\0d7\0r" no_code (ground (arith, eq_iff "126" "")) refl refl refl

abbrev server : Server
server = record { peers = []; bots = []; clients = []; sent = [] }

abbrev events : List Event
events = made 1 ∷ made 2 ∷ received 1 "<iq/>" ∷ upgraded 2 ∷ lost 1 ∷ shutdown ∷ []

addresses-run_example :
    addresses (run service parser events server).peers ≡ list_run events (addresses server.peers)
addresses-run_example = addresses-run service parser events server

-- Only the second connection is left.
second_left : list_run events [] ≡ 2 ∷ []
unfolding list_run
second_left = refl

-- A declaration is taken out, a stream is closed, or ended.
declared : rooted "<?xml v?><a/>" ≡ "<root><a/></root>"
unfolding remove_matches declaration_length bumper.Text.concat starts_with bumper.Text.drop_chars
declared = refl

opened : repaired "<stream:stream a>" ≡ some "<stream:stream a/>"
unfolding repaired opening_length find_matches close_each replace_text bumper.Text.contains_text
    bumper.Text.drop_chars bumper.Text.take_chars bumper.Text.append bumper.Text.count
opened = refl

ended : repaired "</stream:stream>" ≡ none
unfolding repaired bumper.Text.contains_text
ended = refl

-- A whole stream whose opening has an attribute is taken for an end.
whole : repaired "<stream:stream a><iq/></stream:stream>" ≡ none
unfolding repaired bumper.Text.contains_text
whole = refl
