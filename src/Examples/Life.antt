-- ===== src/Examples/Life.antt =====
-- The program's shutdown, the proxy, the time zone and the properties of a device at concrete inputs.
use bumper.Base.{
  ℕ, String, ◌≡◌, refl, true, false, ◌&&◌, Option, none, some, List, [], ◌∷◌, ◌++◌, ◌==◌,
  if◌then◌else◌,
}
use bumper.Settings.{Config}
use bumper.Value.{ℤ, pos, negsuc, Value, str, obj, field, end, nil, cons, Items, Json}
use bumper.Models.{new_bot, bot_as_dict}
use bumper.Db.Rows.{Rows}
use bumper.Db.Bots
use bumper.Mqtt.Helper.{Bot}
use bumper.Mqtt.Timezone.{set_bot_timezone}
use bumper.Mqtt.Timezone.Laws.{
  told, whole_minutes, zone_messages, published_of, published-set_bot_timezone,
}
use bumper.Web.Server.{Http, Web, ProxyRequest, base, lookup, handle_proxy}
use bumper.Web.Server.Laws.{Stops, handle_proxy-subdomain}
use bumper.Web.App.Properties.{PropRequest, prop_row, ask_all}
use bumper.Web.App.Properties.Laws.{answers_of, rows_for, ask_all-rows}
use bumper.Xmpp.Client.{new_client}
use bumper.Lifecycle.{Bumper, shutdown, TaskEnd, returned, cancelled}
use bumper.Lifecycle.Off.{Down, Halts, none_left, one_returns, one_cancelled}
use bumper.Lifecycle.Laws.{shutdown-Down}
use bumper.Examples.Memory.{memory}
use bumper.Examples.Commands.{commands, commands_laws, json, helper}
use bumper.Examples.Startup.{broker, broker_laws, on_the_way}

-- A network on which nothing fails: how many runners were set up.
instance abbrev http : Http
http = record {
  Net = ℕ;
  serve = λ b n. (some tt, n);
  stop = λ b n. (some tt, n);
  stop_app = λ n. (some tt, n);
}

stops : Stops
stops = record { stopped = λ b n. refl; app_stopped = λ n. refl }

abbrev web : Web
web = record { runners = record { host = "0.0.0.0"; port = 443; use_ssl = true } ∷ []; net = 0 }

abbrev running : Bumper
running = record {
  bots = [];
  clients = [];
  tokens = [];
  database = record { clean_logs = []; meta = []; backups = [] };
  helperbot = some helper;
  mqtt = some "starting";
  web = some web;
  xmpp = some (record {
    server = record { peers = new_client 1 ∷ []; bots = []; clients = []; sent = [] };
    socket = some true;
  });
  shutting_down = false;
}

halts : Halts
halts = λ n e. refl

-- One task returns, and the next ends by its cancellation.
abbrev tasks : List TaskEnd
tasks = returned ∷ cancelled ∷ []

shutdown-Down_example : ((shutdown 1 tasks running).0 ≡ some tt) × Down (shutdown 1 tasks running).1
shutdown-Down_example =
    shutdown-Down stops halts 0 tasks running (one_returns (one_cancelled none_left)) on_the_way

abbrev subdomain : ProxyRequest
subdomain = record {
  raw_path = "/api/x.do";
  url = record { host = some "portal.ecouser.net"; bare = "https://portal.ecouser.net/api/x.do" };
  total_bytes = 0;
  content_type = "";
  method = "GET";
}

joined :
    some "portal.ecouser.net"
    ≡ some (bumper.Text.append "portal" (bumper.Text.append "." "ecouser.net"))
unfolding bumper.Text.append
joined = refl

handle_proxy-subdomain_example : handle_proxy subdomain ≡ (
    if subdomain.raw_path == "/"
    then some base
    else if subdomain.raw_path == "/lookup.do"
    then some lookup
    else none)
handle_proxy-subdomain_example = handle_proxy-subdomain subdomain "portal" "ecouser.net" refl joined

abbrev zoned : Config
zoned = record { use_auth = true; proxy_mqtt = false; sync_timezone = true; app_version = "1" }

abbrev bots : Rows
bots = record { doc_id = 1; fields = bot_as_dict (new_bot "d1" "n" "r" "eco") } ∷ []

-- An hour and a half behind.
abbrev behind : Option ℤ
behind = some (negsuc 5399)

published-set_bot_timezone_example :
    published_of (set_bot_timezone json [] zoned "abcd" behind 100 "d1" bots (some helper)) ≡ (
      if zoned.sync_timezone && (told behind && helper.client)
      then helper.published
        ++ zone_messages json "abcd" (Bots.get "d1" bots) (whole_minutes behind) 100
      else helper.published)
published-set_bot_timezone_example =
    published-set_bot_timezone json commands_laws [] zoned "abcd" "d1" behind 100 bots helper

minutes_behind : whole_minutes behind ≡ negsuc 89
unfolding whole_minutes
minutes_behind = refl

abbrev two_properties : PropRequest
two_properties = record {
  did = some "d1";
  res = some "r";
  mid = some "c";
  props = some "onBattery,onClean";
  now_millis = 1000;
  request_id = λ n. "abcd";
  messages = λ n. ("iot/p2p/getBattery/d1/c/r/helperbot/bumper/helperbot/p/abcd/j", "x") ∷ [];
  compact = λ v. "{}";
  iso_z = λ n. "1970";
}

-- A robot answers with a body.
abbrev replies : Json
replies = record json {
  loads = λ s. some (obj (field "body" (obj (field "data" (str s) end)) end));
}

abbrev two : List String
two = "onBattery" ∷ "Error" ∷ []

abbrev two_rows : Items
two_rows =
    cons (prop_row replies two_properties "onBattery" (str "x"))
      (cons (prop_row replies two_properties "Error" (str "x")) nil)

answered : (ask_all replies two_properties 0 two (some helper)).0 ≡ some two_rows
unfolding ask_all bumper.Web.App.Properties.query_of bumper.Mqtt.Command.new_command
    bumper.Mqtt.Command.p2p_name bumper.Value.lookup_or bumper.Value.lookup bumper.Value.truthy
    bumper.Value.value_eq bumper.Text.starts_with_fold bumper.Text.starts_with bumper.Text.append
    bumper.Text.drop_chars bumper.Mqtt.Helper.send_command_plain bumper.Text.split
answered = refl

ask_all-rows_example :
    (ask_all replies two_properties 0 two (some helper)).0
    ≡ rows_for replies two_properties (answers_of replies two_properties 0 two (some helper))
ask_all-rows_example = ask_all-rows replies two_properties two 0 (some helper)
