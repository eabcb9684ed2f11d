-- ===== src/Examples/Pages.antt =====
-- Pages, devices and tasks at concrete inputs.
use bumper.Base.{
  Option, ℕ, ◌≤◌, String, ◌≡◌, refl, true, false, none, some, List, [], ◌∷◌, ◌++◌, map, length,
  get_or, eq_iff,
}
use bumper.Value.{
  ℤ, pos, Value, null, num, str, obj, arr, nil, Fields, end, field, lookup, value_eq, Json,
}
use bumper.Models.{
  VacBotDevice, new_bot, bot_as_dict, new_user, user_as_dict, new_client, client_as_dict,
}
use bumper.Db.Rows.{Document, Rows}
use bumper.Db.Repo.Removed.{UniqueKeys}
use bumper.Db.Bots
use bumper.Db.Users
use bumper.Db.Clients
use bumper.Web.Auth.{Env}
use bumper.Web.Pages.{Store, remove_entity, removed}
use bumper.Web.Pages.LogPage.{page, take, drop, sort_logs, logs_context}
use bumper.Models.CleanLog.{CleanLog}
use bumper.Db.CleanLogs
use bumper.Web.Pages.Laws.{page_of, logs_context-page_of, remove_entity-bot}
use bumper.Web.Devices.{Static, create_device_list, name_category}
use bumper.Web.Devices.QrCode.{decode_qr_code, scanned}
use bumper.Web.Devices.QrCode.Laws.{others, decode_qr_code-again}
use bumper.Web.Users.{Addresses, UsersState, handle_user, logged_out}
use bumper.Web.Users.Laws.{handle_user-logout}
use bumper.Examples.Memory.{memory, memory_laws, moments}

abbrev five : List ℕ
five = 5 ∷ 4 ∷ 3 ∷ 2 ∷ 1 ∷ []

second_page : page (pos 2) (pos 2) five ≡ 3 ∷ 2 ∷ []
unfolding page
second_page = refl

abbrev log_at : ℤ → Document
log_at n = record {
  doc_id = 1;
  fields = field "clean_log_id" (str "x") (field "did" (str "d") (field "ts" (num n) end));
}

-- Three logs, of which the second page of one shows the middle one.
abbrev log_table : Rows
log_table = log_at (pos 2) ∷ log_at (pos 3) ∷ log_at (pos 1) ∷ []

abbrev logs : List CleanLog
logs = get_or (CleanLogs.list_all log_table) []

abbrev format : ℤ → Option String
format n = some "now"

logs_context-page_of_example :
    let sorted = sort_logs logs in
    let shown = take 1 (drop 1 sorted) in
    let rest = drop 2 sorted in
    (logs_context format (some "1") (some "1") log_table
      ≡ page_of format 1 1 (take 1 sorted) shown rest)
    × ((take 1 sorted ++ (shown ++ rest) ≡ sorted) × (length shown ≤ 1))
unfolding bumper.Numbers.int_of_text CleanLogs.list_all CleanLogs.logs_of
    bumper.Models.CleanLog.log_from_db lookup bumper.Web.Pages.LogPage.comparable value_eq
    bumper.Models.CleanLog.as_int bumper.Numbers.to_int bumper.Value.lookup_or
logs_context-page_of_example =
    logs_context-page_of format (some "1") (some "1") 1 1 logs log_table refl refl refl refl

middle : map (λ l. l.ts) (take 1 (drop 1 (sort_logs logs))) ≡ num (pos 2) ∷ []
unfolding take drop sort_logs CleanLogs.list_all CleanLogs.logs_of
    bumper.Models.CleanLog.log_from_db lookup value_eq bumper.Models.CleanLog.as_int
    bumper.Numbers.to_int bumper.Value.lookup_or
middle = refl

abbrev bot : String → VacBotDevice
bot did = record (new_bot did "n" "r" "eco-ng") { class_id = str "c1" }

abbrev bot_rows : Rows
bot_rows =
    record { doc_id = 1; fields = bot_as_dict (bot "d1") }
    ∷ record { doc_id = 2; fields = bot_as_dict (bot "d2") }
    ∷ []

bot_rows_unique : UniqueKeys "did" bot_rows
unfolding bot_as_dict lookup value_eq
bot_rows_unique did =
    (λ h. let p : "d1" ≡ did = (eq_iff "d1" did).0 h in rw (← p) refl, (λ h. refl, tt))

abbrev store : Store
store = record { bots = bot_rows; clients = []; users = []; clean_logs = [] }

remove_entity-bot_example :
    let (r, s') = remove_entity "bot" (some "d1") store in
    (r ≡ some (removed false "bot"))
    × ((Bots.get "d2" s'.bots ≡ Bots.get "d2" bot_rows) × (s' ≡ record store { bots = s'.bots }))
remove_entity-bot_example =
    remove_entity-bot "d1" "d2" store refl (refl, (refl, tt)) bot_rows_unique

abbrev product : Fields
product = field "_id" (str "p") (
    field "materialNo" (str "m") (
      field "name" (str "DEEBOT X") (
        field "model" (str "X") (
          field "UILogicId" (str "x")
            (field "ota" (Value.bool true) (field "iconUrl" (str "u") end))))))

abbrev botprod : Fields
botprod = field "classid" (str "c1") (field "product" (obj product) end)

abbrev robot : Fields
robot = field "groupId" (str "g") (
    field "category" (str "DEEBOT") (
      field "groupName" (str "DEEBOT X") (
        field "sort" (num (pos 1)) (
          field "mid" (str "c1") (
            field "service" (obj end) (
              field "products" (arr nil) (
                field "smartTypes" (arr nil)
                  (field "icon" (str "i") (field "cusSteps" (arr nil) end)))))))))

abbrev static : Static
static = record { products = botprod ∷ []; robots = robot ∷ [] }

abbrev first_scan : Value
first_scan = scanned (str "sn") (str "DEEBOT") (
    obj (
      field "category" (str "DEEBOT") (
        field "mid" (str "c1")
          (field "customSteps" (arr nil) (field "name" (str "DEEBOT X") end)))))

-- Two robots share a name.
abbrev namesakes : List Fields
namesakes = robot ∷ robot ∷ []

decode_qr_code-again_example :
    (decode_qr_code
      (botprod ∷ [])
      (str "sn")
      (str "c1")
      (decode_qr_code (botprod ∷ []) (str "sn") (str "c1") namesakes).1).0
    ≡ (decode_qr_code (botprod ∷ []) (str "sn") (str "c1") (others (str "DEEBOT X") namesakes)).0
unfolding bumper.Web.Devices.product_of lookup bumper.Value.value_eq bumper.Value.lookup_or
    bumper.Web.Devices.first_robot bumper.Web.Devices.get_robot bumper.Value.truthy decode_qr_code
    bumper.Value.insert
decode_qr_code-again_example =
    decode_qr_code-again (botprod ∷ []) namesakes (str "sn") (str "c1") first_scan botprod
      "DEEBOT X" refl refl refl refl

-- The other one guides the second scan, and none the third.
other_left : others (str "DEEBOT X") namesakes ≡ robot ∷ []
unfolding others bumper.Value.value_eq bumper.Value.lookup_or lookup
other_left = refl

unguided :
    (decode_qr_code (botprod ∷ []) (str "sn") (str "c1") (others (str "DEEBOT X") (robot ∷ []))).0
    ≡ some (scanned (str "sn") (str (name_category "DEEBOT X")) null)
unfolding bumper.Web.Devices.product_of lookup bumper.Value.value_eq bumper.Value.lookup_or
    bumper.Web.Devices.first_robot bumper.Web.Devices.get_robot bumper.Value.truthy decode_qr_code
    others bumper.Web.Devices.get_product_category
unguided = refl

abbrev devices : List Fields
devices = get_or (create_device_list 7 static bot_rows) []

abbrev env : Env
env = record {
  now = 10;
  now_millis = 10;
  loaded_millis = 0;
  dt = moments;
  uuid = λ n. "c9";
  digest = λ s. s;
}

abbrev json : Json
json = record { loads = λ s. none; dumps = λ v. "{}"; repr = λ v. "1" }

abbrev addresses : Addresses
addresses = record {
  announce_ip = "10.0.0.1";
  xmpp_port = 5223;
  update_server = "3.68.172.231";
  update_port = 8005;
}

abbrev client_rows : Rows
client_rows = record { doc_id = 1; fields = client_as_dict (new_client "n" "u1" "e" "r") } ∷ []

abbrev user_rows : Rows
user_rows = record { doc_id = 1; fields = user_as_dict (new_user "u1") } ∷ []

abbrev signed_in : UsersState
signed_in = record {
  world = record { users = user_rows; bots = bot_rows; tokens = []; drawn = 0 };
  clients = client_rows;
}

abbrev logout_body : Fields
logout_body = field "todo" (str "logout") (field "userId" (str "u1") end)

handle_user-logout_example :
    let (r, s') = handle_user env json addresses static (some (obj logout_body)) none signed_in in
    (r ≡ some logged_out)
    × ((Users.get_by_id "u1" s'.world.users ≡ none)
        × ((Clients.get "u1" s'.clients ≡ none)
            × ((s'.world.bots ≡ bot_rows) × (s'.world.tokens ≡ []))))
unfolding lookup
handle_user-logout_example =
    handle_user-logout env json addresses static logout_body none "u1" "u1" signed_in refl refl
      (refl, tt) (λ u. (λ e. refl, tt)) (refl, tt) (λ u. (λ e. refl, tt))
