-- ===== src/Web/Plugins.antt =====
-- Small handlers of the plugins that answer from a store, a file or the query:
-- `bumper/web/plugins/api/neng.py`, `pim/product.py` and `ecms.py` of the same directory.
use bumper.Base.{
  String, Bool, true, false, Option, none, some, List, [], ◌∷◌, if◌then◌else◌, get_or,
}
use bumper.Settings.{dom_sub_port}
use bumper.Text.{concat, split}
use bumper.Value.{
  Value, bool, num, pos, str, obj, arr, Items, nil, cons, Fields, end, field, lookup_or, insert,
  value_eq, truthy, to_list,
}
use bumper.Models.{VacBotDevice}
use bumper.Db.Tiny.{TinyDb}
use bumper.Db.Bots.{list_all}
use bumper.Web.Response.{success_v3, success_v4}
use bumper.Web.App.Queries.{Query}

abbrev status_row : VacBotDevice → Value
status_row bot =
    obj (field "did" bot.did (field "msgPushStatus" (bool true) (field "nickName" bot.nick end)))

unfoldable pub status_rows : List VacBotDevice → Items
status_rows [] = nil
status_rows (bot ∷ bots) = cons (status_row bot) (status_rows bots)

-- `response_success_v3(data=data, result_key=None)`
abbrev plain_v3 : Value → Bool → Value
plain_v3 data' include_success =
    success_v3 0 (some ("data", data')) "success" "message" none include_success

-- `_handle_v3_message_push_status`, of the header's `userid`.
unfoldable pub message_push_status : ⦃db : TinyDb⦄ → Option String → db.Table → Value
unfolding status_rows
message_push_status user_id bots =
    plain_v3
      (obj (
        field "uid" (str (get_or user_id "")) (
          field "msgPushStatus" (obj (field "DEVICE" (bool true) (field "SHARE" (bool true) end)))
            (field "devices" (arr (status_rows (list_all bots))) end))))
      false

-- The configuration of a product: of two with its `pid` the later one; the first lookup by a
-- dictionary that is built of the list.
unfoldable pub config_of : Value → Items → Option Value
config_of pid nil = none
config_of pid (cons item items) = elim (config_of pid items) [
  | some v ↦ some v
  | none ↦ elim item [
    | obj d ↦ if value_eq (lookup_or "pid" (str "") d) pid then some (obj d) else none
    | _ ↦ none
  ]
]

abbrev empty_config : Value → Value
empty_config pid = obj (field "cfg" (obj end) (field "pid" pid end))

abbrev config_row : Option Value → Value → Value
config_row none pid = empty_config pid
config_row (some config) pid = if truthy config then config else empty_config pid

abbrev add_row : Value → Option Items → Option Items
add_row row none = none
add_row row (some rows) = some (cons row rows)

-- A list or a dictionary is no key: `TypeError`.
abbrev row_for : Items → Value → Option Items → Option Items
row_for configs (obj d) rows = none
row_for configs (arr xs) rows = none
row_for configs pid rows = add_row (config_row (config_of pid configs) pid) rows

unfoldable pub config_rows : Items → Items → Option Items
unfolding config_of
config_rows configs nil = some nil
config_rows configs (cons pid pids) = row_for configs pid (config_rows configs pids)

abbrev batch_answer : Option Items → Option Value
batch_answer none = none
batch_answer (some rows) =
    some
      (success_v3 200 (some ("data", arr rows)) "success" "message" (some ("ret", str "ok")) false)

abbrev batch_of : Items → Option Items → Option Value
batch_of configs none = none
batch_of configs (some pids) = batch_answer (config_rows configs pids)

-- `_handle_config_batch`, of the file's configurations, dictionaries all; none is the internal
-- server error.
unfoldable pub config_batch : Items → Option Value → Option Value
unfolding config_rows
config_batch configs (some (obj body)) =
    batch_of configs (to_list (lookup_or "pids" (arr nil) body))
config_batch configs body = none

abbrev faq_url : String → Value
faq_url page =
    str (
      concat ("https://" ∷ dom_sub_port ∷ "/api/pim/" ∷ page ∷ ".html?lang=en&defaultLang=en" ∷ []))

abbrev with_faq : Items → Value
with_faq data' =
    success_v3 0 (some ("data", arr data')) "success" "msg"
      (some (
        "configFAQ",
        obj (
            field "wifiFAQUrl" (faq_url "faqproblem") (
              field "notFoundAPUrl" (faq_url "findDbWifi")
                (field "configFailedUrl" (faq_url "configfail") end))),
      ))
      false

-- `_handle_get_config_net_all` and `_handle_get_config_groups`, of the content of the files.
unfoldable pub get_config_net_all : Items → Value
get_config_net_all configs = with_faq configs

unfoldable pub get_config_groups : Items → Value
get_config_groups groups = with_faq groups

-- `_handle_get_product_iot_map`
unfoldable pub product_iot_map : Items → Value
product_iot_map products = success_v4 (arr products) 0 "data"

-- `_handle_get_share_info`
unfoldable pub get_share_info : Option Value → Option Value
get_share_info (some (obj body)) =
    some (obj (field "code" (num (pos 0)) (field "data" (arr nil) end)))
get_share_info body = none

unfoldable pub hints : List String → Fields → Fields
hints [] d = d
hints (code ∷ codes) d = hints codes (insert code (bool false) d)

-- `_handle_hint`
unfoldable pub hint : Query → Value
unfolding hints
hint q = plain_v3 (obj (hints (split "," (get_or (q "codes") "")) end)) true
