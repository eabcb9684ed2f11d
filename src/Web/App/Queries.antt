-- ===== src/Web/App/Queries.antt =====
-- Handlers of `bumper/web/plugins/api/appsvr.py` that answer from the query alone: the list of
-- services, the plan of improvement, the watch of a camera and the check for updates. The JSON
-- files are dictionaries here; the area codes are those of `get_area_code_map` of
-- `bumper/utils/utils.py`.
use bumper.Base.{ℕ, String, true, false, Option, none, some, [], ◌∷◌, ◌==◌, if◌then◌else◌, get_or}
use bumper.Settings.{domain_main, dom_sub_1, dom_sub_2, dom_sub_3, default_country}
use bumper.Text.{append, concat, lower}
use bumper.Value.{Value, bool, num, pos, str, obj, Fields, end, field, lookup_or, dict, Json, shown}
use bumper.Web.Response.{success_v2, success_v4}

-- The query of a request, by its names.
abbrev pub Query : Type 0
Query = String → Option String

abbrev sub_domain_1 : String
sub_domain_1 = append dom_sub_1 domain_main

abbrev sub_domain_2 : String
sub_domain_2 = append dom_sub_2 domain_main

abbrev sub_domain_3 : String
sub_domain_3 = append dom_sub_3 domain_main

abbrev at_domain : String → String → Value
at_domain name domain = str (append name domain)

-- `get_dc_code`
unfoldable pub get_dc_code : Fields → String → Value
get_dc_code area_codes area_code = lookup_or area_code (str "na") area_codes

abbrev services : Value → String → Fields
services dc_code area_code = dict (
    ("account", at_domain "users-base." sub_domain_1)
    ∷ ("adv", at_domain "adv-app." sub_domain_1)
    ∷ ("dc", dc_code)
    ∷ ("jmq", at_domain "jmq-ngiot-eu." sub_domain_2)
    ∷ ("lb", at_domain "lbo." domain_main)
    ∷ ("magw", at_domain "api-app." sub_domain_1)
    ∷ ("msgcloud", str (concat ("msg-eu." ∷ domain_main ∷ ":5223" ∷ [])))
    ∷ ("ngiot", at_domain "api-ngiot." sub_domain_1)
    ∷ ("ngiotLb", at_domain "jmq-ngiot-de." sub_domain_3)
    ∷ ("nlp", at_domain "iot-api-nlp." sub_domain_1)
    ∷ ("rop", at_domain "api-rop." sub_domain_1)
    ∷ ("bigdata", at_domain "bigdata-europe." domain_main)
    ∷ ("base", at_domain "api-base." sub_domain_1)
    ∷ ("eis", at_domain "eis-nlp." sub_domain_1)
    ∷ ("codepush", at_domain "codepush-base." sub_domain_1)
    ∷ (
      "setApConfig",
      obj (field "a" (str area_code) (field "r" (str domain_main) (field "v" (str "ww") end))),
    )
    ∷ [])

-- `_handle_service_list`
unfoldable pub service_list : Fields → Query → Value
unfolding get_dc_code
service_list area_codes q =
    let area_code = lower (get_or (q "area") default_country) in
    success_v2 (obj (services (get_dc_code area_codes area_code) area_code)) (some 0) "data" "ret"

-- A value of the query is a text, so the token that is read of a dictionary is always empty.
abbrev improve_url : Query → Value
improve_url q = str (
    concat (
      "https://adv-app."
      ∷ sub_domain_1
      ∷ "/pim/productImprovePlan_ww.html?initSync=false&did="
      ∷ get_or (q "did") ""
      ∷ "&mid="
      ∷ get_or (q "mid") ""
      ∷ "&uid="
      ∷ get_or (q "uid") ""
      ∷ "&lang="
      ∷ lower (get_or (q "lang") "")
      ∷ "&a="
      ∷ get_or (q "a") ""
      ∷ "&c="
      ∷ get_or (q "c") ""
      ∷ "&v="
      ∷ get_or (q "v") ""
      ∷ "&p="
      ∷ get_or (q "p") ""
      ∷ "&id=628dcf819dbd613d9ebb4fe4&ver=11.16&showRemark="
      ∷ get_or (q "show_remark") ""
      ∷ "&remark=&token="
      ∷ []))

-- `_handle_improve`
unfoldable pub improve : Query → Value
improve q =
    success_v4
      (obj (
        field "show" (bool false) (
          field "content" (improve_url q)
            (field "remark" (str "") (field "updateLog" (str "") end)))))
      0 "data"

-- What `secrets` draws for a watch.
pub record Secrets : Type 0 where
  pub access_key : String
  pub secret_1 : String
  pub secret_2 : String
  pub session_token : String
  pub session : String

abbrev credentials : Secrets → Value
credentials s = obj (
    dict (
      ("AccessKeyId", str (append "ASIA" s.access_key))
      ∷ ("SecretAccessKey", str (concat ("wJalrXUtnFEMI/" ∷ s.secret_1 ∷ "/" ∷ s.secret_2 ∷ [])))
      ∷ ("SessionToken", str s.session_token)
      ∷ ("Expiration", str "9999-12-31T00:00:00.000Z")
      ∷ ("TtlSec", num (pos 3600))
      ∷ []))

module _ (json : Json) (now_millis : ℕ) where
  abbrev watch : Secrets → String → Fields → Value
  watch s did auth = obj (
      dict (
        ("ret", str "ok")
        ∷ ("region", str "eu-central-1")
        ∷ ("channel", str (append "production-" did))
        ∷ (
          "client_id",
          str (
              concat (
                shown json (lookup_or "userid" (str "") auth)
                ∷ "-"
                ∷ shown json (lookup_or "resource" (str "") auth)
                ∷ [])),
        )
        ∷ ("credentials", credentials s)
        ∷ ("session", str (append "de/" s.session))
        ∷ ("ts", num (pos now_millis))
        ∷ []))

  abbrev watch_by : Secrets → String → Option Value → Option Value
  watch_by s did (some (obj auth)) = some (watch s did auth)
  watch_by s did auth = none

  abbrev auth_of : Option String → Option Value
  auth_of none = some (obj end)
  auth_of (some text) = json.loads text

  -- `_handle_akvs_start_watch`: none is the internal server error, at an `auth` that is no
  -- dictionary. The key that is drawn is in upper case already.
  unfoldable pub akvs_start_watch : Secrets → Query → Option Value
  akvs_start_watch s q = watch_by s (get_or (q "did") "") (auth_of (q "auth"))

-- `updateCheck.json` and `updateCheck_mapping.json`.
pub record Updates : Type 0 where
  pub checks : Fields
  pub mapping : Fields

abbrev named_key : Updates → Option String → Value
named_key u none = str ""
named_key u (some name) = if name == "" then str "" else lookup_or name (str "") u.mapping

abbrev deployment_key : Updates → Query → Value
deployment_key u q =
    let key = get_or (q "deployment_key") "" in
    if key == "" then named_key u (q "package_name") else str key

abbrev no_update : Query → Value → Value
no_update q key = obj (
    dict (
      ("download_url", str "")
      ∷ ("description", str "")
      ∷ ("is_available", bool false)
      ∷ ("is_disabled", bool true)
      ∷ ("target_binary_range", str (get_or (q "app_version") "1.0.0"))
      ∷ ("label", str (get_or (q "label") ""))
      ∷ ("package_hash", str (get_or (q "package_hash") ""))
      ∷ ("package_size", num (pos 0))
      ∷ ("should_run_binary_version", bool false)
      ∷ ("update_app_version", bool false)
      ∷ ("is_mandatory", bool false)
      ∷ ("deployment_key", key)
      ∷ ("deployment_name", str (get_or (q "deployment_name") "Production"))
      ∷ ("publish_time", num (pos 0))
      ∷ []))

-- The keys of the file are texts.
abbrev check_of : Updates → Query → Value → Value
check_of u q (str key) =
    lookup_or key (obj (field "update_info" (no_update q (str key)) end)) u.checks
check_of u q key = obj (field "update_info" (no_update q key) end)

-- `get_codepush_update_check_data`
unfoldable pub get_codepush_update_check_data : Updates → Query → Value
get_codepush_update_check_data u q = check_of u q (deployment_key u q)
