-- ===== src/Web/Devices/QrCode.antt =====
-- The scan of a robot's code, `DecodeQrCode` of `_handle_app_do` in
-- `bumper/web/plugins/api/appsvr.py`. The robot that it finds is an entry of the shared configuration
-- groups: what it changes of it stays changed.
pub mod Renaming
pub mod Laws
use bumper.Base.{
  String, Bool, true, false, Option, none, some, List, [], ◌∷◌, ◌==◌, if◌then◌else◌, Exec, pure,
  raise, gets, modify, or_raise, ◌>>=◌, ◌>>◌,
}
use bumper.Text.{concat}
use bumper.Settings.{dom_sub_1}
use bumper.Value.{
  Value, null, str, obj, arr, cons, nil, Fields, end, field, lookup, value_eq, truthy,
}
use bumper.Web.Devices.{
  Static, put, pop, get, first_robot, get_robot, is_robot, get_product_category, product_of,
}

-- The renaming of a robot's entries for the application, from its end to its start.
unfoldable pub drop_rest : Exec Fields (Unit {0})
unfolding pop
drop_rest = do
  pop "groupId"
  pop "service"
  pop "products"
  pop "smartTypes"
  pop "icon"
  pop "sort"
  pure tt

unfoldable pub rename : Exec Fields (Unit {0})
unfolding put pop drop_rest
rename = do name ← pop "groupName"; put "name" name; drop_rest

unfoldable pub rewrite_robot : Value → Exec Fields (Unit {0})
unfolding put pop rename
rewrite_robot mid = do put "mid" mid; steps ← pop "cusSteps"; put "customSteps" steps; rename

abbrev pub changed : Option (Unit {0}) → Fields → Option Fields
changed none robot = none
changed (some u) robot = some robot

-- The first robot that fits, changed in its place: what came of it, and the robots then.
unfoldable pub change_first :
    Exec Fields (Unit {0}) → String → Value → List Fields → Option (Option Fields) × List Fields
change_first m key value [] = (none, [])
change_first m key value (robot ∷ robots) =
    let (found, rest) = change_first m key value robots in
    let (r, robot') = m robot in
    if value_eq (get key robot) value
    then (some (changed r robot'), robot' ∷ robots)
    else (found, robot ∷ rest)

-- The pages that help with the configuration.
abbrev help_page : String → String → Value
help_page name lang = str (
    concat (
      "https://api-app." ∷ dom_sub_1 ∷ "ecouser.net/api/pim/" ∷ name ∷ "?lang=en&defaultLang="
      ∷ lang ∷ []))

abbrev pub scanned : Value → Value → Value → Value
scanned sn product_category robot = obj (
    field "supportApp" (str "global") (
      field "belongApp" (arr (cons (str "ecoglobal") (cons (str "yeedi") nil))) (
        field "supportRegion" (str "International") (
          field "qrType" (str "config") (
            field "productCategory" product_category (
              field "code_sn" sn (
                field "configGuide" robot (
                  field "configFAQ"
                    (obj (
                      field "wifiFAQUrl" (help_page "faqproblem.html" "iotclient_lang_english") (
                        field "notFoundAPUrl" (help_page "findDbWifi.html" "iotclient_lang_english")
                          (field "configFailedUrl"
                            (help_page "configfail.html" "iotclient_lang_english") end))))
                    end))))))))

-- `botprod.get("product", {}).get("name")`: none is the `AttributeError` of what is no dictionary.
abbrev pub product_name : Fields → Option Value
product_name botprod = elim (lookup "product" botprod) [
  | none ↦ some null
  | some v ↦ elim v [ obj product ↦ some (get "name" product) | _ ↦ none ]
]

abbrev pub with_robot :
    Value → Value → Option (Option Fields) × List Fields → Option Value × List Fields
with_robot sn category (none, robots) = (some (scanned sn category null), robots)
with_robot sn category (some none, robots) = (none, robots)
with_robot sn category (some (some robot), robots) =
    (some (scanned sn category (obj robot)), robots)

-- A robot without entries is answered as it is.
abbrev pub guided : Value → Value → Value → Value → Option Fields → Exec (List Fields) Value
guided sn mid name category none robots = (some (scanned sn category null), robots)
guided sn mid name category (some robot) robots =
    if is_robot (some robot)
    then with_robot sn category (change_first (rewrite_robot mid) "groupName" name robots)
    else (some (scanned sn category (obj robot)), robots)

abbrev pub decode_product : Value → Value → Fields → Exec (List Fields) Value
decode_product sn mid botprod = do
  name ← or_raise (product_name botprod)
  robot ← gets (get_robot "groupName" name)
  category ← or_raise (get_product_category name robot)
  guided sn mid name category robot

-- The branch, at the two values of the code's query and the product of its class.
unfoldable pub decode_qr_code : List Fields → Value → Value → Exec (List Fields) Value
unfolding product_of get_robot get_product_category change_first rewrite_robot
decode_qr_code products sn mid = do
  found ← or_raise (product_of mid products)
  elim found [ none ↦ pure (scanned sn null null) | some botprod ↦ decode_product sn mid botprod ]
