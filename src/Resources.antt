-- ===== src/Resources.antt =====
-- The JSON files of the repository and how they are read, the file readers of
-- `bumper/utils/utils.py` and the cached readers of `bumper/web/static_api/__init__.py`; also
-- `str_to_bool`. The content of a file is none where reading it raises; the search of a regular
-- expression is given, none where the expression is malformed.
use bumper.Base.{String, Bool, true, false, Option, none, some, List, [], ◌∷◌, get_or, contains}
use bumper.Text.{lower}
use bumper.Value.{Value, str, obj, arr, Items, nil, cons, Fields, end, Json, shown}

unfoldable pub extend : Items → Items → Items
extend nil ys = ys
extend (cons x xs) ys = cons x (extend xs ys)

-- `str_to_bool`
unfoldable pub str_to_bool : Json → Value → Bool
str_to_bool json v = contains ("true" ∷ "1" ∷ "t" ∷ "y" ∷ "on" ∷ "yes" ∷ []) (lower (shown json v))

module _ (json : Json) (read : String → Option String) where
  abbrev parsed : Option String → Option Value
  parsed none = none
  parsed (some content) = json.loads content

  abbrev array_of : Option Value → Option Items
  array_of (some (arr xs)) = some xs
  array_of v = none

  abbrev object_of : Option Value → Option Fields
  object_of (some (obj d)) = some d
  object_of v = none

  abbrev combined : Option Items → Option Items → Option Items
  combined (some xs) (some ys) = some (extend xs ys)
  combined xs ys = none

  -- `load_json_array_files`: none where any of the files is missing, malformed or no array.
  unfoldable pub load_json_array_files : List String → Option Items
  unfolding extend
  load_json_array_files [] = some nil
  load_json_array_files (f ∷ fs) = combined (array_of (parsed (read f))) (load_json_array_files fs)

  -- `load_json_object_files`
  unfoldable pub load_json_object_files : String → Option Fields
  load_json_object_files f = object_of (parsed (read f))

  -- `load_text_files`
  unfoldable pub load_text_files : String → Option String
  load_text_files f = read f

  -- `get_area_code_map`: no exception leaves it.
  unfoldable pub get_area_code_map : Fields
  get_area_code_map = get_or (object_of (parsed (read "utils_area_code_mapping.json"))) end

  module _ (search : String → String → Option Bool) where
    abbrev or_later : Option Bool → Option Bool → Option Bool
    or_later none later = none
    or_later (some true) later = some true
    or_later (some false) later = later

    abbrev search_in : Value → String → Option Bool
    search_in (str pattern) url = search pattern url
    search_in v url = none

    -- `any(re.search(pattern, url) for pattern in patterns)`
    unfoldable pub any_pattern : Items → String → Option Bool
    any_pattern nil url = some false
    any_pattern (cons p ps) url = or_later (search_in p url) (any_pattern ps url)

    abbrev found : Option Items → String → Option Bool
    found none url = some false
    found (some patterns) url = any_pattern patterns url

    -- `check_url_not_used`, which is true where the address is one that is known.
    unfoldable pub check_url_not_used : String → Bool
    unfolding any_pattern
    check_url_not_used url =
        get_or (found (array_of (parsed (read "utils_implemented_apis.json"))) url) false

  -- The names of the files that are combined.
  abbrev config_groups : List String
  config_groups = "configGroupsResponse.json" ∷ "configGroupsResponseUnofficial.json" ∷ []

  abbrev product_maps : List String
  product_maps = "productIotMap.json" ∷ "productIotMapUnofficial.json" ∷ []

  abbrev config_net : List String
  config_net = "configNetAllResponse.json" ∷ "configNetAllResponseUnofficial.json" ∷ []

  unfoldable pub get_config_groups_response : Option Items
  unfolding load_json_array_files
  get_config_groups_response = load_json_array_files config_groups

  unfoldable pub get_product_iot_map : Option Items
  unfolding load_json_array_files
  get_product_iot_map = load_json_array_files product_maps

  unfoldable pub get_config_net_all_response : Option Items
  unfolding load_json_array_files
  get_config_net_all_response = load_json_array_files config_net

  unfoldable pub get_product_config_batch : Option Items
  unfolding load_json_array_files
  get_product_config_batch = load_json_array_files ("productConfigBatch.json" ∷ [])

  unfoldable pub get_code_push_config : Option Items
  unfolding load_json_array_files
  get_code_push_config = load_json_array_files ("codePushConfig.json" ∷ [])

  unfoldable pub get_err_detail : Option Items
  unfolding load_json_array_files
  get_err_detail = load_json_array_files ("errDetail.json" ∷ [])

  unfoldable pub get_product_entry_group : Option Fields
  unfolding load_json_object_files
  get_product_entry_group = load_json_object_files "productEntryGroup.json"

  unfoldable pub get_common_area : Option Fields
  unfolding load_json_object_files
  get_common_area = load_json_object_files "commonArea.json"

  unfoldable pub get_codepush_update_check : Option Fields
  unfolding load_json_object_files
  get_codepush_update_check = load_json_object_files "updateCheck.json"

  unfoldable pub get_codepush_update_check_mapping : Option Fields
  unfolding load_json_object_files
  get_codepush_update_check_mapping = load_json_object_files "updateCheck_mapping.json"
