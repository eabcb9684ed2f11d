-- ===== src/Models/CleanLog.antt =====
-- The records of cleanings, `CleanLog` of `bumper/web/utils/models.py`. `CleanLogs` only holds its
-- two arguments and is not used.
pub mod Laws
use bumper.Base.{String, Option, none, some, get_or, List, [], ◌∷◌}
use bumper.Text.{concat}
use bumper.Value.{
  ℤ, pos, negsuc, Value, null, num, str, arr, nil, Fields, end, field, lookup, lookup_or,
}
use bumper.Numbers.{to_int}

pub record CleanLog : Type 0 where
  pub clean_log_id : Value
  pub did : Value
  pub cid : Value
  pub aiavoid : Value
  pub aitypes : Value
  pub area : Value
  pub image_url : Value
  pub stop_reason : Value
  pub last : Value
  pub ts : Value
  pub type : Value
  pub avoid_count : Value
  pub enable_power_mop : Value
  pub power_mop_type : Value
  pub ai_open : Value

-- `to_db`: the attributes in the order in which `from_dict` and `from_db` set them.
unfoldable pub log_to_db : CleanLog → Fields
log_to_db l = field "clean_log_id" l.clean_log_id (
    field "did" l.did (
      field "cid" l.cid (
        field "aiavoid" l.aiavoid (
          field "aitypes" l.aitypes (
            field "area" l.area (
              field "image_url" l.image_url (
                field "stop_reason" l.stop_reason (
                  field "last" l.last (
                    field "ts" l.ts (
                      field "type" l.type (
                        field "avoid_count" l.avoid_count (
                          field "enable_power_mop" l.enable_power_mop (
                            field "power_mop_type" l.power_mop_type
                              (field "ai_open" l.ai_open end))))))))))))))

-- `to_int(v)`, which is `None` or a number.
abbrev pub int_value : Option ℤ → Value
int_value none = null
int_value (some n) = num n

unfoldable pub as_int : Value → Value
as_int v = int_value (to_int v)

-- `to_int(v) or 0`
abbrev pub int_or_zero : Option ℤ → Value
int_or_zero none = num (pos 0)
int_or_zero (some n) = num n

unfoldable pub as_int_or_zero : Value → Value
as_int_or_zero v = int_or_zero (to_int v)

-- `d.get(key)`, which is `None` for a missing key.
abbrev pub get : String → Fields → Value
get k d = lookup_or k null d

abbrev pub read_log : Fields → Value → CleanLog
read_log d clean_log_id = record {
  clean_log_id = clean_log_id;
  did = get "did" d;
  cid = get "cid" d;
  aiavoid = as_int_or_zero (get "aiavoid" d);
  aitypes = lookup_or "aitypes" (arr nil) d;
  area = as_int (get "area" d);
  image_url = get "image_url" d;
  stop_reason = as_int (get "stop_reason" d);
  last = as_int (get "last" d);
  ts = as_int (get "ts" d);
  type = get "type" d;
  avoid_count = as_int (get "avoid_count" d);
  enable_power_mop = as_int (get "enable_power_mop" d);
  power_mop_type = as_int (get "power_mop_type" d);
  ai_open = as_int (get "ai_open" d);
}

abbrev pub read_found : Fields → Option Value → Option CleanLog
read_found d none = none
read_found d (some clean_log_id) = some (read_log d clean_log_id)

-- `from_db`: none is the `KeyError` without an identifier.
unfoldable pub log_from_db : Fields → Option CleanLog
log_from_db d = read_found d (lookup "clean_log_id" d)

-- `from_dict`; the first argument writes a value into an f-string.
unfoldable pub log_from_dict : (Value → String) → String → String → Fields → CleanLog
log_from_dict shown did rid d = record {
  clean_log_id = str (concat (did ∷ "@" ∷ shown (get "start" d) ∷ "@" ∷ rid ∷ []));
  did = str did;
  cid = get "cid" d;
  aiavoid = lookup_or "aiavoid" (num (pos 0)) d;
  aitypes = lookup_or "aitypes" (arr nil) d;
  area = get "area" d;
  image_url = get "imageUrl" d;
  stop_reason = get "stopReason" d;
  last = get "time" d;
  ts = get "start" d;
  type = get "type" d;
  avoid_count = get "avoidCount" d;
  enable_power_mop = get "enablePowerMop" d;
  power_mop_type = get "powerMopType" d;
  ai_open = get "aiopen" d;
}

-- `v if v is not None else default`
abbrev or_value : Value → Value → Value
or_value null w = w
or_value v w = v

unfoldable pub log_as_dict : CleanLog → Fields
log_as_dict l = field "id" l.clean_log_id (
    field "aiavoid" l.aiavoid (
      field "aitypes" l.aitypes (
        field "area" l.area (
          field "imageUrl" (or_value l.image_url (str "")) (
            field "stopReason" (or_value l.stop_reason (num (negsuc 1))) (
              field "last" l.last (
                field "ts" l.ts (
                  field "type" l.type (
                    field "avoidCount" l.avoid_count (
                      field "enablePowerMop" l.enable_power_mop (
                        field "powerMopType" l.power_mop_type
                          (field "aiopen" l.ai_open end))))))))))))
