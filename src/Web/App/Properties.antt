-- ===== src/Web/App/Properties.antt =====
-- The properties of a device that an application asks for, `_handle_device_prop_list` of
-- `bumper/web/plugins/api/appsvr.py`: one command after the other over the helper bot. The
-- identifiers that are drawn and the messages that come while a command waits are given by the
-- place of the property in the query.
pub mod Laws
use bumper.Base.{
  ℕ, ◌+◌, String, Bool, true, false, Option, none, some, List, [], ◌∷◌, ◌++◌, if◌then◌else◌, get_or,
  Exec, pure, raise, gets, or_raise, ◌>>=◌,
}
use bumper.Text.{append, split, starts_with, drop_chars}
use bumper.Value.{
  Value, null, num, pos, str, obj, arr, Items, nil, cons, Fields, end, field, lookup_or, truthy,
  Json,
}
use bumper.Db.Tiny.{TinyDb}
use bumper.Mqtt.Command.{Command, new_command, version_p2p}
use bumper.Mqtt.Helper.{CommandCache, Bot, send_command_plain}
use bumper.Web.Response.{success_v3_data}

-- The compact `json.dumps` and `get_millis_to_iso_z` are given.
pub record PropRequest : Type 0 where
  pub did : Option String
  pub res : Option String
  pub mid : Option String
  pub props : Option String
  pub now_millis : ℕ
  pub request_id : ℕ → String
  pub messages : ℕ → List (String × String)
  pub compact : Value → String
  pub iso_z : ℕ → String

abbrev text_or_null : Option String → Value
text_or_null none = null
text_or_null (some s) = str s

-- A report `onBattery` is asked for by the query `getBattery`.
unfoldable pub query_of : String → String
query_of prop = if starts_with "on" prop then append "get" (drop_chars 2 prop) else prop

-- `cmd_response.get("body", {}).get("data")`; none where the body is no dictionary.
abbrev data_in : Value → Option Value
data_in (obj body) = some (lookup_or "data" null body)
data_in v = none

module _ ⦃db : TinyDb⦄ ⦃cc : CommandCache⦄ (json : Json) (r : PropRequest) where
  abbrev command_fields : String → Fields
  command_fields query = field "cmd" (str query) (
      field "did" (text_or_null r.did) (
        field "mid" (text_or_null r.mid)
          (field "res" (text_or_null r.res) (field "data" (obj (field "td" (str query) end)) end))))

  abbrev pub prop_row : String → Value → Value
  prop_row prop value = obj (
      field "key" (str prop) (
        field "value" (str (r.compact (obj (field "body" (obj (field "data" value end)) end))))
          (field "ts" (str (r.iso_z r.now_millis)) end)))

  abbrev row_from : String → Option Value → Option Items
  row_from prop none = none
  row_from prop (some value) = some (if truthy value then cons (prop_row prop value) nil else nil)

  -- The row of an answer: an answer that is no dictionary, or has no data, has none.
  abbrev row_of : String → Value → Option Items
  row_of prop (obj d) = row_from prop (data_in (lookup_or "body" (obj end) d))
  row_of prop v = some nil

  abbrev ask_on : String → ℕ → Command → Bot → Exec (Option Bot) Items
  ask_on prop n cmd helper s =
      let (v, helper') = send_command_plain json (r.messages n) cmd helper in
      (row_of prop v, some helper')

  abbrev command_of : String → ℕ → Option Command
  command_of prop n = new_command json (r.request_id n) (command_fields (query_of prop)) version_p2p

  abbrev prepend : Items → Items → Items
  prepend nil rows = rows
  prepend (cons v vs) rows = cons v (prepend vs rows)

  abbrev ask_with : String → ℕ → Option Command → Bot → Exec (Option Bot) Items
  ask_with prop n none helper = raise
  ask_with prop n (some cmd) helper = ask_on prop n cmd helper

  abbrev then_rows : Exec (Option Bot) Items → Exec (Option Bot) Items → Exec (Option Bot) Items
  then_rows first rest = do row ← first; rows ← rest; pure (prepend row rows)

  -- Without a helper bot the loop ends.
  abbrev step : String → ℕ → Exec (Option Bot) Items → Exec (Option Bot) Items
  step prop n rest none = (some nil, none)
  step prop n rest (some helper) =
      then_rows (ask_with prop n (command_of prop n) helper) rest (some helper)

  unfoldable pub ask_all : ℕ → List String → Exec (Option Bot) Items
  unfolding query_of
  ask_all n [] = pure nil
  ask_all n (prop ∷ props) = step prop n (ask_all (n + 1) props)

  -- `_handle_device_prop_list`
  unfoldable pub device_prop_list : Exec (Option Bot) Value
  unfolding ask_all
  device_prop_list = do
    rows ← ask_all 0 (split "," (get_or r.props ""))
    pure (
        success_v3_data (
          obj (
            field "did" (text_or_null r.did)
              (field "ts" (num (pos r.now_millis)) (field "props" (arr rows) end)))))
