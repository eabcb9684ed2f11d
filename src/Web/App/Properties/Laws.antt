-- ===== src/Web/App/Properties/Laws.antt =====
-- The rows that a query of properties is answered with.
use bumper.Base.{
  ℕ, ◌+◌, String, ◌≡◌, refl, Option, none, some, List, [], ◌∷◌, Bool-cases, inl, inr, Exec,
  continue, ◌==◌, if◌then◌else◌, pure, ◌>>=◌,
}
use bumper.Text.{append, drop_chars, starts_with, starts_with_fold}
use bumper.Value.{
  Value, null, bool, num, str, obj, arr, Items, nil, cons, end, field, lookup, lookup_or, truthy,
  value_eq, Json,
}
use bumper.Db.Tiny.{TinyDb}
use bumper.Mqtt.Command.{Command, new_command, from_version_p2p, p2p_name, translate_act}
use bumper.Mqtt.Helper.{CommandCache, Bot, send_command_plain}
use bumper.Web.App.Properties.{
  PropRequest, query_of, data_in, prop_row, row_from, row_of, prepend, command_of, ask_all,
}

-- `on` is asked for as `get`.
abbrev asked : String → String
asked prop = if starts_with "on" prop then append "get" (drop_chars 2 prop) else prop

abbrev small_get : String → String
small_get name = if starts_with_fold "get" name then append "g" (drop_chars 1 name) else name

abbrev robot_name : String → String
robot_name name = if small_get name == "getBatteryInfo" then "getBattery" else small_get name

abbrev text : Option String → Value
text none = null
text (some s) = str s

-- What an answer tells: none where its body is no dictionary, and else the data of the body, where
-- there are some.
abbrev data_of : Value → Option (Option Value)
data_of (obj body) =
    let value = lookup_or "data" null body in some (if truthy value then some value else none)
data_of v = none

abbrev value_of : Value → Option (Option Value)
value_of (obj answer) = data_of (lookup_or "body" (obj end) answer)
value_of v = some none

module _ ⦃db : TinyDb⦄ ⦃cache : CommandCache⦄ (json : Json) (r : PropRequest) where
  -- The command that a property is asked for with, as it stands at the helper bot.
  abbrev property_command : String → ℕ → Command
  property_command prop n = record {
    request_id = r.request_id n;
    version = "p2p";
    payload_type = str "j";
    payload =
        json.dumps (
          obj
            (field "body" (obj (field "data" (obj (field "td" (str (asked prop)) end)) end)) end));
    cmd_name = str (robot_name (asked prop));
    cmd_name_orig = str (asked prop);
    did = text r.did;
    to_type = text r.mid;
    to_res = text r.res;
    td = null;
  }

  -- Each property with the answer to its own command, one after the other over one helper bot.
  unfoldable pub answers_of : ℕ → List String → Option Bot → List (String × Value)
  answers_of n props none = []
  answers_of n [] (some b) = []
  answers_of n (prop ∷ props) (some b) =
      let (v, b') = send_command_plain json (r.messages n) (property_command prop n) b in
      (prop, v) ∷ answers_of (n + 1) props (some b')

  abbrev told : String → Option (Option Value) → Option Items → Option Items
  told prop none rows = none
  told prop (some none) rows = rows
  told prop (some (some value)) none = none
  told prop (some (some value)) (some rows) = some (
      cons
        (obj (
          field "key" (str prop) (
            field "value" (str (r.compact (obj (field "body" (obj (field "data" value end)) end))))
              (field "ts" (str (r.iso_z r.now_millis)) end))))
        rows)

  -- One row for each answer that tells a value, under its property.
  unfoldable pub rows_for : List (String × Value) → Option Items
  rows_for [] = some nil
  rows_for ((prop, v) ∷ answers) = told prop (value_of v) (rows_for answers)

  command_of-property_command :
      (prop : String) (n : ℕ) → command_of json r prop n ≡ some (property_command prop n)
  unfolding query_of new_command from_version_p2p p2p_name lookup lookup_or truthy value_eq
      translate_act
  command_of-property_command prop n = elim (Bool-cases (robot_name (asked prop) == "clean")) [
    | inl e ↦ rw e refl
    | inr e ↦ rw e refl
  ]

  abbrev with_row : Items → Option Items × Option Bot → Option Items × Option Bot
  with_row row (o, s) = continue (λ rows. pure (prepend json r row rows)) o s

  with_row-nil : (o : Option Items) (s : Option Bot) → (with_row nil (o, s)).0 ≡ o
  with_row-nil none s = refl
  with_row-nil (some rows) s = refl

  with_row-value :
      (prop : String) (value : Value) (o : Option Items) (s : Option Bot)
      → (with_row (cons (prop_row json r prop value) nil) (o, s)).0
        ≡ told prop (some (some value)) o
  with_row-value prop value none s = refl
  with_row-value prop value (some rows) s = refl

  abbrev after : Option Items → Exec (Option Bot) Items → Option Bot → Option Items
  after row rest s = (continue (λ x. rest >>= λ rows. pure (prepend json r x rows)) row s).0

  after-body :
      (prop : String) (body : Value) (rest : Exec (Option Bot) Items) (s : Option Bot)
      → after (row_from json r prop (data_in body)) rest s ≡ told prop (data_of body) (rest s).0
  after-body prop null rest s = refl
  after-body prop (bool b) rest s = refl
  after-body prop (num n) rest s = refl
  after-body prop (str t) rest s = refl
  after-body prop (arr xs) rest s = refl
  after-body prop (obj body) rest s = elim (Bool-cases (truthy (lookup_or "data" null body))) [
    | inl e ↦ rw e (with_row-value prop (lookup_or "data" null body) (rest s).0 (rest s).1)
    | inr e ↦ rw e (with_row-nil (rest s).0 (rest s).1)
  ]

  after-answer :
      (prop : String) (v : Value) (rest : Exec (Option Bot) Items) (s : Option Bot)
      → after (row_of json r prop v) rest s ≡ told prop (value_of v) (rest s).0
  after-answer prop null rest s = with_row-nil (rest s).0 (rest s).1
  after-answer prop (bool b) rest s = with_row-nil (rest s).0 (rest s).1
  after-answer prop (num n) rest s = with_row-nil (rest s).0 (rest s).1
  after-answer prop (str t) rest s = with_row-nil (rest s).0 (rest s).1
  after-answer prop (arr xs) rest s = with_row-nil (rest s).0 (rest s).1
  after-answer prop (obj answer) rest s = after-body prop (lookup_or "body" (obj end) answer) rest s

  -- A query of properties is answered with exactly one row for each property whose own command was
  -- answered with data, under its name and with these data, in the order of the query; each is asked
  -- for by the command that its name says. The query raises where an answer's body is no dictionary,
  -- and has no rows without a helper bot.
  pub ask_all-rows :
      (props : List String) (n : ℕ) (helper : Option Bot)
      → (ask_all json r n props helper).0 ≡ rows_for (answers_of n props helper)
  unfolding ask_all answers_of rows_for
  ask_all-rows [] n none = refl
  ask_all-rows [] n (some b) = refl
  ask_all-rows (prop ∷ props) n none = refl
  ask_all-rows (prop ∷ props) n (some b) =
      let (v, b') = send_command_plain json (r.messages n) (property_command prop n) b in
      rw (command_of-property_command prop n) (
        rw (← ask_all-rows props (n + 1) (some b'))
          (after-answer prop v (ask_all json r (n + 1) props) (some b')))
