-- ===== src/Examples/Commands.antt =====
-- Commands, their answers and clean logs at concrete inputs.
use bumper.Base.{
  ◌⊎◌, ℕ, String, ◌≡◌, refl, ◌≢◌, true, false, Option, none, some, List, [], ◌∷◌, ◌==◌, ==_self,
  if◌then◌else◌, Bool-cases, inl, inr,
}
use bumper.Mqtt.Command.{new_command, Command, from_version_1, create_topic}
use bumper.Db.Repo.{get_record}
use bumper.Models.{bot_from_dict, new_bot, bot_as_dict}
use bumper.Value.{
  truthy, bool, null, num, pos, str, obj, Fields, end, field, Json, shown, lookup, lookup_or,
  value_eq,
}
use bumper.Db.Rows.{Rows, any_row}
use bumper.Web.Commands.{CommandRequest, handle_commands}
use bumper.Web.Commands.Laws.{Commanded, handle_commands-Commanded}
use bumper.Text.{split, contains_char, concat, append}
use bumper.Models.CleanLog.{CleanLog, log_from_db, log_to_db, log_from_dict, read_log}
use bumper.Models.CleanLog.Laws.{log_from_db-log_to_db}
use bumper.Db.CleanLogs.{add_or_update}
use bumper.Db.CleanLogs.Laws.{has_log, UniqueLogs, add_or_update-UniqueLogs}
use bumper.Mqtt.Command.Laws.{HasNoSlash, split-create_topic}
use bumper.Mqtt.Helper.{CommandCache, CommandCacheLaws, Bot, read_response, send_command_plain}
use bumper.Mqtt.Helper.Messages.{last_answer}
use bumper.Mqtt.Helper.Laws.{Placed, send_command_plain-answer}
use bumper.Examples.Memory.{memory, memory_laws}

abbrev pub json : Json
json = record {
  loads = λ s. some (obj (field "text" (str s) end));
  dumps = λ v. "{}";
  repr = λ v. "1";
}

instance abbrev pub commands : CommandCache
commands = record {
  Cache = String → Option ℕ;
  put = λ k n c j. if k == j then some n else c j;
  find = λ j c. c j;
  pop = λ k c j. if k == j then none else c j;
}

found_own :
    (k : String) (n : ℕ) (c : commands.Cache) → commands.find k (commands.put k n c) ≡ some n
found_own k n c = rw (==_self k)

found_other :
    (k j : String) (n m : ℕ) (c : commands.Cache)
    → (k == j) ≡ false
    → commands.find j (commands.put k n c) ≡ some m
    → commands.find j c ≡ some m
found_other k j n m c e found = rw e at found

none-ne-some : (m : ℕ) → ◌≢◌ {A = Option ℕ} none (some m)
none-ne-some m h = cc

found_before :
    (k j : String) (m : ℕ) (c : commands.Cache)
    → commands.find j (commands.pop k c) ≡ some m
    → commands.find j c ≡ some m
found_before k j m c found = elim (Bool-cases (k == j)) [
  | inl e ↦ absurd (none-ne-some m (rw e at found))
  | inr e ↦ rw e at found
]

pub commands_laws : CommandCacheLaws commands
commands_laws = record {
  find-put = found_own;
  find-put_other = found_other;
  find-pop = found_before;
}

abbrev request : Fields
request =
    field "cmdName" (str "clean_V2")
      (field "toId" (str "d1") (field "toType" (str "c") (field "toRes" (str "r") end)))

abbrev command : Command
command = record {
  request_id = "abcd";
  version = "1";
  payload_type = str "j";
  payload = "{}";
  cmd_name = str "clean";
  cmd_name_orig = null;
  did = str "d1";
  to_type = str "c";
  to_res = str "r";
  td = null;
}

command_read : from_version_1 json "abcd" request ≡ command
unfolding from_version_1 lookup_or value_eq lookup
command_read = refl

slashless : HasNoSlash json command
unfolding contains_char
slashless = record {
  name = refl;
  did = refl;
  to_type = refl;
  to_res = refl;
  request_id = refl;
  payload_type = refl;
}

split-create_topic_example :
    split "/" (create_topic json command)
    ≡ "iot" ∷ "p2p" ∷ "clean" ∷ "helperbot" ∷ "bumper" ∷ "helperbot" ∷ "d1" ∷ "c" ∷ "r" ∷ "q"
      ∷ "abcd" ∷ "j" ∷ []
split-create_topic_example = split-create_topic json command slashless

abbrev pub helper : Bot
helper = record {
  client = true;
  is_connected = true;
  started = true;
  commands = λ j. none;
  dtos = λ n. record { payload_type = null; response = none };
  place = 0;
  published = [];
  logs = [];
}

abbrev messages : List (String × String)
messages =
    ("iot/p2p/clean/d1/c/r/helperbot/bumper/helperbot/p/zzzz/j", "other")
    ∷ ("iot/p2p/clean/d1/c/r/helperbot/bumper/helperbot/p/abcd/j", "mine")
    ∷ []

helper-Placed : Placed helper
helper-Placed j m found = absurd (none-ne-some m found)

send_command_plain-answer_example :
    (send_command_plain json messages command helper).0
    ≡ read_response json
        (record { payload_type = str "j"; response = last_answer "abcd" messages none })
send_command_plain-answer_example =
    send_command_plain-answer json commands_laws messages command helper refl helper-Placed

-- The answer of another request is passed over.
own_answer : last_answer "abcd" messages none ≡ some "mine"
unfolding last_answer split
own_answer = refl

abbrev report : Fields
report = field "cid" (str "7") (field "start" (num (pos 5)) (field "type" (str "auto") end))

abbrev log : CleanLog
log = log_from_dict (shown json) "d1" "r" report

log_identifier : log.clean_log_id ≡ str "d1@1@r"
unfolding log_from_dict lookup_or lookup concat append
log_identifier = refl

log_type : log.type ≡ str "auto"
unfolding log_from_dict lookup_or lookup
log_type = refl

no_logs : UniqueLogs (memory.all [])
no_logs i type = tt

add_or_update-UniqueLogs_example :
    UniqueLogs (add_or_update log [])
    × (any_row (has_log "d1@1@r" "auto") (add_or_update log []) ≡ true)
add_or_update-UniqueLogs_example =
    add_or_update-UniqueLogs "d1@1@r" "auto" log [] log_identifier log_type no_logs

abbrev stored : Fields
stored = field "clean_log_id" (str "x") (field "area" (str "12") end)

stored_read : log_from_db stored ≡ some (read_log stored (str "x"))
unfolding log_from_db lookup
stored_read = refl

log_from_db-log_to_db_example :
    log_from_db (log_to_db (read_log stored (str "x"))) ≡ some (read_log stored (str "x"))
log_from_db-log_to_db_example = log_from_db-log_to_db stored (read_log stored (str "x")) stored_read

-- A command to a bot that nobody knows.
abbrev command_request : CommandRequest
command_request = record { query = end; body = "{}"; request_id = "abcd" }

handle_commands-Commanded_example :
    (let b' : Bot = (handle_commands json messages "1" true command_request [] helper).1 in
      (b'.published ≡ helper.published)
      ⊎ Commanded json commands_laws "1" true command_request [] helper b')
handle_commands-Commanded_example =
    handle_commands-Commanded json commands_laws messages "1" true command_request [] helper

abbrev known_bots : Rows
known_bots =
    record {
      doc_id = 1;
      fields = bot_as_dict (record (new_bot "d1" "n" "r" "eco-ng") { mqtt_connection = bool true });
    }
    ∷ []

abbrev to_known : Json
to_known = record json { loads = λ s. some (obj request) }

-- A command to a bot that is known and connected is published.
published_once :
    (handle_commands to_known [] "1" true command_request known_bots helper).1.published
    ≡ (create_topic to_known command, command.payload) ∷ []
unfolding handle_commands new_command lookup_or lookup get_record bot_as_dict value_eq bot_from_dict
    truthy send_command_plain
published_once = refl
