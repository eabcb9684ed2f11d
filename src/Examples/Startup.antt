-- ===== src/Examples/Startup.antt =====
-- The password file and the restart of the MQTT server at concrete inputs.
use bumper.Base.{String, List, ◌≡◌, refl, true, some, [], ◌∷◌, ◌++◌, ◌==◌, if◌then◌else◌}
use bumper.Mqtt.Passwords.{Users, read_lines, read_password_file}
use bumper.Mqtt.Passwords.Laws.{
  Writable, LinesOf, no_lines, a_line, read_lines-malformed, read_password_file-line,
}
use bumper.Mqtt.Server.{Broker, BrokerLaws, restart}
use bumper.Mqtt.Server.Laws.{Settling, Outcome, both_return, restart-started, starting}

abbrev users : Users
users = ("ann", "$5$x") ∷ ("bob", "") ∷ []

ann : Writable "ann" "$5$x"
unfolding bumper.Text.contains_char bumper.Mqtt.Passwords.strip_end
ann = record { starts = refl; name_colon = refl; hash_colon = refl; ends = refl }

bob : Writable "bob" ""
unfolding bumper.Text.contains_char bumper.Mqtt.Passwords.strip_end
bob = record { starts = refl; name_colon = refl; hash_colon = refl; ends = refl }

-- A line feed stands behind the first line, and nothing behind the last.
abbrev file_lines : List String
file_lines = "ann:$5$x\n" ∷ "bob:" ∷ []

file_lines-LinesOf : LinesOf file_lines users
unfolding bumper.Text.append bumper.Numbers.only_spaces
file_lines-LinesOf = a_line "ann" "$5$x" "\n" ann refl (a_line "bob" "" "" bob refl no_lines)

read_password_file-line_example : read_password_file (some "passwd") file_lines [] ≡ users
read_password_file-line_example =
    read_password_file-line "passwd" file_lines users refl file_lines-LinesOf (refl, (refl, tt))

read_lines-malformed_example :
    read_lines (" ann:$5$x " ∷ "# note" ∷ [] ++ "a:b:c" ∷ "bob:" ∷ []) []
    ≡ read_lines (" ann:$5$x " ∷ "# note" ∷ []) []
unfolding bumper.Mqtt.Passwords.parse_line bumper.Text.starts_with bumper.Text.split
read_lines-malformed_example =
    read_lines-malformed (" ann:$5$x " ∷ "# note" ∷ []) ("bob:" ∷ []) "a:b:c" [] refl

two_lines_read : read_lines (" ann:$5$x " ∷ "# note" ∷ "a:b:c" ∷ []) [] ≡ ("ann", "$5$x") ∷ []
unfolding read_lines bumper.Text.starts_with bumper.Text.split
two_lines_read = refl

-- A broker that is nothing but its state.
abbrev settled : String → String
settled st = if st == "starting" then "started" else if st == "stopping" then "stopped" else st

instance abbrev pub broker : Broker
broker = record {
  Node = String;
  state = λ st. st;
  start = λ st. (some tt, "started");
  shutdown = λ st. (some tt, "stopped");
  elapse = settled;
}

instance pub broker_laws : BrokerLaws broker
broker_laws = record { state-start = λ n h ok. refl; state-shutdown = λ n h ok. refl }

pub on_the_way : Settling "starting"
on_the_way = record { starting = λ h. refl; stopping = λ h. cc }

restart-started_example : Outcome (both_return "starting") (restart "starting")
restart-started_example = restart-started "starting" "starting" starting refl on_the_way

-- The calls of the broker that is on its way return.
returns : both_return "starting" ≡ true
returns = refl
