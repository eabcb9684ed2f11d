-- ===== src/Mqtt/Timezone.antt =====
-- The time zone of a robot that connects, `_set_bot_timezone` of `bumper/mqtt/server.py` and
-- `get_tzm_and_ts` of `bumper/utils/utils.py`. The offset of the zone is in seconds, none where a
-- moment has none; the clock is in seconds too.
pub mod Laws
use bumper.Base.{
  ℕ, zero, suc, ◌*◌, ◌/◌, String, Bool, true, false, Option, none, some, List, [], ◌∷◌,
  if◌then◌else◌,
}
use bumper.Settings.{Config}
use bumper.Numbers.{digits}
use bumper.Value.{ℤ, pos, negsuc, Value, num, str, obj, Fields, end, field, Json}
use bumper.Models.{VacBotDevice}
use bumper.Db.Tiny.{TinyDb}
use bumper.Db.Bots
use bumper.Mqtt.Command.{Command, new_command, version_old}
use bumper.Mqtt.Helper.{Bot, CommandCache, send_command_plain}

-- `int(seconds // 60)`, which rounds down.
abbrev pub minutes : ℤ → ℤ
minutes (pos n) = pos (n / 60)
minutes (negsuc n) = negsuc (n / 60)

-- An offset of no seconds is false as a duration is, and raises as none does.
unfoldable pub get_tzm_and_ts : Option ℤ → ℕ → Option (ℤ × ℕ)
get_tzm_and_ts none time = none
get_tzm_and_ts (some (pos zero)) time = none
get_tzm_and_ts (some offset) time = some (minutes offset, time)

abbrev header : ℤ → ℕ → Fields
header tzm time = field "pri" (num (pos 2)) (
    field "ts" (str (digits (time * 1000)))
      (field "tzm" (num tzm) (field "ver" (str "0.0.22") end)))

abbrev body : ℤ → ℕ → Fields
body tzm time =
    field "data"
      (obj (field "tzm" (num tzm) (field "bdTaskID" (str (digits (time * 1000000))) end))) end

abbrev pub set_time_zone : VacBotDevice → ℤ → ℕ → Fields
set_time_zone bot tzm time = field "cmdName" (str "setTimeZone") (
    field "toId" bot.did (
      field "toType" bot.class_id (
        field "toRes" bot.resource (
          field "payload"
            (obj (field "header" (obj (header tzm time)) (field "body" (obj (body tzm time)) end)))
            end))))

module _ ⦃db : TinyDb⦄ ⦃cc : CommandCache⦄ (json : Json) (ms : List (String × String)) where
  abbrev send : Option Command → Bot → Bot
  send none helper = helper
  send (some cmd) helper = (send_command_plain json ms cmd helper).1

  abbrev send_zone : String → VacBotDevice → Option (ℤ × ℕ) → Bot → Bot
  send_zone request_id bot none helper = helper
  send_zone request_id bot (some (tzm, time)) helper =
      send (new_command json request_id (set_time_zone bot tzm time) version_old) helper

  abbrev send_to : String → Option VacBotDevice → Option (ℤ × ℕ) → Bot → Bot
  send_to request_id none moment helper = helper
  send_to request_id (some bot) moment helper = send_zone request_id bot moment helper

  -- `_set_bot_timezone`, given the messages that come while it waits for the answer. Any exception
  -- is logged, that of a missing helper bot too.
  unfoldable pub set_bot_timezone :
      Config → String → Option ℤ → ℕ → String → db.Table → Option Bot → Option Bot
  unfolding get_tzm_and_ts
  set_bot_timezone cfg request_id offset time did bots none = none
  set_bot_timezone cfg request_id offset time did bots (some helper) =
      if cfg.sync_timezone
      then some (send_to request_id (Bots.get did bots) (get_tzm_and_ts offset time) helper)
      else some helper
