-- ===== src/Mqtt/Timezone/Laws.antt =====
-- What a robot is told of its time zone.
use mathlib.Core.List.{append-nil}
use bumper.Base.{
  Bool-cases, inl, inr, ℕ, zero, suc, String, ◌≡◌, refl, Bool, true, false, ◌/◌, ◌*◌, sym, ◌&&◌,
  Option, none, some, List, [], ◌∷◌, ◌++◌, if◌then◌else◌,
}
use bumper.Settings.{Config}
use bumper.Text.{concat}
use bumper.Numbers.{digits}
use bumper.Value.{
  ℤ, pos, negsuc, num, str, obj, end, field, Json, shown, lookup, lookup_or, value_eq,
}
use bumper.Models.{VacBotDevice}
use bumper.Db.Tiny.{TinyDb}
use bumper.Db.Bots
use bumper.Mqtt.Command.{Command, new_command, create_topic, from_version_1}
use bumper.Mqtt.Helper.{Bot, CommandCache, CommandCacheLaws}
use bumper.Mqtt.Helper.Laws.{published-send_command_plain}
use bumper.Mqtt.Timezone.{set_time_zone, send_zone, send_to, get_tzm_and_ts, set_bot_timezone}

-- The zone is told where it has an offset that is not zero.
unfoldable pub told : Option ℤ → Bool
told none = false
told (some (pos zero)) = false
told (some offset) = true

-- The whole minutes of an offset in seconds, rounded down.
unfoldable pub whole_minutes : Option ℤ → ℤ
whole_minutes none = pos 0
whole_minutes (some (pos n)) = pos (n / 60)
whole_minutes (some (negsuc n)) = negsuc (n / 60)

module _ (json : Json) where
  -- `iot/p2p/setTimeZone/helperbot/bumper/helperbot/<did>/<class>/<resource>/q/<request>/j`
  abbrev zone_topic : String → VacBotDevice → String
  zone_topic request_id bot = concat (
      "iot/p2p/"
      ∷ "setTimeZone"
      ∷ "/"
      ∷ "helperbot/bumper/helperbot"
      ∷ "/"
      ∷ shown json bot.did
      ∷ "/"
      ∷ shown json bot.class_id
      ∷ "/"
      ∷ shown json bot.resource
      ∷ "/q/"
      ∷ request_id
      ∷ "/"
      ∷ "j"
      ∷ [])

  -- The offset in minutes stands in the header and in the body, the time in milliseconds in the
  -- one and in microseconds in the other.
  abbrev zone_payload : ℤ → ℕ → String
  zone_payload tzm time = json.dumps (
      obj (
        field "header"
          (obj (
            field "pri" (num (pos 2)) (
              field "ts" (str (digits (time * 1000)))
                (field "tzm" (num tzm) (field "ver" (str "0.0.22") end)))))
          (field "body"
            (obj (
              field "data"
                (obj (field "tzm" (num tzm) (field "bdTaskID" (str (digits (time * 1000000))) end)))
                end))
            end)))

  unfoldable pub zone_messages : String → Option VacBotDevice → ℤ → ℕ → List (String × String)
  zone_messages request_id none tzm time = []
  zone_messages request_id (some bot) tzm time =
      (zone_topic request_id bot, zone_payload tzm time) ∷ []

  -- The command that is made, for the proofs.
  abbrev zone_command : String → VacBotDevice → ℤ → ℕ → Command
  zone_command request_id bot tzm time = from_version_1 json request_id (set_time_zone bot tzm time)

  zone_message :
      (request_id : String) (bot : VacBotDevice) (tzm : ℤ) (time : ℕ)
      → (let cmd = zone_command request_id bot tzm time in
          (create_topic json cmd, cmd.payload) ∷ [])
        ≡ zone_messages request_id (some bot) tzm time
  unfolding zone_messages create_topic from_version_1 lookup_or lookup value_eq
  zone_message request_id bot tzm time = refl

module _ ⦃db : TinyDb⦄ ⦃cc : CommandCache⦄ where
  abbrev pub published_of : Option Bot → List (String × String)
  published_of none = []
  published_of (some helper) = helper.published

module _ ⦃db : TinyDb⦄ ⦃cc : CommandCache⦄ (json : Json) (laws : CommandCacheLaws cc) where
  send_zone-published :
      (ms : List (String × String)) (request_id : String) (offset : Option ℤ) (time : ℕ)
      (bot : VacBotDevice) (helper : Bot)
      → (send_zone json ms request_id bot (get_tzm_and_ts offset time) helper).published ≡ (
          if told offset && helper.client
          then helper.published
            ++ zone_messages json request_id (some bot) (whole_minutes offset) time
          else helper.published)
  unfolding told get_tzm_and_ts zone_messages whole_minutes new_command
  send_zone-published ms request_id none time bot helper = refl
  send_zone-published ms request_id (some (pos zero)) time bot helper = refl
  send_zone-published ms request_id (some (pos (suc n))) time bot helper =
      rw (sym (zone_message json request_id bot (pos (suc n / 60)) time)) (
        published-send_command_plain json laws ms
          (zone_command json request_id bot (pos (suc n / 60)) time) helper)
  send_zone-published ms request_id (some (negsuc n)) time bot helper =
      rw (sym (zone_message json request_id bot (negsuc (n / 60)) time)) (
        published-send_command_plain json laws ms
          (zone_command json request_id bot (negsuc (n / 60)) time) helper)

  same_either {ℓ} : {A : Type ℓ} (c : Bool) (x : A) → x ≡ (if c then x else x)
  same_either true x = refl
  same_either false x = refl

  send_to-published :
      (ms : List (String × String)) (request_id : String) (offset : Option ℤ) (time : ℕ)
      (bot : Option VacBotDevice) (helper : Bot)
      → (send_to json ms request_id bot (get_tzm_and_ts offset time) helper).published ≡ (
          if told offset && helper.client
          then helper.published ++ zone_messages json request_id bot (whole_minutes offset) time
          else helper.published)
  unfolding zone_messages
  send_to-published ms request_id offset time none helper =
      rw (append-nil helper.published) (same_either (told offset && helper.client) helper.published)
  send_to-published ms request_id offset time (some bot) helper =
      send_zone-published ms request_id offset time bot helper

  -- Where time zones are synchronised, the zone's offset is not zero, and the helper bot has a
  -- client that takes the publication, one message is published to a bot that is known and none to
  -- another: under the topic of `setTimeZone` for that bot, the offset in whole minutes, rounded
  -- down, in header and body, with the time in milliseconds and in microseconds. Otherwise nothing
  -- is published, whatever messages come meanwhile.
  pub published-set_bot_timezone :
      (ms : List (String × String)) (cfg : Config) (request_id did : String) (offset : Option ℤ)
      (time : ℕ) (bots : db.Table) (helper : Bot)
      → published_of (set_bot_timezone json ms cfg request_id offset time did bots (some helper))
        ≡ (if cfg.sync_timezone && (told offset && helper.client)
            then helper.published
              ++ zone_messages json request_id (Bots.get did bots) (whole_minutes offset) time
            else helper.published)
  unfolding set_bot_timezone told
  published-set_bot_timezone ms cfg request_id did offset time bots helper =
      elim (Bool-cases cfg.sync_timezone) [
        | inl e ↦ rw e (send_to-published ms request_id offset time (Bots.get did bots) helper)
        | inr e ↦ rw e refl
      ]
