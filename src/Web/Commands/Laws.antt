-- ===== src/Web/Commands/Laws.antt =====
-- What a request can make the helper bot publish.
use bumper.Base.{
  String, ◌≡◌, refl, Bool, true, false, some, List, [], ◌∷◌, ◌++◌, arith, if◌then◌else◌, ◌⊎◌, inl,
  inr, Bool-cases, Option-cases, ◌∙◌,
}
use bumper.Value.{str, truthy, Json}
use bumper.Models.{VacBotDevice}
use bumper.Db.Tiny.{TinyDb, eq}
use bumper.Db.Repo.{get_record}
use bumper.Db.Repo.Keyed.{value_eq-key}
use bumper.Db.Bots.{bot_of}
use bumper.Mqtt.Command.{Command, create_topic}
use bumper.Mqtt.Helper.{CommandCache, CommandCacheLaws, Bot}
use bumper.Mqtt.Helper.Laws.{published-send_command_plain}
use bumper.Web.Commands.{CommandRequest, command_of, accepts, is_null, handle_commands}

if-true {ℓ} : {A : Type ℓ} (c : Bool) (x y : A) → c ≡ true → (if c then x else y) ≡ x
if-true c x y h = rw h

if-false {ℓ} : {A : Type ℓ} (c : Bool) (x y : A) → c ≡ false → (if c then x else y) ≡ y
if-false c x y h = rw h

module _ ⦃db : TinyDb⦄ ⦃cc : CommandCache⦄ (json : Json) (laws : CommandCacheLaws cc) where
  -- A bot of the table that speaks MQTT, connected where that is looked at, is sent the command
  -- of the request.
  pub record Commanded (version : String) (extended_check : Bool) (r : CommandRequest)
      (bots : db.Table) (b b' : Bot) : Type 0 where
    pub command : Command
    pub bot : VacBotDevice
    pub requested : command_of json version r ≡ some command
    pub known : bot_of (get_record (eq "did" command.did) bots) ≡ some bot
    pub company : bot.company ≡ str "eco-ng"
    pub connected : extended_check ≡ true → truthy bot.mqtt_connection ≡ true
    pub sent : b'.published ≡ b.published ++ (create_topic json command, command.payload) ∷ []

  accepts-company :
      (extended_check : Bool) (bot : VacBotDevice)
      → accepts extended_check bot ≡ true
      → bot.company ≡ str "eco-ng"
  accepts-company extended_check bot h = value_eq-key bot.company "eco-ng" (ground arith)

  accepts-connected :
      (extended_check : Bool) (bot : VacBotDevice)
      → accepts extended_check bot ≡ true
      → extended_check ≡ true
      → truthy bot.mqtt_connection ≡ true
  accepts-connected extended_check bot h e = ground arith

  -- Whatever a request holds and whatever messages come while it waits, it makes the helper bot
  -- publish nothing, or one message: the command of the request under its topic, to a bot of the
  -- table whose company is `eco-ng`, and which is connected where that is looked at.
  pub handle_commands-Commanded :
      (ms : List (String × String)) (version : String) (extended_check : Bool) (r : CommandRequest)
      (bots : db.Table) (b : Bot)
      → (let b' : Bot = (handle_commands json ms version extended_check r bots b).1 in
          (b'.published ≡ b.published) ⊎ Commanded version extended_check r bots b b')
  unfolding handle_commands
  handle_commands-Commanded ms version extended_check r bots b =
      elim (Option-cases (command_of json version r)) [
        | inl e ↦ rw e (inl refl)
        | inr (cmd, e) ↦ elim (Bool-cases (is_null cmd.did)) [
          | inl n ↦ rw (e, n) (inl refl)
          | inr n ↦ elim (Option-cases (bot_of (get_record (eq "did" cmd.did) bots))) [
            | inl absent ↦ rw (e, n, absent) (inl refl)
            | inr (bot, known) ↦ elim (Bool-cases (accepts extended_check bot)) [
              | inl a ↦
                  rw (e, n, known, a)
                    (let out = published-send_command_plain json laws ms cmd b in
                      elim (Bool-cases b.client) [
                        | inl c ↦ inr (record {
                          command = cmd;
                          bot = bot;
                          requested = e;
                          known = known;
                          company = accepts-company extended_check bot a;
                          connected = accepts-connected extended_check bot a;
                          sent = out ∙ if-true b.client _ _ c;
                        })
                        | inr c ↦ inl (out ∙ if-false b.client _ _ c)
                      ])
              | inr a ↦ rw (e, n, known, a) (inl refl)
            ]
          ]
        ]
      ]
