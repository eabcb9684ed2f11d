-- ===== src/Mqtt/Helper.antt =====
-- The helper bot sends commands to robots and waits for their answers: `MQTTHelperBot` and
-- `CommandDto` of `bumper/mqtt/helper_bot.py`. The loop that keeps the connection is a call of
-- aiomqtt; what it delivers is a list of messages here.
pub mod Messages
pub mod Laws
pub mod Send
use bumper.Base.{
  ℕ, ◌+◌, String, Bool, true, false, ◌&&◌, ◌||◌, not, Option, none, some, List, [], ◌∷◌, ◌++◌, ◌==◌,
  ◌≡◌, if◌then◌else◌, nat_eq, get_elem?, is_some,
}
use bumper.Text.{split, append, concat}
use bumper.Value.{
  pos, Value, null, num, str, obj, Fields, end, field, lookup, lookup_or, insert, value_eq, truthy,
  Json, shown,
}
use bumper.Db.Tiny.{TinyDb}
use bumper.Db.CleanLogs.{clean_log}
use bumper.Mqtt.Command.{Command, create_topic, version_old, version_new, version_p2p}
use bumper.Web.Response.{error_v8, success_v2}

pub record CommandDto : Type 0 where
  pub payload_type : Value
  pub response : Option String

-- The open commands, from the identifier of a request to the place of its `CommandDto`.
-- `cachetools.TTLCache` is not part of the repository: a dictionary that loses entries with time.
pub record CommandCache : Type 1 where
  pub Cache : Type 0
  pub put : String → ℕ → Cache → Cache
  pub find : String → Cache → Option ℕ
  pub pop : String → Cache → Cache

pub record CommandCacheLaws (cc : CommandCache) : Type 0 where
  pub find-put : (k : String) (n : ℕ) (c : cc.Cache) → cc.find k (cc.put k n c) ≡ some n
  pub find-put_other :
      (k j : String) (n m : ℕ) (c : cc.Cache)
      → (k == j) ≡ false
      → cc.find j (cc.put k n c) ≡ some m
      → cc.find j c ≡ some m
  pub find-pop :
      (k j : String) (m : ℕ) (c : cc.Cache) → cc.find j (cc.pop k c) ≡ some m → cc.find j c ≡ some m

-- `client`: there is an MQTT client, and its connection takes a publication. `started`: the loop
-- runs. `place` is the first free place of `dtos`.
pub record Bot ⦃db : TinyDb⦄ ⦃cc : CommandCache⦄ : Type 0 where
  pub client : Bool
  pub is_connected : Bool
  pub started : Bool
  pub commands : cc.Cache
  pub dtos : ℕ → CommandDto
  pub place : ℕ
  pub published : List (String × String)
  pub logs : db.Table

module _ ⦃db : TinyDb⦄ ⦃cc : CommandCache⦄ where
  unfoldable pub start : Bot → Bot
  start b = record b { started = true }

  unfoldable pub disconnect : Bot → Bot
  disconnect b = record b { started = false; client = false; is_connected = false }

module _ ⦃db : TinyDb⦄ ⦃cc : CommandCache⦄ (json : Json) where
  abbrev pub put_dto : ℕ → CommandDto → (ℕ → CommandDto) → ℕ → CommandDto
  put_dto n d dtos m = if nat_eq n m then d else dtos m

  -- `CommandDto.add_response`
  unfoldable pub add_response : ℕ → String → Bot → Bot
  add_response n payload b = record b {
    dtos = put_dto n (record (b.dtos n) { response = some payload }) b.dtos;
  }

  -- `wait_for_response`, with what `_wait_for_resp` makes of a timeout and of an exception.
  unfoldable pub read_response : CommandDto → Value
  read_response dto = elim dto.response [
    | none ↦ null
    | some r ↦
        if not (value_eq dto.payload_type (str "j"))
        then str r
        else elim (json.loads r) [ none ↦ null | some v ↦ elim v [ obj d ↦ obj d | _ ↦ str r ] ]
  ]

  abbrev pub is_text : Option String → String → Bool
  is_text none t = false
  is_text (some s) t = s == t

  abbrev answer : String → Option ℕ → Bot → Bot
  answer payload none b = b
  answer payload (some n) b = add_response n payload b

  abbrev log_written : Option (Unit {0}) × db.Table → Bot → Option (Unit {0}) × Bot
  log_written (r, t) b = (r, record b { logs = t })

  abbrev report : Option String → Option String → String → Bot → Option (Unit {0}) × Bot
  report (some did) (some rid) payload b = log_written (clean_log json did rid payload b.logs) b
  report did rid payload b = (none, b)

  abbrev is_stats : Option String → Bool
  is_stats f = is_text f "onStats" || is_text f "reportStats"

  -- An answer, by its request identifier; without one there is an `IndexError`.
  abbrev on_p2p : List String → Option String → String → Bot → Option (Unit {0}) × Bot
  on_p2p ts none payload b = (none, b)
  on_p2p ts (some request_id) payload b =
      (some tt, answer payload (cc.find request_id b.commands) b)

  abbrev on_atr : List String → String → Bot → Option (Unit {0}) × Bot
  on_atr ts payload b =
      if is_stats (get_elem? ts 2)
      then report (get_elem? ts 3) (get_elem? ts 5) payload b
      else (if is_some (get_elem? ts 6) then some tt else none, b)

  abbrev on_kind : List String → Option String → String → Bot → Option (Unit {0}) × Bot
  on_kind ts none payload b = (none, b)
  on_kind ts (some kind) payload b =
      if kind == "p2p"
      then on_p2p ts (get_elem? ts 10) payload b
      else if kind == "atr"
      then on_atr ts payload b
      else (some tt, b)

  -- `_on_message`: whether it raised, and what it leaves.
  unfoldable pub on_message : String → String → Bot → Option (Unit {0}) × Bot
  unfolding add_response
  on_message topic payload b = let ts = split "/" topic in on_kind ts (get_elem? ts 1) payload b

  -- A message comes over a connection of the loop; an exception ends that connection.
  abbrev connect : Bot → Bot
  connect b = record b { client = true; is_connected = true }

  abbrev loop_on : Option (Unit {0}) × Bot → Bot
  loop_on (none, b) = record b { client = false; is_connected = false }
  loop_on (some u, b) = b

  -- `_mqtt_loop`: the messages one after the other, over as many connections as it takes.
  unfoldable pub deliver : List (String × String) → Bot → Bot
  unfolding on_message
  deliver [] b = b
  deliver ((topic, payload) ∷ ms) b = deliver ms (loop_on (on_message topic payload (connect b)))

  -- `send_command_plain` up to the publication: the loop is started where it does not run,
  -- and the command is open.
  unfoldable pub open_command : Command → Bot → Bot
  open_command cmd b = record b {
    started = b.started || not b.is_connected;
    commands = cc.put cmd.request_id b.place b.commands;
    dtos = put_dto b.place (record { payload_type = cmd.payload_type; response = none }) b.dtos;
    place = b.place + 1;
  }

  abbrev pub add_published : String → String → Bot → Bot
  add_published topic payload b = record b { published = b.published ++ (topic, payload) ∷ [] }

  -- Without a client this raises, and so does aiomqtt where the connection has ended.
  unfoldable pub publish : String → String → Bot → Option (Unit {0}) × Bot
  publish topic payload b = if b.client then (some tt, add_published topic payload b) else (none, b)

  unfoldable pub close_command : Command → Bot → Bot
  close_command cmd b = record b { commands = cc.pop cmd.request_id b.commands }

  -- The answer is read when the waiting is over, from the place of this command.
  abbrev pub await_response :
      List (String × String) → Command → ℕ → Option (Unit {0}) × Bot → Value × Bot
  await_response ms cmd n (none, b) = (null, close_command cmd b)
  await_response ms cmd n (some u, b) =
      let b' = deliver ms b in (read_response (b'.dtos n), close_command cmd b')

  -- `send_command_plain`, given the messages that come while it waits; that the publication raises
  -- is logged.
  unfoldable pub send_command_plain : List (String × String) → Command → Bot → Value × Bot
  unfolding open_command publish close_command deliver read_response
  send_command_plain ms cmd b =
      await_response ms cmd b.place
        (publish (create_topic json cmd) cmd.payload (open_command cmd b))
