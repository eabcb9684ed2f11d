-- ===== src/Db/Bots/Laws.antt =====
-- What the repository of bots promises: reads after writes.
use bumper.Base.{
  String, ◌≡◌, refl, ◌≢◌, Bool, true, false, Option, none, some, arith, ◌==◌, eq_iff, if◌then◌else◌,
  get_or, Option-cases, Bool-cases, inl, inr,
}
use bumper.Value.{Value, bool, str, Fields, end, field, lookup, update}
use bumper.Value.Laws.{lookup-update_one}
use bumper.Models.{VacBotDevice, new_bot, bot_as_dict, bot_from_dict}
use bumper.Models.Laws.{bot_from_dict-bot_as_dict}
use bumper.Db.Rows.{Document}
use bumper.Db.Rows.Laws.{map_fields}
use bumper.Db.Tiny.{TinyDb, Documented, eq}
use bumper.Db.Repo.{get_record}
use bumper.Db.Repo.Keyed.{get_record-write, get_record-new, is_found-get_record, key-get_record}
use bumper.Db.Bots.{bot_of, add, get, set_field, set_mqtt}

abbrev pub map_bot : (VacBotDevice → VacBotDevice) → Option VacBotDevice → Option VacBotDevice
map_bot f none = none
map_bot f (some b) = some (f b)

-- The bot that `add` makes.
abbrev pub added : String → String → String → String → String → VacBotDevice
added name did class_id resource company = record (new_bot did name resource company) {
  class_id = str class_id;
}

bot_of-map_fields :
    (g : Fields → Fields) (f : VacBotDevice → VacBotDevice)
    → ((d : Fields) → bot_from_dict (g d) ≡ f (bot_from_dict d))
    → (o : Option Document) → bot_of (map_fields g o) ≡ map_bot f (bot_of o)
bot_of-map_fields g f h none = refl
bot_of-map_fields g f h (some r) = rw (h r.fields)

bot_of-if :
    (c : Bool) (x y : Option Document)
    → bot_of (if c then x else y) ≡ (if c then bot_of x else bot_of y)
bot_of-if true x y = refl
bot_of-if false x y = refl

from_dict-mqtt :
    (v : Value) (d : Fields)
    → bot_from_dict (update d (field "mqtt_connection" v end))
      ≡ record (bot_from_dict d) { mqtt_connection = v }
unfolding bot_from_dict
from_dict-mqtt v d = simp lookup-update_one

pub did-added :
    (name did class_id resource company : String)
    → lookup "did" (bot_as_dict (added name did class_id resource company)) ≡ some (str did)
unfolding lookup bot_as_dict
did-added name did class_id resource company = refl

mqtt_key : ◌≢◌ {A = String} "mqtt_connection" "did"
mqtt_key = ground (arith, eq_iff "mqtt_connection" "did")

module _ ⦃db : TinyDb⦄ ⦃laws : Documented db⦄ where
  did_of_record :
      (did : String) (t : db.Table) {b : VacBotDevice} (o : Option Document)
      → get_record (eq "did" (str did)) t ≡ o
      → bot_of o ≡ some b
      → b.did ≡ str did
  unfolding bot_from_dict
  did_of_record did t none e h = cc
  did_of_record did t (some r) e h = ground (arith, key-get_record "did" did t r e)

  -- Under the `did` that `add` is given there is then the bot that was there before, or else the
  -- new one; under any other `did` the same is found as before.
  pub get-add :
      (name did class_id resource company : String) (j : String) (t : db.Table)
      → get j (add name did class_id resource company t) ≡ (
          if did == j
          then some (get_or (get did t) (added name did class_id resource company))
          else get j t)
  unfolding get add
  get-add name did class_id resource company j t =
      elim (Option-cases (get_record (eq "did" (str did)) t)) [
        | inl absent ↦
            rw (is_found-get_record "did" did t, absent)
              (rw (
                get_record-new "did" did j (bot_as_dict (added name did class_id resource company))
                    t (did-added name did class_id resource company) absent,
                bot_of-if (did == j),
                bot_from_dict-bot_as_dict (added name did class_id resource company),
              ))
        | inr (r, present) ↦
            rw (is_found-get_record "did" did t, present)
              (elim (Bool-cases (did == j)) [
                | inl e ↦ rw e (let p : did ≡ j = (eq_iff did j).0 e in rw (← p) (rw present))
                | inr e ↦ rw e
              ])
      ]

  -- `set_mqtt` writes the flag of the bot that is found under its `did`, and of that bot no other
  -- field. What is found under any other `did` is the same, and where nothing was found under
  -- this one, nothing is found afterwards.
  pub get-set_mqtt :
      (did j : String) (b : Bool) (t : db.Table)
      → get j (set_mqtt (str did) b t) ≡ (
          if did == j
          then map_bot (λ v. record v { mqtt_connection = bool b }) (get did t)
          else get j t)
  unfolding get set_mqtt set_field
  get-set_mqtt did j b t =
      rw (get_record-write "did" "mqtt_connection" did j (bool b) t mqtt_key, bot_of-if (did == j))
        (rw (
          bot_of-map_fields (λ d. update d (field "mqtt_connection" (bool b) end))
            (λ v. record v { mqtt_connection = bool b }) (from_dict-mqtt (bool b))
            (get_record (eq "did" (str did)) t)))

  -- A bot that is read by its `did` has that `did`.
  pub did-get :
      (did : String) (t : db.Table) {b : VacBotDevice} → get did t ≡ some b → b.did ≡ str did
  unfolding get
  did-get did t h = did_of_record did t (get_record (eq "did" (str did)) t) refl h
