-- ===== src/Examples/Tables.antt =====
-- The repositories at concrete tables.
use bumper.Base.{◌+◌, ◌≡◌, refl, true, false, some, [], ◌∷◌, if◌then◌else◌, ◌&&◌, ◌==◌, ltb}
use bumper.Db.Bots.Unique.{UniqueBots, add-remove-UniqueBots}
use bumper.Text.{split, join}
use bumper.Text.Laws.{join-split}
use bumper.Value.{str, Items, nil, arr, mem_item, lookup_or, lookup, value_eq, update, insert}
use bumper.Models.{
  new_token, token_to_db, new_bot, bot_as_dict, bot_from_dict, new_client, client_as_dict,
  client_from_dict, new_user, user_as_dict, user_from_dict,
}
use bumper.Models.Laws.{
  bot_from_dict-bot_as_dict, client_from_dict-client_as_dict, user_from_dict-user_as_dict,
}
use bumper.Db.Rows.{Rows, any_row, drop_where}
use bumper.Db.Repo.{get_first, get_record, upsert_record}
use bumper.Db.Repo.Keyed.{is_key}
use bumper.Db.Bots
use bumper.Db.Users
use bumper.Db.Users.Laws.{AllHold, Changed, ListField, devices-add_device, change-Changed}
use bumper.Db.Tokens.{
  of_token, expired_at, token_validity, add, verify, add_auth_code, verify_auth_code,
  revoke_user_expired, revoke_all_for_user,
}
use bumper.Db.Tokens.Laws.{verify-add, all-revoke_user_expired}
use bumper.Db.Tokens.Codes.{verify_auth_code-add, verify-revoke_all}
use bumper.Examples.Memory.{memory, memory_laws, moments, moments_read}

-- Two tokens of two users.
abbrev token_rows : Rows
token_rows =
    record { doc_id = 1; fields = token_to_db moments (new_token "ann" "k1" 5) }
    ∷ record { doc_id = 2; fields = token_to_db moments (new_token "bob" "k2" 9) }
    ∷ []

abbrev bot_rows : Rows
bot_rows = record { doc_id = 1; fields = bot_as_dict (new_bot "d1" "n" "r" "eco") } ∷ []

abbrev user_rows : Rows
user_rows = record { doc_id = 1; fields = user_as_dict (new_user "ann") } ∷ []

user_rows_hold : AllHold user_rows
unfolding lookup_or user_as_dict lookup
user_rows_hold = (record { devices = (nil, refl); bots = (nil, refl); homeids = (nil, refl) }, tt)

no_token : memory.contains (of_token "ann" "k9") token_rows ≡ false
unfolding token_to_db lookup value_eq
no_token = refl

verify-add_example :
    verify moments 7 "ann" "k9" (add moments 5 "ann" "k9" token_rows)
    ≡ some (ltb 7 (5 + token_validity))
verify-add_example =
    verify-add moments 5 7 "ann" "k9" token_rows (moments_read (5 + token_validity)) no_token

verify_auth_code-add_example :
    verify_auth_code "ann" "c1" (add_auth_code "ann" "c1" token_rows).1 ≡ (
      if ("ann" == "ann") && any_row (is_key "userid" "ann") token_rows
      then "c1" == "c1"
      else verify_auth_code "ann" "c1" token_rows)
verify_auth_code-add_example = verify_auth_code-add "ann" "ann" "c1" "c1" token_rows

-- A code is accepted once it was added.
code_accepted : verify_auth_code "ann" "c1" (add_auth_code "ann" "c1" token_rows).1 ≡ true
unfolding token_to_db add_auth_code verify_auth_code get_first lookup value_eq upsert_record update
    insert
code_accepted = refl

verify-revoke_all_example :
    verify moments 3 "bob" "k2" (revoke_all_for_user "ann" token_rows)
    ≡ (if "ann" == "bob" then some false else verify moments 3 "bob" "k2" token_rows)
verify-revoke_all_example =
    verify-revoke_all moments 3 "ann" "bob" "k2" token_rows (refl, (refl, tt))

all-revoke_user_expired_example :
    revoke_user_expired "tttttttt" "ann" token_rows
    ≡ drop_where
        (λ d. is_key "userid" "ann" d && memory.matches (expired_at "tttttttt") d)
        token_rows
all-revoke_user_expired_example =
    all-revoke_user_expired "tttttttt" "ann" token_rows (refl, (refl, tt))

change-Changed_example :
    ((Users.change "devices" "ann" (str "dev") true user_rows).0 ≡ some tt)
    × Changed "ann" user_rows (Users.change "devices" "ann" (str "dev") true user_rows).1
change-Changed_example =
    change-Changed "devices" ListField.devices "ann" (str "dev") true user_rows user_rows_hold

known : Users.get_by_id "ann" user_rows ≡ some (new_user "ann")
unfolding Users.get_by_id get_record lookup user_as_dict value_eq user_from_dict
known = refl

devices-add_device_example :
    (ys : Items) × (Users.get_by_id "ann" (Users.add_device "ann" "dev" user_rows).1
      ≡ some (record (new_user "ann") { devices = arr ys }))
    × (mem_item (str "dev") ys ≡ true)
devices-add_device_example =
    devices-add_device "ann" "dev" user_rows {usr = new_user "ann"} user_rows_hold known

bot_from_dict-bot_as_dict_example :
    bot_from_dict (bot_as_dict (new_bot "d" "n" "r" "eco")) ≡ new_bot "d" "n" "r" "eco"
bot_from_dict-bot_as_dict_example = bot_from_dict-bot_as_dict (new_bot "d" "n" "r" "eco")

client_from_dict-client_as_dict_example :
    client_from_dict (client_as_dict (new_client "n" "u" "e" "r")) ≡ new_client "n" "u" "e" "r"
client_from_dict-client_as_dict_example =
    client_from_dict-client_as_dict (new_client "n" "u" "e" "r")

user_from_dict-user_as_dict_example :
    user_from_dict (user_as_dict (new_user "ann")) ≡ new_user "ann"
user_from_dict-user_as_dict_example = user_from_dict-user_as_dict (new_user "ann")

join-split_example : join "/" (split "/" "a/b//c") ≡ "a/b//c"
join-split_example = join-split "/" "a/b//c"

bot_rows_unique : UniqueBots bot_rows
bot_rows_unique did = (λ e. refl, tt)

add-remove-UniqueBots_example :
    UniqueBots (Bots.add "n" "d2" "c" "r" "eco" bot_rows) × UniqueBots (Bots.remove "d2" bot_rows)
add-remove-UniqueBots_example =
    add-remove-UniqueBots "n" "d2" "c" "r" "eco" bot_rows (refl, tt) bot_rows_unique

abbrev client_rows : Rows
client_rows = record { doc_id = 1; fields = client_as_dict (new_client "n" "u1" "USER" "r") } ∷ []
