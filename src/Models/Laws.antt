-- ===== src/Models/Laws.antt =====
-- Every record comes back from the dictionary that it is stored as.
use bumper.Base.{◌≡◌, refl, some}
use bumper.Value.{lookup}
use bumper.Models.{
  VacBotDevice, bot_as_dict, bot_from_dict, VacBotClient, client_as_dict, client_from_dict,
  BumperUser, user_as_dict, user_from_dict, Datetime, Token, token_to_db, token_from_dict,
}

-- A bot that is written to a document and read back is the bot.
pub bot_from_dict-bot_as_dict : (b : VacBotDevice) → bot_from_dict (bot_as_dict b) ≡ b
unfolding bot_from_dict bot_as_dict lookup
bot_from_dict-bot_as_dict b = refl

-- A client that is written to a document and read back is the client.
pub client_from_dict-client_as_dict : (c : VacBotClient) → client_from_dict (client_as_dict c) ≡ c
unfolding client_from_dict client_as_dict lookup
client_from_dict-client_as_dict c = refl

-- A user that is written to a document and read back is the user.
pub user_from_dict-user_as_dict : (u : BumperUser) → user_from_dict (user_as_dict u) ≡ u
unfolding user_from_dict user_as_dict lookup
user_from_dict-user_as_dict u = refl

-- A token that is written to a document and read back is the token, provided that the ISO text
-- of the moment at which it expires is read back as that moment.
pub token_from_dict-token_to_db :
    (dt : Datetime) (t : Token)
    → dt.fromisoformat (dt.isoformat t.expiration) ≡ some t.expiration
    → token_from_dict dt (token_to_db dt t) ≡ some t
unfolding token_from_dict token_to_db lookup
token_from_dict-token_to_db dt t h = rw h
