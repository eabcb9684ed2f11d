-- ===== src/Web/Codes.antt =====
-- The exchange of codes, `bumper/web/auth_service.py`: an application asks for an IoT token, trades
-- it for an authentication code, and logs in to the brokers with that.
pub mod Laws
use bumper.Base.{
  ℕ, ◌+◌, String, Bool, true, false, not, Option, none, some, ◌==◌, if◌then◌else◌, is_some, Exec,
  pure, raise, gets, modify, or_raise, ◌>>=◌, ◌>>◌,
}
use bumper.Text.{append}
use bumper.Value.{Value, null, str, obj, field, end, truthy}
use bumper.Models.{BumperUser, Token}
use bumper.Db.Tiny.{TinyDb}
use bumper.Db.Users
use bumper.Db.Tokens
use bumper.Web.Response.{
  success_v1, success_v2, error_v2, error_v9, err_token_invalid, err_user_disable,
}
use bumper.Web.Auth.{World, Env, as_text, on_tokens, draw, revoke_expired}

module _ ⦃db : TinyDb⦄ (env : Env) where
  abbrev code_if : Bool → String → Option String
  code_if true code = some code
  code_if false code = none

  -- `_generate_it_token`: none where the user has no token to write it to.
  unfoldable pub generate_it_token : String → Exec World (Option String)
  generate_it_token user_id = do
    id ← draw env
    written ← on_tokens env (Tokens.add_it_token user_id (append "GLOBAL_APP_ECOVACS_IOT_" id))
    pure (code_if written (append "GLOBAL_APP_ECOVACS_IOT_" id))

  -- `_generate_auth_code`
  unfoldable pub generate_auth_code : String → Exec World (Option String)
  generate_auth_code user_id = do
    code ← draw env
    written ← on_tokens env (Tokens.add_auth_code user_id code)
    pure (code_if written code)

  abbrev user_named : Option String → World → Option BumperUser
  user_named none w = none
  user_named (some u) w = Users.get_by_id u w.users

  abbrev user_of_device : Option String → World → Option BumperUser
  user_of_device none w = none
  user_of_device (some d) w = Users.get_by_device_id d w.users

  abbrev or_user : Option BumperUser → Option BumperUser → Option BumperUser
  or_user none b = b
  or_user (some a) b = some a

  abbrev shown : Option String → String
  shown none = "None"
  shown (some s) = s

  abbrev no_user : Option String → String
  no_user user_id = append "No user found for " (shown user_id)

  abbrev it_answer : BumperUser → Option String → Value
  it_answer user none = error_v9 env.now_millis "Expired user login" err_token_invalid
  it_answer user (some code) =
      success_v1 env.loaded_millis
        (obj (field "authCode" (str code) (field "ecovacsUid" user.userid end)))

  abbrev it_for : Option String → Option BumperUser → Exec World Value
  it_for user_id none = pure (error_v9 env.now_millis (no_user user_id) err_token_invalid)
  it_for user_id (some user) = do
    id ← or_raise (as_text user.userid)
    code ← generate_it_token id
    pure (it_answer user code)

  -- `get_auth_code`, given the user's name and the device's identifier of the request.
  unfoldable pub get_auth_code : Option String → Option String → Exec World Value
  get_auth_code user_id device_id = do
    user ← gets (λ w. or_user (user_named user_id w) (user_of_device device_id w))
    it_for user_id user

  abbrev auth_answer : Option String → Value
  auth_answer none = error_v2 "Expired client login" err_token_invalid
  auth_answer (some code) = success_v2 (str code) none "authCode" "result"

  abbrev auth_for : Option Token → Exec World Value
  auth_for none = pure (error_v2 "New auth failed, no token found for it-token" err_token_invalid)
  auth_for (some token) = do
    id ← or_raise (as_text token.userid)
    revoke_expired env id
    if truthy token.auth_code
        then pure (success_v2 token.auth_code none "authCode" "result")
        else (do code ← generate_auth_code id; pure (auth_answer code))

  -- `get_new_auth`, given the `itToken` of the body.
  unfoldable pub get_new_auth : Option String → Exec World Value
  get_new_auth none = pure (error_v2 "New auth failed, 'itToken' not provided" err_token_invalid)
  get_new_auth (some it_token) = do
    found ← gets (λ w. Tokens.login_by_it_token env.dt it_token w.tokens)
    token ← or_raise found
    auth_for token

  abbrev code_answer_v2 : Option String → Value
  code_answer_v2 none = error_v2 "Auth error" err_user_disable
  code_answer_v2 (some code) = success_v2 (str code) none "code" "result"

  abbrev make_code : String → Exec World Value
  make_code user_id = do code ← generate_auth_code user_id; pure (code_answer_v2 code)

  abbrev code_of : Option Token → Value
  code_of none = null
  code_of (some t) = t.auth_code

  abbrev code_or_new : String → Value → Exec World Value
  code_or_new user_id null = make_code user_id
  code_or_new user_id code = pure (success_v2 code none "code" "result")

  abbrev code_for : Option String → Option BumperUser → Exec World Value
  code_for (some user_id) (some user) = do
    revoke_expired env user_id
    found ← gets (λ w. Tokens.get_first_token env.dt user_id w.tokens)
    token ← or_raise found
    code_or_new user_id (code_of token)
  code_for user_id user = pure (error_v2 (no_user user_id) err_user_disable)

  -- `get_auth_code_v2`, given `auth.userid` of the body.
  unfoldable pub get_auth_code_v2 : Option String → Exec World Value
  get_auth_code_v2 user_id = do user ← gets (user_named user_id); code_for user_id user
