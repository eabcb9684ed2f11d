-- ===== src/Web/Homes.antt =====
-- The homes of a user, `bumper/web/plugins/api/homed.py`. A handler that raises answers the internal
-- server error; a body is given as the dictionary that is read of it, none where that raises.
use bumper.Base.{
  ℕ, ◌+◌, String, Bool, true, false, Option, none, some, [], ◌∷◌, get_or, Exec, pure, gets,
  or_raise, ◌>>=◌, ◌>>◌,
}
use bumper.Settings.{home_id, user_nickname_default}
use bumper.Text.{concat}
use bumper.Numbers.{digits}
use bumper.Value.{
  Value, null, bool, num, pos, str, obj, arr, Items, nil, cons, Fields, end, field, lookup_or,
  to_list,
}
use bumper.Models.{BumperUser, Token}
use bumper.Db.Tiny.{TinyDb, eq, any}
use bumper.Db.Repo.{get_record, get_first}
use bumper.Db.Users
use bumper.Db.Tokens
use bumper.Web.Response.{success_v3, success_v3_data, error_v2, err_common}
use bumper.Web.Auth.{World, Env, on_users, draw}
use bumper.Web.Oauth.{Jwt, JwtDetails, get_jwt_details}

abbrev home_row : ℕ → BumperUser → ℕ → Value → Value
home_row now user index home = obj (
    field "createTime" (num (pos now)) (
      field "createUser" user.userid (
        field "createUserName" user.username (
          field "firstCreate" (bool false) (
            field "homeId" home (
              field "name" (str (concat ("My Home (" ∷ digits index ∷ ")" ∷ [])))
                (field "type" (str "own") end)))))))

unfoldable pub home_rows : ℕ → BumperUser → ℕ → Items → Items
home_rows now user index nil = nil
home_rows now user index (cons home homes) =
    cons (home_row now user index home) (home_rows now user (index + 1) homes)

-- `response_success_v3(result_key=None)`
abbrev pub accepted : Value
accepted = success_v3 0 none "success" "message" none false

abbrev no_details : Value
no_details = error_v2 "Parameter error. Please try again later" err_common

abbrev member_row : ℕ → BumperUser → Value
member_row now user = obj (
    field "createTime" (num (pos now)) (
      field "id" user.userid (
        field "isAdmin" (num (pos 2)) (
          field "name" (str user_nickname_default) (
            field "roleId" (str "xxx") (
              field "roleName" (str "Fraternal grandpa")
                (field "status" (num (pos 1)) (field "uid" user.userid end))))))))

module _ ⦃db : TinyDb⦄ (env : Env) (jwt : Jwt) where
  abbrev homes_of : Option BumperUser → Option Items
  homes_of none = some nil
  homes_of (some user) = elim (to_list user.homeids) [
    | none ↦ none
    | some homes ↦ some (home_rows env.now_millis user 0 homes)
  ]

  abbrev user_named : Option String → World → Option BumperUser
  user_named none w = none
  user_named (some user_id) w = Users.get_by_id user_id w.users

  -- `_handle_home_list`, of the query's `userid`.
  unfoldable pub home_list : Option String → Exec World Value
  unfolding home_rows
  home_list user_id = do
    user ← gets (user_named user_id)
    rows ← or_raise (homes_of user)
    pure (success_v3_data (arr rows))

  -- `user_repo.get_by_home_id` of any value.
  abbrev by_home : Value → World → Option BumperUser
  by_home home w = Users.user_of (get_record (any "homeids" (cons home nil)) w.users)

  abbrev change_home : Value → Value → Bool → Exec World (Unit {0})
  change_home (str user_id) home add = on_users env (Users.change "homeids" user_id home add)
  change_home user_id home add = pure tt

  -- A user that is not a text has no document, and nothing is written.
  abbrev add_home : Option Token → Exec World (Unit {0})
  add_home none = pure tt
  add_home (some token) = elim token.userid [
    | null ↦ pure tt
    | _ ↦ draw env >>= λ home. change_home token.userid (str home) true
  ]

  -- `token_repo.get_by_auth_code` of any value, the `None` of a token without a code among them.
  abbrev by_code : Value → World → Option (Option Token)
  by_code auth_code w = Tokens.token_of env.dt (get_first (eq "auth_code" auth_code) w.tokens)

  abbrev create_for : Option JwtDetails → Exec World Value
  create_for none = pure no_details
  create_for (some details) = do
    found ← gets (by_code details.auth_code)
    token ← or_raise found
    add_home token
    pure accepted

  -- `_handle_home_create`, of the body and the header of the authorization.
  unfoldable pub home_create : Option Fields → Option String → Exec World Value
  home_create body authorization = do or_raise body; create_for (get_jwt_details jwt authorization)

  -- `_handle_home_update` and `_handle_device_move` only log.
  unfoldable pub home_update : Option Fields → Exec World Value
  home_update body = do or_raise body; pure accepted

  abbrev remove_home : Value → Option BumperUser → Exec World (Unit {0})
  remove_home home none = pure tt
  remove_home home (some user) = change_home user.userid home false

  unfoldable pub home_delete : Option Fields → Exec World Value
  home_delete body = do
    d ← or_raise body
    let home = lookup_or "homeId" null d
    user ← gets (by_home home)
    remove_home home user
    pure accepted

  -- `_handle_member_list`, of the query's `homeId`: an unknown home is the internal server error.
  unfoldable pub member_list : Option String → Exec World Value
  member_list home = do
    user ← gets (by_home (str (get_or home home_id)))
    found ← or_raise user
    pure (success_v3_data (arr (cons (member_row env.now_millis found) nil)))
