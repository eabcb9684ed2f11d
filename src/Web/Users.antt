-- ===== src/Web/Users.antt =====
-- The users handler, `bumper/web/plugins/api/users.py`: a body names its task, and each task has a
-- handler. A handler that gives nothing and a handler that raises are answered alike.
pub mod Laws
use bumper.Base.{
  ℕ, String, Bool, true, false, Option, none, some, ◌==◌, if◌then◌else◌, Exec, pure, raise, gets,
  modify, or_raise, ◌>>=◌, ◌>>◌,
}
use bumper.Value.{
  Value, null, num, pos, str, obj, arr, Fields, end, field, lookup, lookup_or, truthy, Json, shown,
}
use bumper.Models.{Token}
use bumper.Db.Tiny.{TinyDb, eq}
use bumper.Db.Repo.{remove_record}
use bumper.Db.Bots
use bumper.Db.Tokens
use bumper.Web.Response.{success_v2, error_v6, unknown_todo}
use bumper.Web.Auth.{World, Env, as_text}
use bumper.Web.Codes.{get_auth_code_v2}
use bumper.Web.Devices.{Static, create_device_list}
use bumper.Web.App.{objects}

-- The addresses that the settings hold.
pub record Addresses : Type 0 where
  pub announce_ip : String
  pub xmpp_port : ℕ
  pub update_server : String
  pub update_port : ℕ

-- The tables, of which the authentication service has three.
pub record UsersState ⦃db : TinyDb⦄ : Type 0 where
  pub world : World
  pub clients : db.Table

abbrev pub text_of : Option Value → Option String
text_of none = none
text_of (some v) = as_text v

abbrev address : String → ℕ → Value
address ip port =
    obj (field "ip" (str ip) (field "port" (num (pos port)) (field "result" (str "ok") end)))

-- `response_success_v2(result_key="result")`
abbrev pub done : Value
done = success_v2 null (some 0) "data" "result"

abbrev logged_in : Value → Value → Value → Value
logged_in resource token user_id = obj (
    field "resource" resource (
      field "result" (str "ok")
        (field "todo" (str "result") (field "token" token (field "userId" user_id end)))))

abbrev pub logged_out : Value
logged_out = obj (field "todo" (str "result") (field "result" (str "ok") end))

module _ ⦃db : TinyDb⦄ (env : Env) (json : Json) (addresses : Addresses) (static : Static) where
  abbrev Handler : Type 0
  Handler = Exec UsersState (Option Value)

  abbrev find_best : Fields → Option Value
  find_best body = elim (lookup_or "service" (str "") body) [
    | str service ↦
        if service == "EcoMsgNew"
        then some (address addresses.announce_ip addresses.xmpp_port)
        else if service == "EcoUpdate"
        then some (address addresses.update_server addresses.update_port)
        else none
    | _ ↦ none
  ]

  -- A value that is no text is no one's identifier: the handler gives nothing or raises.
  abbrev text_at : String → Fields → Exec UsersState String
  text_at k body = or_raise (text_of (lookup k body))

  abbrev give_if : Bool → Value → Handler
  give_if true v = pure (some v)
  give_if false v = pure none

  abbrev login_user : Fields → Handler
  login_user body = do
    user_id ← text_at "userId" body
    token ← text_at "token" body
    verified ← gets (λ s. Tokens.verify_it user_id token s.world.tokens)
    if verified
        then (do
          resource ← or_raise (lookup "resource" body)
          pure (some (logged_in resource (str token) (str user_id))))
        else pure none

  abbrev login_found : Fields → Option Token → Handler
  login_found body none = pure none
  login_found body (some t) = do
    resource ← or_raise (lookup "resource" body)
    pure (some (logged_in resource t.token t.userid))

  abbrev login_token : Fields → Handler
  login_token body = do
    token ← text_at "token" body
    found ← gets (λ s. Tokens.login_by_it_token env.dt token s.world.tokens)
    login ← or_raise found
    login_found body login

  -- `_handle_login_by_it_token`
  unfoldable pub login_by_it_token : Fields → Handler
  login_by_it_token body = elim (lookup "userId" body) [
    | none ↦ login_token body
    | some v ↦ login_user body
  ]

  abbrev user_of : Option Value → Option (Option String)
  user_of (some (obj d)) = elim (lookup_or "auth" (obj end) d) [
    | obj auth ↦ some (text_of (lookup "userid" auth))
    | _ ↦ none
  ]
  user_of v = none

  abbrev on_world : {A : Type 0} → Exec World A → Exec UsersState A
  on_world m s = let (r, w) = m s.world in (r, record s { world = w })

  -- `_handle_get_auth_code`, which reads the body again, as JSON.
  unfoldable pub get_auth_code : Option Value → Handler
  get_auth_code raw = do
    user_id ← or_raise (user_of raw)
    answer ← on_world (get_auth_code_v2 env user_id)
    pure (some answer)

  unfoldable pub get_device_list : Handler
  get_device_list = do
    bots ← gets (λ s. s.world.bots)
    devices ← or_raise (create_device_list env.now_millis static bots)
    pure (
        some (
          obj (
            field "devices" (arr (objects devices))
              (field "result" (str "ok") (field "todo" (str "result") end)))))

  abbrev on_bots : (db.Table → db.Table) → UsersState → UsersState
  on_bots f s = record s { world = record s.world { bots = f s.world.bots } }

  -- `_handle_set_device_nick` and `_handle_add_one_device`, which do the same.
  unfoldable pub set_device_nick : Fields → Handler
  set_device_nick body =
      (let did = lookup_or "did" null body in
        if truthy did
        then (do
          modify (on_bots (Bots.set_field did "nick" (lookup_or "nick" (str "") body)))
          pure (some done))
        else pure none)

  unfoldable pub delete_one_device : Fields → Handler
  delete_one_device body =
      (let did = lookup_or "did" null body in
        if truthy did
        then (do modify (on_bots (remove_record (eq "did" did))); pure (some done))
        else pure none)

  abbrev without_user : Value → UsersState → UsersState
  without_user user_id s = record s {
    world = record s.world { users = remove_record (eq "userid" user_id) s.world.users };
    clients = remove_record (eq "userid" user_id) s.clients;
  }

  -- `_handle_logout`
  unfoldable pub logout : Fields → Handler
  logout body = do
    user_id ← or_raise (lookup "userId" body)
    modify (without_user user_id)
    pure (some logged_out)

  -- `_TODO_HANDLERS`: none is a task without a handler.
  unfoldable pub handler_of : String → Option Value → Fields → Option Handler
  unfolding login_by_it_token get_auth_code get_device_list set_device_nick delete_one_device logout
  handler_of todo raw body =
      if todo == "FindBest"
      then some (pure (find_best body))
      else if todo == "loginByItToken"
      then some (login_by_it_token body)
      else if todo == "GetAuthCode"
      then some (get_auth_code raw)
      else if todo == "GetDeviceList"
      then some get_device_list
      else if todo == "SetDeviceNick"
      then some (set_device_nick body)
      else if todo == "AddOneDevice"
      then some (set_device_nick body)
      else if todo == "DeleteOneDevice"
      then some (delete_one_device body)
      else if todo == "logout"
      then some (logout body)
      else none

  -- What is made of a handler's result; outside is an exception.
  abbrev pub answered : String → Option (Option Value) → Value
  answered todo none = error_v6 todo unknown_todo
  answered todo (some none) = error_v6 todo unknown_todo
  answered todo (some (some v)) = v

  abbrev pub run_handler : String → Option Handler → UsersState → Value × UsersState
  run_handler todo none s = (error_v6 todo unknown_todo, s)
  run_handler todo (some m) s = let (r, s') = m s in (answered todo r, s')

  -- `_handle_user`, at the body and at the body read as JSON; none is the internal server error.
  unfoldable pub handle_user : Option Value → Option Value → UsersState → Option Value × UsersState
  unfolding handler_of
  handle_user (some (obj body)) raw s =
      let todo = shown json (lookup_or "todo" (str "") body) in
      let (v, s') = run_handler todo (handler_of todo raw body) s in (some v, s')
  handle_user body raw s = (none, s)
