-- ===== src/Web/Auth.antt =====
-- The authentication service, `bumper/web/auth_service.py`: the login and the exchange of codes.
-- A handler is an action on the tables that may raise; what it wrote before stays written, and the
-- answer is then the internal server error.
pub mod Laws
use bumper.Base.{
  ℕ, ◌+◌, String, Bool, true, false, not, ◌&&◌, ◌||◌, Option, none, some, is_some, get_or, List, [],
  ◌∷◌, ◌==◌, if◌then◌else◌, Exec, pure, raise, gets, modify, or_raise, ◌>>=◌, ◌>>◌,
}
use bumper.Settings.{Config, user_username_default, user_mail_default}
use bumper.Text.{contains_text}
use bumper.Value.{Value, null, str, obj, Fields, end, field, update, value_eq}
use bumper.Models.{Datetime, BumperUser, VacBotDevice}
use bumper.Db.Tiny.{TinyDb}
use bumper.Db.Bots
use bumper.Db.Users
use bumper.Db.Tokens
use bumper.Web.Response.{success_v1, error_v1, err_token_invalid}

pub record World ⦃db : TinyDb⦄ : Type 0 where
  pub users : db.Table
  pub bots : db.Table
  pub tokens : db.Table
  -- How many random identifiers were drawn.
  pub drawn : ℕ

-- The moment of the request in microseconds and in milliseconds, the moment at which the modules
-- were loaded, the texts of moments, the random identifiers of `uuid4`, and the SHA-256 identifier
-- of a name.
pub record Env : Type 0 where
  pub now : ℕ
  pub now_millis : ℕ
  pub loaded_millis : ℕ
  pub dt : Datetime
  pub uuid : ℕ → String
  pub digest : String → String

pub record Request : Type 0 where
  pub check_login : Bool
  pub uid : Option String
  pub access_token : Option String
  pub account : Option String
  pub encrypt_account : Option String
  pub auth_appkey : Option String
  pub device_id : Option String
  pub app_type : Option String
  pub country : String

-- `userid` of a record, which the source declares to be a text.
abbrev pub as_text : Value → Option String
as_text (str s) = some s
as_text v = none

abbrev pub parameter_error : String
parameter_error = "Parameter error. Please try again later."

module _ ⦃db : TinyDb⦄ (env : Env) where
  abbrev pub on_users : {A : Type 0} → (db.Table → Option A × db.Table) → Exec World A
  on_users f w = let (r, t) = f w.users in (r, record w { users = t })

  abbrev pub on_tokens : {A : Type 0} → (db.Table → A × db.Table) → Exec World A
  on_tokens f w = let (r, t) = f w.tokens in (some r, record w { tokens = t })

  abbrev pub draw : Exec World String
  draw w = (some (env.uuid w.drawn), record w { drawn = w.drawn + 1 })

  -- `_generate_uid`
  unfoldable pub generate_uid : Option String → String
  generate_uid account = env.digest (get_or account user_username_default)

  abbrev pub new_token : String → World → World
  new_token user_id w = record w {
    tokens = Tokens.add env.dt env.now user_id (env.uuid w.drawn) w.tokens;
    drawn = w.drawn + 1;
  }

  -- `_generate_token`
  unfoldable pub generate_token : String → Exec World String
  generate_token user_id w = (some (env.uuid w.drawn), new_token user_id w)

  -- `_get_login_details`; the e-mail address and the country aside, what an application reads.
  unfoldable pub get_login_details : String → String → BumperUser → String → Fields
  get_login_details apptype country user token =
      let details = field "accessToken" (str token) (
        field "email" (str user_mail_default) (
          field "isNew" null (
            field "loginName" user.userid (
              field "mobile" null (
                field "ucUid" user.userid (
                  field "uid" user.userid (
                    field "username" user.username
                      (field "country" (str country) (field "verifyDevice" (str "N") end))))))))) in
      if contains_text "global_" apptype
      then update details
          (field "ucUid" user.userid (field "loginName" user.username (field "mobile" null end)))
      else details

  abbrev pub login_success : String → String → BumperUser → String → Value
  login_success apptype country user token =
      success_v1 env.loaded_millis (obj (get_login_details apptype country user token))

  abbrev pub login_error : Value
  login_error = error_v1 env.now_millis parameter_error err_token_invalid

  -- `_check_token`
  unfoldable pub check_token : String → String → BumperUser → String → Exec World (Bool × Value)
  check_token apptype country user token = do
    user_id ← or_raise (as_text user.userid)
    verified ← λ w. (Tokens.verify env.dt env.now user_id token w.tokens, w)
    pure (
        if verified then (true, login_success apptype country user token) else (false, login_error))

  unfoldable pub revoke_expired : String → Exec World (Unit {0})
  revoke_expired user_id = modify (λ w. record w {
    tokens = Tokens.revoke_user_expired (env.dt.isoformat env.now) user_id w.tokens;
  })

  -- `for bot in bot_repo.list_all()`: a bot without an identifier is skipped.
  unfoldable pub add_bots : String → List VacBotDevice → Exec World (Unit {0})
  add_bots user_id [] = pure tt
  add_bots user_id (b ∷ bs) =
      let rest = add_bots user_id bs in
      if value_eq b.did null || value_eq b.did (str "")
      then rest
      else on_users (Users.add_bot user_id b.did) >> rest

  -- `_auth_any_user_extends`
  unfoldable pub extend_user : String → String → Exec World (Unit {0})
  unfolding add_bots revoke_expired
  extend_user user_id device_id = do
    on_users (Users.add_device user_id device_id)
    bots ← gets (λ w. Bots.list_all w.bots)
    add_bots user_id bots
    revoke_expired user_id

  -- Whether a token must be made: not for a check of one that the user has.
  abbrev needs_token : Bool → Option String → String → Exec World Bool
  needs_token false token user_id = pure true
  needs_token true none user_id = pure true
  needs_token true (some t) user_id =
      if t == ""
      then pure false
      else (do found ← λ w. (Tokens.get env.dt user_id t w.tokens, w); pure (not (is_some found)))

  abbrev pick_token : Bool → Option String → String → Exec World String
  pick_token true token user_id = generate_token user_id
  pick_token false none user_id = generate_token user_id
  pick_token false (some t) user_id = pure t

  abbrev checked_body : Bool → Value → Bool × Value → Value
  checked_body false body result = body
  checked_body true body (true, result) = result
  checked_body true body (false, result) = body

  abbrev check_body : Bool → String → String → BumperUser → String → Exec World Value
  check_body false app_type country user token = pure (login_success app_type country user token)
  check_body true app_type country user token = do
    result ← check_token app_type country user token
    pure (checked_body true (login_success app_type country user token) result)

  unfoldable pub answer_user :
      Bool → Option String → String → String → String → Option BumperUser → Exec World Value
  answer_user check token device_id app_type country none = pure login_error
  answer_user check token device_id app_type country (some user) = do
    user_id ← or_raise (as_text user.userid)
    extend_user user_id device_id
    needed ← needs_token check token user_id
    token' ← pick_token needed token user_id
    check_body (check && is_some token) app_type country user token'

  abbrev ensure_user : String → Option BumperUser → Exec World (Option BumperUser)
  ensure_user uid (some user) = pure (some user)
  ensure_user uid none = do on_users (Users.add uid); gets (λ w. Users.get_by_id uid w.users)

  abbrev pub uid_or_default : Option String → String
  uid_or_default none = generate_uid (some user_username_default)
  uid_or_default (some uid) = if uid == "" then generate_uid (some user_username_default) else uid

  -- `_auth_any`
  unfoldable pub auth_any :
      Option String → Option String → String → String → String → Bool → Exec World Value
  auth_any uid token device_id app_type country check = do
    known ← gets (λ w. Users.get_by_id (uid_or_default uid) w.users)
    user ← ensure_user (uid_or_default uid) known
    answer_user check token device_id app_type country user

  -- The identifier of a login: the first name that gives one. A digest is never empty.
  abbrev pick_uid : String → String → String → String
  pick_uid a b c = if a == "" then (if b == "" then c else b) else a

  abbrev login_uid : Request → Option String
  login_uid r =
      if r.check_login
      then r.uid
      else some (
          pick_uid (generate_uid r.account) (generate_uid r.encrypt_account)
            (generate_uid r.auth_appkey))

  abbrev login_token : Request → Option String
  login_token r = if r.check_login then r.access_token else none

  abbrev login_known : Request → String → Option BumperUser → Exec World Value
  login_known r app_type none = pure login_error
  login_known r app_type (some user) =
      if r.check_login
      then (do
        result ← check_token app_type r.country user (get_or r.access_token "")
        pure result.1)
      else (do
        user_id ← or_raise (as_text user.userid)
        revoke_expired user_id
        token ← generate_token user_id
        pure (login_success app_type r.country user token))

  abbrev login_device : Config → Request → Option String → Option String → Exec World Value
  login_device cfg r (some device_id) (some app_type) =
      if cfg.use_auth
      then (do
        user ← gets (λ w. Users.get_by_device_id device_id w.users)
        login_known r app_type user)
      else auth_any (login_uid r) (login_token r) device_id app_type r.country r.check_login
  login_device cfg r device_id app_type = if cfg.use_auth then pure login_error else raise

  -- `login`; none is the internal server error.
  unfoldable pub login : Config → Request → Exec World Value
  unfolding revoke_expired
  login cfg r = login_device cfg r r.device_id r.app_type
