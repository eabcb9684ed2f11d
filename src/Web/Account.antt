-- ===== src/Web/Account.antt =====
-- The account of a user, `bumper/web/plugins/v1/private/user.py`: the logout of a device, and what is
-- told of a user. The fixed answers of the file are left out.
use bumper.Base.{
  String, Bool, true, false, Option, none, some, [], ◌∷◌, ◌==◌, if◌then◌else◌, Exec, pure, gets,
  modify, or_raise, ◌>>=◌, ◌>>◌,
}
use bumper.Settings.{user_username_default, user_mail_default, user_nickname_default, domain_sec}
use bumper.Text.{append, concat}
use bumper.Value.{Value, null, num, pos, str, obj, arr, nil, cons, end, field, dict, Json, shown}
use bumper.Models.{BumperUser}
use bumper.Db.Tiny.{TinyDb}
use bumper.Db.Users
use bumper.Db.Tokens
use bumper.Web.Auth.{World, Env, as_text}
use bumper.Web.Response.{success_v1}

abbrev points : String
points = "Points will be issued 20 days after order payment. Please wait."

abbrev icon_url : Value
icon_url =
    str (
      concat ("https://" ∷ domain_sec ∷ "/public/220628/d01e939518354ee0af5c88a5269e27d8.png" ∷ []))

abbrev member_info : Value
member_info = obj (
    dict (
      ("availableGeneralIntegral", num (pos 0))
      ∷ ("availableLimitedIntegral", num (pos 0))
      ∷ ("benefitList", arr nil)
      ∷ ("expiringLimitedPointShowDesc", null)
      ∷ ("expiringLimitedPoints", null)
      ∷ ("expiringPointDesc", null)
      ∷ ("expiringPointExplain", null)
      ∷ ("expiringPoints", null)
      ∷ ("frozenIntegral", num (pos 0))
      ∷ ("frozenIntegralTips", str points)
      ∷ ("goodsDetailIntegralDesc", str points)
      ∷ ("integral", num (pos 0))
      ∷ (
        "integralDescWapUrl",
        str (concat ("https://" ∷ domain_sec ∷ "/web/page?no=hh3yxg4g" ∷ [])),
      )
      ∷ ("intlMemberMallUrl", str (concat ("https://" ∷ domain_sec ∷ "/us" ∷ [])))
      ∷ ("isCountryOpen", str "Y")
      ∷ ("isLimitedIntegralOpen", str "N")
      ∷ ("isMember", str "Y")
      ∷ ("levelName", str "VIP1")
      ∷ ("remainingDay", null)
      ∷ ("vipLevelIconUrl", icon_url)
      ∷ []))

abbrev third_login : Value
third_login = obj (field "accountType" (str "WeChat") (field "hasBind" (str "N") end))

abbrev account_info : BumperUser → Value
account_info user = obj (
    dict (
      ("email", str user_mail_default)
      ∷ ("hasMobile", str "N")
      ∷ ("hasPassword", str "Y")
      ∷ ("headIco", str "")
      ∷ ("intlMemberInfo", member_info)
      ∷ ("loginName", user.username)
      ∷ ("mobile", null)
      ∷ ("mobileAreaNo", null)
      ∷ ("nickname", str "")
      ∷ ("obfuscatedMobile", null)
      ∷ ("thirdLoginInfoList", arr (cons third_login nil))
      ∷ ("uid", user.userid)
      ∷ ("userName", user.username)
      ∷ ("userShowName", user.username)
      ∷ []))

abbrev member_fields : Json → Value → Value
member_fields json user_name = obj (
    dict (
      ("name", str "smart eco")
      ∷ ("memberNo", str (append "1337." (shown json user_name)))
      ∷ ("userName", user_name)
      ∷ ("integral", null)
      ∷ ("exp", null)
      ∷ ("headIco", null)
      ∷ ("nickName", str user_nickname_default)
      ∷ ("mobile", null)
      ∷ ("email", str user_mail_default)
      ∷ ("isMember", null)
      ∷ ("slogan", null)
      ∷ ("sloganUrl", null)
      ∷ ("expUpNeed", null)
      ∷ ("userlevel", null)
      ∷ ("userlevelName", str "default")
      ∷ ("levelList", null)
      ∷ []))

module _ ⦃db : TinyDb⦄ (env : Env) (json : Json) where
  -- The token is revoked where it is valid.
  abbrev revoke_if : Bool → String → String → World → World
  revoke_if false user_id access_token w = w
  revoke_if true user_id access_token w = record w {
    tokens = Tokens.revoke_token user_id access_token w.tokens;
  }

  abbrev revoke_of : String → Option BumperUser → Exec World (Unit {0})
  revoke_of access_token none = pure tt
  revoke_of access_token (some user) = do
    user_id ← or_raise (as_text user.userid)
    verified ← λ w. (Tokens.verify env.dt env.now user_id access_token w.tokens, w)
    modify (revoke_if verified user_id access_token)

  abbrev revoke_for : Option String → Option String → Exec World (Unit {0})
  revoke_for (some device_id) (some access_token) = do
    user ← gets (λ w. Users.get_by_device_id device_id w.users)
    revoke_of access_token user
  revoke_for device_id access_token = pure tt

  -- `_logout`, of the path's device and the query's token; none is the internal server error.
  unfoldable pub logout : Option String → Option String → Exec World Value
  logout device_id access_token = do
    revoke_for device_id access_token
    pure (success_v1 env.loaded_millis null)

  -- `_handle_get_user_account_info`: an unknown device is the internal server error.
  unfoldable pub get_user_account_info : String → Exec World Value
  get_user_account_info device_id = do
    user ← gets (λ w. Users.get_by_device_id device_id w.users)
    found ← or_raise user
    pure (success_v1 env.loaded_millis (account_info found))

  abbrev name_of : Option BumperUser → Value
  name_of none = str user_username_default
  name_of (some user) = user.username

  abbrev user_for : Option String → World → Option BumperUser
  user_for none w = none
  user_for (some user_id) w = if user_id == "" then none else Users.get_by_id user_id w.users

  -- `_handle_get_member_info`, of the query's `uid`.
  unfoldable pub get_member_info : Option String → Exec World Value
  get_member_info user_id = do
    user ← gets (user_for user_id)
    pure (success_v1 env.loaded_millis (member_fields json (name_of user)))
