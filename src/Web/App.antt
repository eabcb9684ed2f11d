-- ===== src/Web/App.antt =====
-- `_handle_app_do` of `bumper/web/plugins/api/appsvr.py` with its tasks. A body is given as the value
-- that is read of it, none where the reading raises; what `urlparse` and `parse_qs` find in a code is
-- a function.
pub mod Properties
pub mod Queries
use bumper.Base.{
  ℕ, String, Bool, true, false, not, ◌&&◌, Option, none, some, is_some, List, [], ◌∷◌,
  if◌then◌else◌, Exec, pure, raise, gets, or_raise, ◌>>=◌,
}
use bumper.Settings.{dom_sub_port, domain_ali}
use bumper.Text.{concat}
use bumper.Value.{
  Value, null, bool, str, obj, arr, Items, nil, cons, Fields, end, field, lookup_or, insert,
  value_eq, Json,
}
use bumper.Db.Tiny.{TinyDb}
use bumper.Mqtt.Command.{Command, new_command, version_p2p}
use bumper.Mqtt.Helper.{CommandCache, Bot, send_command_plain}
use bumper.Mqtt.Helper.Send.{Response, json_response, send_command}
use bumper.Web.Response.{success_v2, error_v5}
use bumper.Web.Devices.{create_device_list}
use bumper.Web.Devices.QrCode.{decode_qr_code}

-- What a request reads or writes: the robots of the shared configuration and the helper bot, if
-- there is one.
pub record App ⦃db : TinyDb⦄ ⦃cc : CommandCache⦄ : Type 0 where
  pub robots : List Fields
  pub helperbot : Option Bot

-- What is given of a request: the moment, the product map, the identifier that is drawn for a
-- command, the messages that come while it waits, and what is found in a code.
pub record AppRequest : Type 0 where
  pub now : ℕ
  pub products : List Fields
  pub request_id : String
  pub messages : List (String × String)
  pub find_query : String → String → Option String

unfoldable pub objects : List Fields → Items
objects [] = nil
objects (d ∷ ds) = cons (obj d) (objects ds)

abbrev code_push : Value
code_push =
    obj (field "extend" (obj end) (field "type" (str "microsoft") (field "url" (str "") end)))

abbrev video_key : String
video_key = "t9_promotional_video"

abbrev video_url : Value
video_url = str (concat ("https://" ∷ domain_ali ∷ "/public/t9_promotional_video.mp4" ∷ []))

-- The one video that is known.
unfoldable pub videos : Items → Fields → Fields
videos nil d = d
videos (cons k ks) d =
    if value_eq k (str video_key) then videos ks (insert video_key video_url d) else videos ks d

abbrev protocol_url : String → String → Value
protocol_url version type = str (
    concat (
      "https://" ∷ dom_sub_port ∷ "/api/pim/protocol.html?version=" ∷ version
      ∷ "&lang=en&defaultLang=en&country=DE&type=" ∷ type ∷ []))

abbrev protocol : String → String → Bool → Value
protocol version type accept = obj (
    field "version" (str version) (
      field "hasNewProtocol" (bool false) (
        field "hasReadOld" (bool true)
          (field "isAccept" (bool accept) (field "protocolUrl" (protocol_url version type) end)))))

abbrev protocols : Value
protocols = obj (
    field "video" (protocol "13.01" "video" true)
      (field "improve" (protocol "11.15" "improve" false) end))

abbrev success : Value → Value
success data' = success_v2 data' (some 0) "data" "ret"

abbrev text_or_null : Option String → Value
text_or_null none = null
text_or_null (some s) = str s

module _ ⦃db : TinyDb⦄ ⦃cc : CommandCache⦄ (json : Json) (r : AppRequest) where
  abbrev device_list : db.Table → Exec App Value
  device_list bots = do
    robots ← gets (λ s. s.robots)
    devices ←
        or_raise (create_device_list r.now (record { products = r.products; robots = robots }) bots)
    pure (success_v2 (arr (objects devices)) (some 0) "devices" "ret")

  -- A command over the helper bot.
  abbrev send_on : Command → Bot → Exec App Response
  send_on cmd b s =
      let (v, b') = send_command_plain json r.messages cmd b in
      (send_command json cmd v, record s { helperbot = some b' })

  -- Without a helper bot none of the later tests holds, and the task is unknown.
  abbrev send_if : Command → Option Bot → Exec App Response
  send_if cmd none = pure (json_response error_v5)
  send_if cmd (some b) = send_on cmd b

  abbrev command_in : Value → Option Command
  command_in (obj cmd_json) = new_command json r.request_id cmd_json version_p2p
  command_in v = none

  -- The first entry of `ctl` is the command: an empty one raises.
  abbrev control_first : Fields → Exec App Response
  control_first end = raise
  control_first (field k v d) = do
    cmd ← or_raise (command_in v)
    helperbot ← gets (λ s. s.helperbot)
    send_if cmd helperbot

  abbrev control_ctl : Value → Exec App Response
  control_ctl (obj ctl) = control_first ctl
  control_ctl v = pure (json_response error_v5)

  -- `RobotControl`
  unfoldable pub robot_control : Value → Exec App Response
  robot_control (obj data') = control_ctl (lookup_or "ctl" null data')
  robot_control v = pure (json_response error_v5)

  abbrev app_video_url : Value → Value
  app_video_url (arr keys) = success (obj (videos keys end))
  app_video_url v = error_v5

  abbrev decode_on : Option String → Option String → Exec App Value
  decode_on sn mid s =
      let (v, robots') = decode_qr_code r.products (text_or_null sn) (text_or_null mid) s.robots in
      (v, record s { robots = robots' })

  -- `DecodeQrCode`
  unfoldable pub decode_qr : Value → Exec App Value
  decode_qr (str qrcode) =
      (let sn = r.find_query "sn" qrcode in
        let mid = r.find_query "mid" qrcode in
        if not (is_some sn) && not (is_some mid)
        then pure (success (obj end))
        else (do v ← decode_on sn mid; pure (success v)))
  decode_qr v = pure (success (obj end))

  abbrev as_json : Exec App Value → Exec App Response
  as_json m = do v ← m; pure (json_response v)

  -- `_handle_app_do` at a dictionary.
  unfoldable pub app_do : db.Table → Fields → Exec App Response
  unfolding objects videos robot_control decode_qr
  app_do bots body =
      (let todo = lookup_or "todo" (str "") body in
        if value_eq todo (str "GetGlobalDeviceList")
        then as_json (device_list bots)
        else if value_eq todo (str "GetCodepush")
        then pure (json_response (success code_push))
        else if value_eq todo (str "RobotControl")
        then robot_control (lookup_or "data" (obj end) body)
        else if value_eq todo (str "GetAppVideoUrl")
        then pure (json_response (app_video_url (lookup_or "keys" (arr nil) body)))
        else if value_eq todo (str "GetDeviceProtocolV2")
        then pure (json_response (success protocols))
        else if value_eq todo (str "DecodeQrCode")
        then as_json (decode_qr (lookup_or "qrcode" (str "") body))
        else pure (json_response error_v5))

  -- `_handle_app_do`; none is the internal server error.
  unfoldable pub handle_app_do : db.Table → Option Value → Exec App Response
  unfolding app_do
  handle_app_do bots (some (obj body)) = app_do bots body
  handle_app_do bots body = raise
