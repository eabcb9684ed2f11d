-- ===== src/Web/Response.antt =====
-- The JSON bodies of responses, `bumper/web/utils/response_helper.py`. The default time of a
-- success is the moment at which the module was loaded; an error reads the clock.
use bumper.Base.{ℕ, String, Bool, true, false, Option, none, some, if◌then◌else◌}
use bumper.Value.{pos, Value, null, bool, num, str, obj, Fields, end, field, insert}

abbrev pub return_api_success : String
return_api_success = "0000"

abbrev pub err_common : String
err_common = "0001"

abbrev pub err_token_invalid : String
err_token_invalid = "0004"

abbrev pub err_user_disable : String
err_user_disable = "1004"

abbrev pub success_v1 : ℕ → Value → Value
success_v1 loaded data' = obj (
    field "code" (str return_api_success) (
      field "data" data' (
        field "msg" (str "The operation was successful")
          (field "success" (bool true) (field "time" (num (pos loaded)) end)))))

abbrev with_code : Option ℕ → Fields → Fields
with_code none d = d
with_code (some n) d = insert "code" (num (pos n)) d

-- `null` stands for the missing data; the key is written in any case.
abbrev pub success_v2 : Value → Option ℕ → String → String → Value
success_v2 data' code data_key result_key = obj (
    with_code code
      (insert data_key data' (insert result_key (str "ok") (field "todo" (str "result") end))))

abbrev pub error_v1 : ℕ → String → String → Value
error_v1 now msg code =
    obj (field "code" (str code) (field "msg" (str msg) (field "time" (num (pos now)) end)))

abbrev pub error_v2 : String → String → Value
error_v2 msg code = obj (
    field "errno" (str code)
      (field "error" (str msg) (field "result" (str "fail") (field "todo" (str "result") end))))

abbrev pub error_v8 : String → String → Value
error_v8 request_id error = obj (
    field "id" (str request_id)
      (field "errno" (num (pos 500)) (field "ret" (str "fail") (field "debug" (str error) end))))

abbrev pub error_v9 : ℕ → String → String → Value
error_v9 now msg code = obj (
    field "code" (str code) (
      field "msg" (str msg)
        (field "time" (num (pos now)) (field "data" null (field "success" (bool false) end)))))

abbrev pub error_v7 : Value
error_v7 =
    obj (field "ret" (str "fail") (field "errno" (num (pos 1)) (field "error" (str "unknown") end)))

-- The optional parts of a success: a result, data, and the flag of success.
abbrev with_value : Option (String × Value) → Fields → Fields
with_value none d = d
with_value (some (k, v)) d = insert k v d

abbrev pub success_v3 :
    ℕ → Option (String × Value) → String → String → Option (String × Value) → Bool → Value
success_v3 code data' msg msg_key result include_success =
    let d = insert msg_key (str msg) (field "code" (num (pos code)) end) in
    let e = with_value data' (with_value result d) in
    obj (if include_success then insert "success" (bool true) e else e)

-- `response_success_v3(data=data)`
abbrev pub success_v3_data : Value → Value
success_v3_data data' =
    success_v3 0 (some ("data", data')) "success" "message" (some ("ret", str "ok")) false

abbrev pub success_v4 : Value → ℕ → String → Value
success_v4 data' code data_key = obj (insert data_key data' (field "code" (num (pos code)) end))

abbrev pub error_v3 : String → String → Value
error_v3 msg code = error_v2 msg code

abbrev pub error_v4 : String → Value
error_v4 msg =
    obj (field "todo" (str "result") (field "ret" (str "fail") (field "errno" (str msg) end)))

abbrev pub error_v5 : Value
error_v5 = obj (
    field "todo" (str "result") (
      field "ret" (str "fail") (
        field "err" (num (pos 2004))
          (field "errno" (num (pos 2004)) (field "code" (num (pos 2004)) end)))))

abbrev pub unknown_todo : String
unknown_todo = "Error request, unknown todo"

abbrev pub error_v6 : String → String → Value
error_v6 debug error = obj (
    field "todo" (str "result") (
      field "result" (str "fail")
        (field "errno" (num (pos 1)) (field "error" (str error) (field "debug" (str debug) end)))))
