-- ===== src/Web/Oauth.antt =====
-- The OAuth callback and its tokens, `bumper/web/auth_service.py`. A JSON web token is made and read by
-- PyJWT, which is a parameter; the signature is not looked at when one is read.
pub mod Laws
use bumper.Base.{
  ◌≡◌, ℕ, ◌+◌, ◌/◌, String, Bool, true, false, not, ◌||◌, Option, none, some, List, [], ◌∷◌, ◌==◌,
  if◌then◌else◌,
}
use bumper.Settings.{token_validity_seconds, token_jwt_alg}
use bumper.Text.{split, starts_with_fold}
use bumper.Value.{Value, null, num, pos, str, obj, Fields, end, field, lookup_or, update}
use bumper.Models.{Datetime, Token, VacBotClient}
use bumper.Db.Tiny.{TinyDb}
use bumper.Db.Clients
use bumper.Db.Tokens
use bumper.Web.Auth.{as_text}
use bumper.Web.Response.{success_v3_data, error_v4}

-- `jwt.encode` with the key of the server, of a payload and headers, none where the key cannot be
-- read; and `jwt.decode` without verification, none for its `DecodeError`.
pub record Jwt : Type 0 where
  pub encode : Fields → Fields → Option String
  pub decode : String → Option Fields

-- What was encoded is decoded as it was.
pub record JwtLaws (jwt : Jwt) : Type 0 where
  pub decode-encode :
      (payload headers : Fields) (token : String)
      → jwt.encode payload headers ≡ some token
      → jwt.decode token ≡ some payload

pub record JwtDetails : Type 0 where
  pub issued_at : Value
  pub expires_at : Value
  pub client_id : Value
  pub user_id : Value
  pub client_resource : Value
  pub auth_code : Value

abbrev get : String → Fields → Value
get k d = lookup_or k null d

abbrev headers : Fields
headers = field "alg" (str token_jwt_alg) (field "typ" (str "JWT") end)

-- The seconds of a moment in microseconds.
abbrev pub seconds : ℕ → ℕ
seconds now = now / 1000000

-- An access token, of the kind `a`, ends at the moment at which it is made.
abbrev pub payload_of : ℕ → Fields → String → Fields
payload_of now data' t =
    let exp = if t == "a" then seconds now else seconds now + token_validity_seconds in
    update
      (field "t" (str t) (field "iat" (num (pos (seconds now))) (field "exp" (num (pos exp)) end)))
      data'

abbrev details_of : Fields → JwtDetails
details_of payload = record {
  issued_at = get "iat" payload;
  expires_at = get "exp" payload;
  client_id = get "c" payload;
  user_id = get "u" payload;
  client_resource = get "r" payload;
  auth_code = get "ac" payload;
}

abbrev read_details : Option Fields → Option JwtDetails
read_details none = none
read_details (some payload) = some (details_of payload)

abbrev second : List String → Option String
second (a ∷ b ∷ more) = some b
second pieces = none

abbrev client_id : Option VacBotClient → Value
client_id none = null
client_id (some client) = client.userid

abbrev client_resource : Option VacBotClient → Value
client_resource none = null
client_resource (some client) = client.resource

abbrev pub claims : Token → Option VacBotClient → Value → Fields
claims token client auth_code =
    field "c" (client_id client)
      (field "u" token.userid (field "r" (client_resource client) (field "ac" auth_code end)))

abbrev pub granted : Token → String → String → ℕ → Value
granted token access_token refresh_token expire_at = success_v3_data (
    obj (
      field "userId" token.userid (
        field "access_token" (str access_token) (
          field "refresh_token" (str refresh_token)
            (field "expire_at" (num (pos expire_at)) end)))))

abbrev pub grant : Token → Option (String × ℕ) → Option (String × ℕ) → Option Value
grant token (some (access_token, a)) (some (refresh_token, expire_at)) =
    some (granted token access_token refresh_token expire_at)
grant token a r = none

abbrev pub with_end : ℕ → Option String → Option (String × ℕ)
with_end ends none = none
with_end ends (some token) = some (token, ends)

module _ (jwt : Jwt) where
  -- `generate_jwt_helper`: the token and when it ends.
  unfoldable pub generate_jwt : ℕ → Fields → String → Option (String × ℕ)
  generate_jwt now data' t =
      with_end (seconds now + token_validity_seconds) (jwt.encode (payload_of now data' t) headers)

  -- `_extract_jwt_details`
  unfoldable pub extract_jwt_details : Option String → Option JwtDetails
  extract_jwt_details none = none
  extract_jwt_details (some token) = read_details (jwt.decode token)

  -- `get_jwt_details`, of the header of an authorization.
  unfoldable pub get_jwt_details : Option String → Option JwtDetails
  unfolding extract_jwt_details
  get_jwt_details none = none
  get_jwt_details (some auth_header) =
      if starts_with_fold "bearer " auth_header
      then extract_jwt_details (second (split " " auth_header))
      else none

  abbrev code_in : Option JwtDetails → Option Value
  code_in none = none
  code_in (some details) = some details.auth_code

  abbrev present : Option Value → Option Value
  present (some null) = none
  present o = o

  -- `_get_auth_code`, of the query's `code` and `refresh_token`.
  unfoldable pub get_auth_code : Option String → Option String → Option Value
  unfolding extract_jwt_details
  get_auth_code (some code) refresh_token = some (str code)
  get_auth_code none refresh_token = present (code_in (extract_jwt_details refresh_token))

  abbrev pub tokens_for : ℕ → Token → Option VacBotClient → Value → Option Value
  tokens_for now token client auth_code =
      grant token (generate_jwt now (claims token client auth_code) "a")
        (generate_jwt now (claims token client auth_code) "r")

module _ ⦃db : TinyDb⦄ (jwt : Jwt) (dt : Datetime) where
  abbrev client_of : Token → db.Table → Option (Option VacBotClient)
  client_of token clients = elim (as_text token.userid) [
    | none ↦ none
    | some u ↦ some (Clients.get u clients)
  ]

  abbrev for_client : ℕ → Token → Value → Option (Option VacBotClient) → Option Value
  for_client now token auth_code none = none
  for_client now token auth_code (some client) = tokens_for jwt now token client auth_code

  -- Outside is the exception at a token that cannot be read.
  abbrev for_token : ℕ → Value → db.Table → Option (Option Token) → Option Value
  for_token now auth_code clients none = none
  for_token now auth_code clients (some none) = some (error_v4 "Auth code not known")
  for_token now auth_code clients (some (some token)) =
      for_client now token auth_code (client_of token clients)

  -- A code that is no text is not known of any token.
  abbrev for_text : ℕ → Value → db.Table → db.Table → Option String → Option Value
  for_text now auth_code tokens clients none = some (error_v4 "Auth code not known")
  for_text now auth_code tokens clients (some code) =
      for_token now auth_code clients (Tokens.get_by_auth_code dt code tokens)

  abbrev pub for_code : ℕ → db.Table → db.Table → Option Value → Option Value
  for_code now tokens clients none = some (error_v4 "You not provide a auth_code")
  for_code now tokens clients (some auth_code) =
      for_text now auth_code tokens clients (as_text auth_code)

  -- `oauth_callback`, at the query's `code` and `refresh_token`; none is the internal server error.
  unfoldable pub oauth_callback :
      ℕ → Option String → Option String → db.Table → db.Table → Option Value
  unfolding get_auth_code generate_jwt
  oauth_callback now code refresh_token tokens clients =
      for_code now tokens clients (get_auth_code jwt code refresh_token)
