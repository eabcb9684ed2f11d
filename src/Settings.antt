-- ===== src/Settings.antt =====
-- The settings that the modelled code reads, `bumper/utils/settings.py`.
use bumper.Base.{ℕ, String, Bool, List, [], ◌∷◌}

-- What the environment or a deployment decides.
pub record Config : Type 0 where
  pub use_auth : Bool
  pub proxy_mqtt : Bool
  pub sync_timezone : Bool
  pub app_version : String

abbrev pub home_id : String
home_id = "781a0733923f2240cf304757"

abbrev pub user_username_default : String
user_username_default = "bumper"

abbrev pub user_mail_default : String
user_mail_default = "bumper@home.local"

abbrev pub domain_main : String
domain_main = "ecouser.net"

abbrev pub user_realms : List String
user_realms = "ecouser" ∷ "bumper" ∷ "USER" ∷ []

abbrev pub dom_sub_1 : String
dom_sub_1 = ""

abbrev pub dom_sub_2 : String
dom_sub_2 = ""

abbrev pub dom_sub_3 : String
dom_sub_3 = ""

abbrev pub dom_sub_port : String
dom_sub_port = domain_main

abbrev pub domain_ali : String
domain_ali = "globalapp-eu.oss-eu-central-1.aliyuncs.com"

abbrev pub token_validity_seconds : ℕ
token_validity_seconds = 1800

-- The default of the environment's `TOKEN_JWT_ALG`.
abbrev pub token_jwt_alg : String
token_jwt_alg = "ES256"

abbrev pub user_nickname_default : String
user_nickname_default = "bumper"

abbrev pub domain_sec : String
domain_sec = "ecovacs.com"

abbrev pub default_country : String
default_country = "us"

abbrev pub update_server : String
update_server = "3.68.172.231"

abbrev pub update_server_port : ℕ
update_server_port = 8005

-- The default of the environment's `XMPP_LISTEN_PORT_TLS`.
abbrev pub xmpp_port_tls : ℕ
xmpp_port_tls = 5223
