-- ===== src/Certs/Generate.antt =====
-- The making of the certificates, `generate_certificates` of `bumper/utils/certs.py`. Keys and
-- certificates are given by `cryptography`, as the texts that are written.
use bumper.Base.{
  ℕ, String, Bool, true, false, not, ◌&&◌, Option, none, some, is_some, List, [], ◌∷◌, ◌==◌, leb,
  contains, if◌then◌else◌, Exec, pure, gets, modify, or_raise, raise_if, ◌>>=◌, ◌>>◌,
}
use bumper.Text.{concat, starts_with, drop_chars}
use bumper.Certs.{build_san_list}

-- An address is checked by `ip_address`, which may raise.
pub data GeneralName : Type 0 where
  ip : String → GeneralName
  dns : String → GeneralName

abbrev add_name : GeneralName → Option (List GeneralName) → Option (List GeneralName)
add_name n none = none
add_name n (some ns) = some (n ∷ ns)

abbrev add_ip : Bool → String → Option (List GeneralName) → Option (List GeneralName)
add_ip false address ns = none
add_ip true address ns = add_name (ip address) ns

-- `_parse_san_list`
unfoldable pub parse_names : (String → Bool) → List String → Option (List GeneralName)
parse_names is_ip [] = some []
parse_names is_ip (san ∷ sans) =
    let rest = parse_names is_ip sans in
    if starts_with "IP:" san
    then add_ip (is_ip (drop_chars 3 san)) (drop_chars 3 san) rest
    else if starts_with "DNS:" san
    then add_name (dns (drop_chars 4 san)) rest
    else rest

-- The keys that are drawn, and the certificates that are made of keys and names.
pub record Crypto : Type 0 where
  pub is_ip : String → Bool
  pub ca_key : String
  pub server_key : String
  pub ca_certificate : String → String
  pub server_certificate : String → String → String → List GeneralName → String

pub record CertConfig : Type 0 where
  pub key_type : String
  pub rsa_key_size : ℕ
  pub domains : List String

-- The files, each with its content where it exists.
pub record CertFiles : Type 0 where
  pub ca_cert : Option String
  pub ca_key : Option String
  pub server_cert : Option String
  pub server_key : Option String
  pub ca_pem : Option String

abbrev all_exist : CertFiles → Bool
all_exist f = is_some f.ca_cert && (is_some f.server_cert && is_some f.server_key)

-- `_generate_key`: the length of an RSA key is checked.
abbrev generate_key : CertConfig → String → Option String
generate_key cfg key =
    if cfg.key_type == "rsa"
    then if leb 2048 cfg.rsa_key_size && leb cfg.rsa_key_size 4096 then some key else none
    else some key

module _ (crypto : Crypto) (cfg : CertConfig) where
  abbrev write_ca : String → String → CertFiles → CertFiles
  write_ca key cert f = record f { ca_key = some key; ca_cert = some cert }

  abbrev write_server : String → String → String → CertFiles → CertFiles
  write_server key cert ca_cert f = record f {
    server_key = some key;
    server_cert = some cert;
    ca_pem = some (concat (key ∷ cert ∷ ca_cert ∷ []));
  }

  abbrev generate_all : Exec CertFiles Bool
  generate_all = do
    ca_key ← or_raise (generate_key cfg crypto.ca_key)
    let ca_cert = crypto.ca_certificate ca_key
    modify (write_ca ca_key ca_cert)
    server_key ← or_raise (generate_key cfg crypto.server_key)
    names ← or_raise (parse_names crypto.is_ip (build_san_list cfg.domains))
    let cert = crypto.server_certificate server_key ca_key ca_cert names
    modify (write_server server_key cert ca_cert)
    pure true

  -- `generate_certificates`
  unfoldable pub generate_certificates : Exec CertFiles Bool
  unfolding parse_names
  generate_certificates = do
    raise_if (not (contains ("ec" ∷ "rsa" ∷ []) cfg.key_type))
    exist ← gets all_exist
    if exist then pure false else generate_all
