-- ===== src/Web/SinglePaths/Archive.antt =====
-- The archive of certificates, `handle_ca_certificates` of `bumper/web/single_paths.py`. Bytes are
-- texts here; `tarfile` is a function
-- that packs members; where it raises it may leave a file behind.
use bumper.Base.{
  ℕ, Char, code, String, Bool, false, nat_eq, Option, none, some, List, [], ◌∷◌, if◌then◌else◌,
}
use bumper.Text.{append}

pub data Read : Type 0 where
  missing : Read
  unreadable : Read
  content : String → Read

-- What a request sees and leaves: the files of the two certificates, what has been read of them
-- once, and the archive.
pub record Files : Type 0 where
  pub ca_cert : Read
  pub original : Read
  pub cached_ca : Option String
  pub cached_original : Option String
  pub archive : Option String

pub data Packed : Type 0 where
  done : String → Packed
  broken : Option String → Packed

pub data Answer : Type 0 where
  file : String → Answer
  plain : ℕ → Answer

abbrev last_is : Char → Bool → String → Bool
last_is c b String.[] = b
last_is c b (String.◌∷◌ d s) = last_is c (nat_eq (code d) (code c)) s

-- `s.endswith(c)`
unfoldable pub ends_with_char : Char → String → Bool
ends_with_char c s = last_is c false s

unfoldable pub with_newline : String → String
unfolding ends_with_char
with_newline s = if ends_with_char "\n" s then s else append s "\n"

abbrev answer_of : ℕ → Option Answer
answer_of status = some (plain status)

-- `_get_ca_cert`: the status of an error, or the certificate. An error is not cached.
abbrev pub read_cert :
    Option String
    → Read
    → (String → Option Answer × Files)
    → (ℕ → Option Answer × Files)
    → Option Answer × Files
read_cert (some cert) r use_cert fail = use_cert cert
read_cert none missing use_cert fail = fail 404
read_cert none unreadable use_cert fail = fail 500
read_cert none (content cert) use_cert fail = use_cert cert

module _ (md5 : String → String) (pack : List (String × String) → Packed) where
  -- The members of the archive.
  abbrev pub members : String → List (String × String)
  members bundle =
      ("ca-certificates/ca-certificates.crt", bundle)
      ∷ ("ca-certificates/MD5SUMS", append (md5 bundle) "\n")
      ∷ []

  abbrev packed : Packed → Files → Option Answer × Files
  packed (broken left) s = (answer_of 500, record s { archive = left })
  packed (done tar) s = (some (file tar), record s { archive = some tar })

  abbrev create_with : String → Files → Option Answer × Files
  create_with bundle s = packed (pack (members bundle)) s

  abbrev add_original : String → Files → Option Answer × Files
  add_original cert s =
      read_cert s.cached_original s.original
        (λ original.
          create_with (append (with_newline cert) original)
            (record s { cached_original = some original }))
        (λ status. (answer_of status, s))

  -- `_create_ca_tar_file`, with the switch `CA_CERT_API_ONLY_BUMPER_CERT`.
  unfoldable pub create_ca_tar_file : Bool → Files → Option Answer × Files
  unfolding with_newline
  create_ca_tar_file only_bumper s =
      read_cert s.cached_ca s.ca_cert
        (λ cert.
          let s' = record s { cached_ca = some cert } in
          if only_bumper then create_with cert s' else add_original cert s')
        (λ status. (answer_of status, s))

  abbrev serve : Bool → Files → Option String → Option Answer × Files
  serve only_bumper s none = create_ca_tar_file only_bumper s
  serve only_bumper s (some tar) = (some (file tar), s)

  -- `handle_ca_certificates`
  unfoldable pub handle_ca_certificates : Bool → Files → Option Answer × Files
  unfolding create_ca_tar_file
  handle_ca_certificates only_bumper s = serve only_bumper s s.archive
