-- ===== src/Web/Server.antt =====
-- The web server, `bumper/web/server.py`: its runners, and what becomes of a request in proxy mode.
-- aiohttp, TLS and yarl are not part of the repository.
pub mod Laws
use bumper.Base.{
  ◌≡◌, ℕ, String, Bool, true, false, not, ◌&&◌, ◌||◌, Option, none, some, List, [], ◌∷◌, ◌++◌, ◌==◌,
  ltb, contains, if◌then◌else◌, Exec, pure, raise, gets, modify, or_raise, ◌>>=◌, ◌>>◌,
}

pub record WebserverBinding : Type 0 where
  pub host : String
  pub port : ℕ
  pub use_ssl : Bool

-- What is used of aiohttp: the setup of a runner with the loading of its certificates and the start
-- of its site, its shutdown and cleanup, and those of the application. Each may raise.
pub record Http : Type 1 where
  pub Net : Type 0
  pub serve : WebserverBinding → Exec Net (Unit {0})
  pub stop : WebserverBinding → Exec Net (Unit {0})
  pub stop_app : Exec Net (Unit {0})

-- A runner is known by the binding that it was made for.
pub record Web ⦃http : Http⦄ : Type 0 where
  pub runners : List WebserverBinding
  pub net : http.Net

module _ ⦃http : Http⦄ where
  abbrev pub on_net : Exec http.Net (Unit {0}) → Exec Web (Unit {0})
  on_net m w = let (r, n) = m w.net in (r, record w { net = n })

  abbrev add_runner : WebserverBinding → Web → Web
  add_runner b w = record w { runners = w.runners ++ b ∷ [] }

  -- `start`: a runner is noted before it is set up.
  unfoldable pub start : List WebserverBinding → Exec Web (Unit {0})
  start [] = pure tt
  start (b ∷ bs) = do modify (add_runner b); on_net (http.serve b); start bs

  unfoldable pub stop_all : List WebserverBinding → Exec Web (Unit {0})
  stop_all [] = pure tt
  stop_all (b ∷ bs) = do on_net (http.stop b); stop_all bs

  abbrev clear : Web → Web
  clear w = record w { runners = [] }

  -- `shutdown`
  unfoldable pub shutdown : Exec Web (Unit {0})
  unfolding stop_all
  shutdown = do
    runners ← gets (λ w. w.runners)
    stop_all runners
    modify clear
    on_net http.stop_app

-- The address of a request: its host, and what it is as a text without query and fragment.
pub record Url : Type 0 where
  pub host : Option String
  pub bare : String

abbrev allowed_hosts : List String
allowed_hosts = "ecouser.net" ∷ "ecovacs.com" ∷ []

abbrev is_allowed : Option String → Bool
is_allowed none = false
is_allowed (some host) = contains allowed_hosts host

-- `_validate_and_sanitize_url`: none is its `ValueError`.
unfoldable pub validate_and_sanitize_url : Url → Option String
validate_and_sanitize_url url = if is_allowed url.host then some url.bare else none

pub record ProxyRequest : Type 0 where
  pub raw_path : String
  pub url : Url
  pub total_bytes : ℕ
  pub content_type : String
  pub method : String

pub data BodyKind : Type 0 where
  no_body form json_body : BodyKind

-- What is done with a request: it is answered here, or sent on.
pub data Proxied : Type 0 where
  base : Proxied
  lookup : Proxied
  forward : String → String → BodyKind → Proxied

abbrev body_kind : ProxyRequest → BodyKind
body_kind r =
    if ltb 0 r.total_bytes
    then if r.content_type == "application/x-www-form-urlencoded" then form else json_body
    else no_body

abbrev forward_to : ProxyRequest → Option String → Option Proxied
forward_to r none = none
forward_to r (some url) = some (forward r.method url (body_kind r))

-- `_handle_proxy` up to the request that is made; none is the internal server error.
unfoldable pub handle_proxy : ProxyRequest → Option Proxied
unfolding validate_and_sanitize_url
handle_proxy r =
    if r.raw_path == "/"
    then some base
    else if r.raw_path == "/lookup.do"
    then some lookup
    else forward_to r (validate_and_sanitize_url r.url)
