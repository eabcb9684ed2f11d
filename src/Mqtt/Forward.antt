-- ===== src/Mqtt/Forward.antt =====
-- Topics in proxy mode: requests of the vendor's cloud, `ProxyClient._handle_messages` of
-- `bumper/mqtt/proxy.py`, and the bots' messages back to it, `on_broker_message_received` of
-- `bumper/mqtt/server.py`. A topic is `iot/p2p/<command>/<sender did>/<sender class>/<sender
-- resource>/<receiver did>/<class>/<resource>/<q or p>/<request id>/<type>`.
pub mod Laws
use bumper.Base.{
  ℕ, String, ◌≡◌, Bool, true, false, ◌&&◌, Option, none, some, List, [], ◌∷◌, ◌==◌, if◌then◌else◌,
  length, ltb, get_elem?, set,
}
use bumper.Text.{split, join}

-- The cache of open requests, from the request to its sender. `cachetools.TTLCache` is not part
-- of the repository: a dictionary that loses entries with time.
pub record RequestCache : Type 1 where
  pub Cache : Type 0
  pub insert : String → String → Cache → Cache
  pub pop : String → Cache → Option String × Cache

pub record CacheLaws (rc : RequestCache) : Type 0 where
  pub pop-insert : (k v : String) (c : rc.Cache) → (rc.pop k (rc.insert k v c)).0 ≡ some v

abbrev pub proxy_helper : String
proxy_helper = "proxyhelper"

-- `s == text` of a piece that may be missing.
abbrev pub is_text : Option String → String → Bool
is_text none t = false
is_text (some s) t = s == t

module _ ⦃rc : RequestCache⦄ where
  -- A request: the sender is noted under the request, and the helper takes its place.
  abbrev note_request :
      List String → Option String → Option String → rc.Cache → Option String × rc.Cache
  note_request ts (some sender) (some request) c =
      (some (join "/" (set ts 3 proxy_helper)), rc.insert request sender c)
  note_request ts sender request c = (none, c)

  abbrev receive_p2p : List String → rc.Cache → Option String × rc.Cache
  receive_p2p ts c =
      if is_text (get_elem? ts 3) proxy_helper
      then (none, c)
      else note_request ts (get_elem? ts 3) (get_elem? ts 10) c

  abbrev receive_kind : String → List String → Option String → rc.Cache → Option String × rc.Cache
  receive_kind topic ts none c = (none, c)
  receive_kind topic ts (some kind) c = if kind == "p2p" then receive_p2p ts c else (some topic, c)

  -- The topic that goes on to the robot; none where the message is dropped, an `IndexError` at a
  -- short topic included.
  unfoldable pub receive : String → rc.Cache → Option String × rc.Cache
  receive topic c = let ts = split "/" topic in receive_kind topic ts (get_elem? ts 1) c

  -- `pop(request, "")`, and the answer's receiver is the sender of the request again.
  abbrev answer : List String → Option String × rc.Cache → Option String × rc.Cache
  answer ts (none, c) = (none, c)
  answer ts (some sender, c) =
      if sender == "" then (none, c) else (some (join "/" (set ts 6 sender)), c)

  abbrev pop_request : List String → Option String → rc.Cache → Option String × rc.Cache
  pop_request ts none c = (none, c)
  pop_request ts (some request) c = answer ts (rc.pop request c)

  abbrev forward_proxied : String → List String → rc.Cache → Option String × rc.Cache
  forward_proxied topic ts c =
      if is_text (get_elem? ts 3) proxy_helper
      then (none, c)
      else if is_text (get_elem? ts 6) proxy_helper
      then pop_request ts (get_elem? ts 10) c
      else (some topic, c)

  -- The topic that goes back to the vendor's cloud; the first argument says whether proxy mode
  -- is on and the client has a proxy.
  unfoldable pub forward : Bool → String → rc.Cache → Option String × rc.Cache
  forward proxied topic c =
      let ts = split "/" topic in
      if ltb (length ts) 7
      then (none, c)
      else if proxied
      then forward_proxied topic ts c
      else (none, c)
