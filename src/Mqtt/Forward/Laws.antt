-- ===== src/Mqtt/Forward/Laws.antt =====
-- An answer finds the sender of its request again.
use bumper.Base.{
  ℕ, zero, suc, ◌<◌, String, ◌≡◌, ◌≢◌, true, false, some, List, [], ◌∷◌, arith, length, ltb,
  get_elem?, set, ==_ne,
}
use bumper.Text.{split, join}
use bumper.Mqtt.Forward.{RequestCache, CacheLaws, proxy_helper, answer, receive, forward, is_text}

get_elem?-length : (xs : List String) (i : ℕ) {x : String} → get_elem? xs i ≡ some x → i < length xs
get_elem?-length [] i h = cc
get_elem?-length (y ∷ xs) zero h = omega arith
get_elem?-length (y ∷ xs) (suc i) h = omega (arith, get_elem?-length xs i h)

seventh_exists : (n : ℕ) → 10 < n → ltb n 7 ≡ false
seventh_exists n h = ground arith

module _ ⦃rc : RequestCache⦄ (laws : CacheLaws rc) where
  answered :
      (topic id sender : String) (c : rc.Cache)
      → (rc.pop id c).0 ≡ some sender
      → sender ≢ ""
      → (answer (split "/" topic) (rc.pop id c)).0
        ≡ some (join "/" (set (split "/" topic) 6 sender))
  answered topic id sender c h ne = ground (arith, ==_ne sender "" ne)

  -- A peer-to-peer request whose topic has a sender, neither empty nor the helper, and a request
  -- identifier goes on to the robot with the helper in the sender's place. An answer under that
  -- identifier, from another sender to the helper and next to use the cache, goes back to the
  -- cloud with the sender of the request in the receiver's place.
  pub forward-receive :
      (request reply sender id : String) (c : rc.Cache)
      → get_elem? (split "/" request) 1 ≡ some "p2p"
      → get_elem? (split "/" request) 3 ≡ some sender
      → get_elem? (split "/" request) 10 ≡ some id
      → sender ≢ proxy_helper
      → sender ≢ ""
      → is_text (get_elem? (split "/" reply) 3) proxy_helper ≡ false
      → get_elem? (split "/" reply) 6 ≡ some proxy_helper
      → get_elem? (split "/" reply) 10 ≡ some id
      → ((receive request c).0 ≡ some (join "/" (set (split "/" request) 3 proxy_helper)))
        × ((forward true reply (receive request c).1).0
            ≡ some (join "/" (set (split "/" reply) 6 sender)))
  unfolding receive forward
  forward-receive request reply sender id c p2p from req ne nonempty third sixth ans = (
    rw (p2p, from, req, ==_ne sender proxy_helper ne),
    rw
        (
          p2p,
          from,
          req,
          ==_ne sender proxy_helper ne,
          seventh_exists (length (split "/" reply)) (get_elem?-length (split "/" reply) 10 ans),
          third,
          sixth,
          ans,
        )
        (answered reply id sender (rc.insert id sender c) (laws.pop-insert id sender c) nonempty),
  )
