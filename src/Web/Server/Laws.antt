-- ===== src/Web/Server/Laws.antt =====
-- What runs after a start and a shutdown, and what the proxy sends on.
use mathlib.Core.List.{append-nil, append_assoc}
use bumper.Base.{
  ◌≡◌, ◌+◌, ◌<◌, String, refl, true, false, Option, none, some, List, [], ◌∷◌, ◌++◌, ◌==◌,
  if◌then◌else◌, continue, ◌∙◌, modify, ◌>>◌, ap, sym, eq_iff, arith, Bool-cases, inl, inr,
}
use bumper.Text.{append, count}
use bumper.Web.Server.{
  WebserverBinding, Http, Web, start, stop_all, on_net, clear, shutdown, ProxyRequest, base, lookup,
  is_allowed, validate_and_sanitize_url, handle_proxy,
}

count-append : (s t : String) → count (append s t) ≡ count s + count t
unfolding count append
count-append String.[] t = omega arith
count-append (String.◌∷◌ c s) t = let h = count-append s t in omega arith

longer_ne : (a b : String) → count a < count b → (a == b) ≡ false
longer_ne a b h = elim (Bool-cases (a == b)) [
  | inl e ↦ let p : count a ≡ count b = ap count ((eq_iff a b).0 e) in absurd (omega arith)
  | inr e ↦ e
]

not_allowed : (host : String) → 11 < count host → is_allowed (some host) ≡ false
unfolding count
not_allowed host h = rw (longer_ne "ecouser.net" host h, longer_ne "ecovacs.com" host h) refl

-- Each of the two hosts has eleven letters.
allowed_count : (domain : String) → is_allowed (some domain) ≡ true → count domain ≡ 11
unfolding count
allowed_count domain h = elim (Bool-cases ("ecouser.net" == domain)) [
  | inl e ↦ sym (ap count ((eq_iff "ecouser.net" domain).0 e))
  | inr e ↦ elim (Bool-cases ("ecovacs.com" == domain)) [
    | inl k ↦ sym (ap count ((eq_iff "ecovacs.com" domain).0 k))
    | inr k ↦ absurd (ground arith)
  ]
]

subdomain_count :
    (name domain : String)
    → is_allowed (some domain) ≡ true
    → 11 < count (append name (append "." domain))
unfolding count
subdomain_count name domain h =
    let p = count-append name (append "." domain) in
    let q = count-append "." domain in let k = allowed_count domain h in omega arith

-- A request to a subdomain of an allowed host is never sent on: where it is not answered here, it
-- is the internal server error.
pub handle_proxy-subdomain :
    (r : ProxyRequest) (name domain : String)
    → is_allowed (some domain) ≡ true
    → r.url.host ≡ some (append name (append "." domain))
    → handle_proxy r ≡ (
        if r.raw_path == "/"
        then some base
        else if r.raw_path == "/lookup.do"
        then some lookup
        else none)
unfolding handle_proxy validate_and_sanitize_url
handle_proxy-subdomain r name domain h k =
    rw (k, not_allowed (append name (append "." domain)) (subdomain_count name domain h)) refl

-- The runners of a start: those that were there, and one of each binding up to the first that
-- fails, which is noted too.
module _ ⦃http : Http⦄ where
  abbrev pub Begun : List WebserverBinding → Web → Option (Unit {0}) × Web → Type 0
  Begun bs w (r, w') =
      (begun : List WebserverBinding) × ((rest : List WebserverBinding) × ((begun ++ rest ≡ bs)
          × ((w'.runners ≡ w.runners ++ begun) × (r ≡ some tt → rest ≡ []))))

  Begun-next :
      (b : WebserverBinding) (bs : List WebserverBinding) (w : Web) (o : Option (Unit {0}))
      (n : http.Net)
      → ((w' : Web) → Begun bs w' (start bs w'))
      → Begun
          (b ∷ bs)
          w
          (continue (λ u. start bs) o (record w { runners = w.runners ++ b ∷ []; net = n }))
  Begun-next b bs w none n h = (b ∷ [], (bs, (refl, (refl, λ e. absurd cc))))
  Begun-next b bs w (some u) n h =
      let w' : Web = record w { runners = w.runners ++ b ∷ []; net = n } in
      let (begun, (rest, (p, (q, k)))) = h w' in
      (b ∷ begun, (rest, (ap (λ x. b ∷ x) p, (q ∙ append_assoc w.runners (b ∷ []) begun, k))))

  -- A start notes the runners of the bindings one after the other; it stops at the first that
  -- fails, which is noted, and where it succeeds every binding has its runner.
  pub start-Begun : (bs : List WebserverBinding) (w : Web) → Begun bs w (start bs w)
  unfolding start
  start-Begun [] w = ([], ([], (refl, (sym (append-nil w.runners), λ e. refl))))
  start-Begun (b ∷ bs) w =
      Begun-next b bs w (http.serve b w.net).0 (http.serve b w.net).1 (λ w'. start-Begun bs w')

  -- `stop_all` and `shutdown` succeed where neither a runner nor the application raises.
  pub record Stops : Type 0 where
    pub stopped : (b : WebserverBinding) (n : http.Net) → (http.stop b n).0 ≡ some tt
    pub app_stopped : (n : http.Net) → (http.stop_app n).0 ≡ some tt

  stop_rest :
      (bs : List WebserverBinding) (w : Web) (o : Option (Unit {0})) (n : http.Net)
      → o ≡ some tt
      → ((w' : Web) → (stop_all bs w').0 ≡ some tt)
      → (continue (λ u. stop_all bs) o (record w { net = n })).0 ≡ some tt
  stop_rest bs w none n h k = absurd cc
  stop_rest bs w (some u) n h k = k (record w { net = n })

  stop_all-some :
      (laws : Stops) (bs : List WebserverBinding) (w : Web) → (stop_all bs w).0 ≡ some tt
  unfolding stop_all
  stop_all-some laws [] w = refl
  stop_all-some laws (b ∷ bs) w =
      stop_rest bs w (http.stop b w.net).0 (http.stop b w.net).1 (laws.stopped b w.net)
        (λ w'. stop_all-some laws bs w')

  cleared :
      (laws : Stops) (o : Option (Unit {0})) (w : Web)
      → o ≡ some tt
      → let (r, w') = continue (λ u. modify clear >> on_net http.stop_app) o w in
        (r ≡ some tt) × (w'.runners ≡ [])
  cleared laws none w h = absurd cc
  cleared laws (some u) w h = (laws.app_stopped w.net, refl)

  -- Where nothing raises, a shutdown succeeds and no runner is left.
  pub shutdown-cleared :
      (laws : Stops) (w : Web) → ((shutdown w).0 ≡ some tt) × ((shutdown w).1.runners ≡ [])
  unfolding shutdown
  shutdown-cleared laws w =
      cleared laws (stop_all w.runners w).0 (stop_all w.runners w).1
        (stop_all-some laws w.runners w)
