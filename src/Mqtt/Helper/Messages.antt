-- ===== src/Mqtt/Helper/Messages.antt =====
-- What the messages that arrive do to the open commands.
use bumper.Base.{
  ℕ, String, ◌≡◌, refl, ◌≢◌, Bool, true, false, ◌&&◌, Option, none, some, List, [], ◌∷◌, arith,
  ◌==◌, eq_iff, if◌then◌else◌, nat_eq, get_elem?, Bool-cases, Option-cases, inl, inr, ==_self, sym,
  ap, ◌∙◌,
}
use bumper.Text.{split}
use bumper.Value.{Json}
use bumper.Db.Tiny.{TinyDb}
use bumper.Mqtt.Helper.{
  connect, loop_on, CommandDto, CommandCache, Bot, add_response, on_message, deliver, on_atr,
  on_p2p, report, is_stats, answer,
}

-- The topic is that of an answer to the request.
abbrev is_this : Option String → String → Bool
is_this none t = false
is_this (some s) t = s == t

abbrev pub answers : String → String → Bool
answers request_id topic =
    is_this (get_elem? (split "/" topic) 1) "p2p"
    && is_this (get_elem? (split "/" topic) 10) request_id

-- The last answer to the request among the messages, if any.
unfoldable pub last_answer : String → List (String × String) → Option String → Option String
last_answer request_id [] found = found
last_answer request_id ((topic, payload) ∷ ms) found =
    last_answer request_id ms (if answers request_id topic then some payload else found)

pub nat_eq_self : (n : ℕ) → nat_eq n n ≡ true
nat_eq_self n = ground arith

same_nat : (m n : ℕ) → nat_eq m n ≡ true → m ≡ n
same_nat m n h = ground arith

true-ne-false : true ≢ false
true-ne-false h = cc

abbrev pub answered_by : String → List (String × String) → CommandDto → CommandDto
answered_by request_id ms d = record d { response = last_answer request_id ms d.response }

if-response :
    (b : Bool) (f : Option String → Option String) (payload : String) (d : CommandDto)
    → (let e : CommandDto = if b then record d { response = some payload } else d in
        record e { response = f e.response })
      ≡ record d { response = f (if b then some payload else d.response) }
if-response true f payload d = refl
if-response false f payload d = refl

module _ ⦃db : TinyDb⦄ ⦃cc : CommandCache⦄ (json : Json) where
  -- Only the request leads to the place.
  abbrev pub Leads : String → ℕ → Bot → Type 0
  Leads request_id n b =
      (cc.find request_id b.commands ≡ some n)
      × ((j : String) → cc.find j b.commands ≡ some n → j ≡ request_id)

  -- The same commands are open, and nothing was published.
  abbrev pub SameOpen : Bot → Bot → Type 0
  SameOpen b b' = (b'.commands ≡ b.commands) × ((b'.place ≡ b.place) × (b'.published ≡ b.published))

  -- Nothing that belongs to a command is changed.
  abbrev Keeps : Bot → Bot → Type 0
  Keeps b b' = ((n : ℕ) → b'.dtos n ≡ b.dtos n) × SameOpen b b'

  report-Keeps :
      (did rid : Option String) (payload : String) (b : Bot)
      → Keeps b (report json did rid payload b).1
  report-Keeps none rid payload b = (λ n. refl, (refl, (refl, refl)))
  report-Keeps (some did) none payload b = (λ n. refl, (refl, (refl, refl)))
  report-Keeps (some did) (some rid) payload b = (λ n. refl, (refl, (refl, refl)))

  on_atr-Keeps :
      (ts : List String) (payload : String) (b : Bot) → Keeps b (on_atr json ts payload b).1
  on_atr-Keeps ts payload b = elim (Bool-cases (is_stats json (get_elem? ts 2))) [
    | inl e ↦ rw e (report-Keeps (get_elem? ts 3) (get_elem? ts 5) payload b)
    | inr e ↦ rw e (λ n. refl, (refl, (refl, refl)))
  ]

  dtos-answer :
      (payload rid request_id : String) (n : ℕ) (b : Bot)
      → Leads request_id n b
      → (answer json payload (cc.find rid b.commands) b).dtos n
        ≡ (if rid == request_id then record (b.dtos n) { response = some payload } else b.dtos n)
  unfolding add_response
  dtos-answer payload rid request_id n b (here, only) = elim (Bool-cases (rid == request_id)) [
    | inl e ↦
        let p : rid ≡ request_id = (eq_iff rid request_id).0 e in
        rw (p, here, ==_self request_id, nat_eq_self n)
    | inr e ↦ elim (Option-cases (cc.find rid b.commands)) [
      | inl absent ↦ rw (e, absent)
      | inr (m, found) ↦ elim (Bool-cases (nat_eq m n)) [
        | inl k ↦
            let q : m ≡ n = same_nat m n k in
            let p : rid ≡ request_id = only rid (found ∙ ap some q) in
            absurd (true-ne-false (sym ((eq_iff rid request_id).1 p) ∙ e))
        | inr k ↦ rw (e, found, k)
      ]
    ]
  ]

  dtos-on_p2p :
      (ts : List String) (payload request_id : String) (n : ℕ) (b : Bot)
      → Leads request_id n b
      → (on_p2p json ts (get_elem? ts 10) payload b).1.dtos n ≡ (
          if is_this (get_elem? ts 10) request_id
          then record (b.dtos n) { response = some payload }
          else b.dtos n)
  dtos-on_p2p ts payload request_id n b h = elim (Option-cases (get_elem? ts 10)) [
    | inl e ↦ rw e
    | inr (rid, e) ↦ rw e (dtos-answer payload rid request_id n b h)
  ]

  on_message_lem :
      (topic payload request_id : String) (n : ℕ) (b : Bot)
      → Leads request_id n b
      → (on_message json topic payload b).1.dtos n ≡ (
          if answers request_id topic
          then record (b.dtos n) { response = some payload }
          else b.dtos n)
  unfolding on_message
  on_message_lem topic payload request_id n b h =
      let ts = split "/" topic in
      elim (Option-cases (get_elem? ts 1)) [
        | inl e ↦ rw e
        | inr (kind, e) ↦ elim (Bool-cases (kind == "p2p")) [
          | inl k ↦ rw (e, k) (dtos-on_p2p ts payload request_id n b h)
          | inr k ↦ elim (Bool-cases (kind == "atr")) [
            | inl a ↦ rw (e, k, a) ((on_atr-Keeps ts payload b).0 n)
            | inr a ↦ rw (e, k, a)
          ]
        ]
      ]

  answer-SameOpen :
      (payload : String) (o : Option ℕ) (b : Bot) → SameOpen b (answer json payload o b)
  unfolding add_response
  answer-SameOpen payload none b = (refl, (refl, refl))
  answer-SameOpen payload (some n) b = (refl, (refl, refl))

  on_p2p-SameOpen :
      (ts : List String) (o : Option String) (payload : String) (b : Bot)
      → SameOpen b (on_p2p json ts o payload b).1
  on_p2p-SameOpen ts none payload b = (refl, (refl, refl))
  on_p2p-SameOpen ts (some rid) payload b = answer-SameOpen payload (cc.find rid b.commands) b

  on_message-SameOpen :
      (topic payload : String) (b : Bot) → SameOpen b (on_message json topic payload b).1
  unfolding on_message add_response
  on_message-SameOpen topic payload b =
      let ts = split "/" topic in
      elim (Option-cases (get_elem? ts 1)) [
        | inl e ↦ rw e (refl, (refl, refl))
        | inr (kind, e) ↦ elim (Bool-cases (kind == "p2p")) [
          | inl k ↦ rw (e, k) (on_p2p-SameOpen ts (get_elem? ts 10) payload b)
          | inr k ↦ elim (Bool-cases (kind == "atr")) [
            | inl a ↦ rw (e, k, a) (on_atr-Keeps ts payload b).1
            | inr a ↦ rw (e, k, a) (refl, (refl, refl))
          ]
        ]
      ]

  loop_on-Keeps : (r : Option (Unit {0}) × Bot) → Keeps r.1 (loop_on json r)
  loop_on-Keeps (none, b) = (λ n. refl, (refl, (refl, refl)))
  loop_on-Keeps (some u, b) = (λ n. refl, (refl, (refl, refl)))

  -- The bot after one message.
  abbrev handled : String → String → Bot → Bot
  handled topic payload b = loop_on json (on_message json topic payload (connect json b))

  handled-SameOpen : (topic payload : String) (b : Bot) → SameOpen b (handled topic payload b)
  handled-SameOpen topic payload b =
      let (p, (q, x)) = on_message-SameOpen topic payload (connect json b) in
      let (p', (q', x')) = (loop_on-Keeps (on_message json topic payload (connect json b))).1 in
      (p' ∙ p, (q' ∙ q, x' ∙ x))

  pub deliver-SameOpen : (ms : List (String × String)) (b : Bot) → SameOpen b (deliver json ms b)
  unfolding deliver
  deliver-SameOpen [] b = (refl, (refl, refl))
  deliver-SameOpen ((topic, payload) ∷ ms) b =
      let (p, (q, x)) = handled-SameOpen topic payload b in
      let (p', (q', x')) = deliver-SameOpen ms (handled topic payload b) in
      (p' ∙ p, (q' ∙ q, x' ∙ x))

  pub deliver_lem :
      (ms : List (String × String)) (request_id : String) (n : ℕ) (b : Bot)
      → Leads request_id n b
      → (deliver json ms b).dtos n
        ≡ record (b.dtos n) { response = last_answer request_id ms (b.dtos n).response }
  unfolding deliver last_answer
  deliver_lem [] request_id n b h = refl
  deliver_lem ((topic, payload) ∷ ms) request_id n b h =
      deliver_lem ms request_id n (handled topic payload b)
        (rw ((handled-SameOpen topic payload b).0) h)
      ∙ ap (answered_by request_id ms) (
          (loop_on-Keeps (on_message json topic payload (connect json b))).0 n
          ∙ on_message_lem topic payload request_id n (connect json b) h)
      ∙ if-response (answers request_id topic) (last_answer request_id ms) payload (b.dtos n)
