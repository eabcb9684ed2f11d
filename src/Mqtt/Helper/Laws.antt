-- ===== src/Mqtt/Helper/Laws.antt =====
-- A command gets the answer to its own request.
use mathlib.Core.Path.{subst}
use mathlib.Core.Option.{some-injective}
use bumper.Base.{
  ◌++◌, [], ◌∷◌, refl, ℕ, ◌<◌, String, ◌≡◌, Bool, true, false, none, some, List, arith, ◌==◌,
  eq_iff, if◌then◌else◌, Bool-cases, inl, inr, sym, ap, ◌∙◌,
}
use bumper.Value.{Json}
use bumper.Db.Tiny.{TinyDb}
use bumper.Mqtt.Command.{Command, create_topic}
use bumper.Mqtt.Helper.{
  CommandDto, CommandCache, CommandCacheLaws, Bot, read_response, deliver, open_command, publish,
  add_published, await_response, close_command, send_command_plain,
}
-- The topic is that of an answer to the request.
use bumper.Mqtt.Helper.Messages.{
  last_answer, answered_by, Leads, SameOpen, nat_eq_self, deliver-SameOpen, deliver_lem,
}

if-first {ℓ} :
    {A B : Type ℓ} (f : A → B) (c : Bool) (x y : A) → c ≡ true → f (if c then x else y) ≡ f x
if-first f c x y h = rw h refl

if-both {ℓ} :
    {A B : Type ℓ} (f : A → B) (c : Bool) (x y : A) {p q : B}
    → f x ≡ p
    → f y ≡ q
    → f (if c then x else y) ≡ (if c then p else q)
if-both f true x y h k = h
if-both f false x y h k = k

if-either {ℓ} :
    {A : Type ℓ} (P : A → Type ℓ) (c : Bool) (x y : A) → P x → P y → P (if c then x else y)
if-either P true x y h k = h
if-either P false x y h k = k

module _ ⦃db : TinyDb⦄ ⦃cc : CommandCache⦄ where
  -- Every open command has a place below the first free one.
  abbrev pub Placed : Bot → Type 0
  Placed b = (j : String) (m : ℕ) → cc.find j b.commands ≡ some m → m < b.place

module _ ⦃db : TinyDb⦄ ⦃cc : CommandCache⦄ (json : Json) (laws : CommandCacheLaws cc) where
  open_command-Placed : (cmd : Command) (b : Bot) → Placed b → Placed (open_command json cmd b)
  unfolding open_command
  open_command-Placed cmd b h j m found = elim (Bool-cases (cmd.request_id == j)) [
    | inl e ↦
        let p : cmd.request_id ≡ j = (eq_iff cmd.request_id j).0 e in
        let c = cc.put cmd.request_id b.place b.commands in
        let own : cc.find cmd.request_id c ≡ some m =
          subst (λ x. cc.find x c ≡ some m) (sym p) found in
        let q : b.place ≡ m =
          some-injective b.place m (sym (laws.find-put cmd.request_id b.place b.commands) ∙ own) in
        omega arith
    | inr e ↦
        let k : m < b.place =
          h j m (laws.find-put_other cmd.request_id j b.place m b.commands e found) in
        omega arith
  ]

  same-Placed : (b b' : Bot) → SameOpen json b b' → Placed b → Placed b'
  same-Placed b b' (p, (q, x)) h = rw (p, q) h

  closed-Placed : (cmd : Command) (b : Bot) → Placed b → Placed (close_command json cmd b)
  unfolding close_command
  closed-Placed cmd b h j m found = h j m (laws.find-pop cmd.request_id j m b.commands found)

  open_command-Leads :
      (cmd : Command) (b : Bot)
      → Placed b
      → Leads json cmd.request_id b.place (open_command json cmd b)
  unfolding open_command
  open_command-Leads cmd b h = (
    laws.find-put cmd.request_id b.place b.commands,
    λ j found. elim (Bool-cases (cmd.request_id == j)) [
      | inl e ↦ sym ((eq_iff cmd.request_id j).0 e)
      | inr e ↦
          let k : b.place < b.place =
            h j b.place (laws.find-put_other cmd.request_id j b.place b.place b.commands e found) in
          absurd (omega arith)
    ],
  )

  -- With a client that takes the publication, and a cache that keeps a command while it is open: what a command
  -- returns is made from the last answer under its own request identifier among the messages
  -- that come while it waits, and from no other message; without such an answer it is that of
  -- the timeout.
  pub send_command_plain-answer :
      (ms : List (String × String)) (cmd : Command) (b : Bot)
      → b.client ≡ true
      → Placed b
      → (send_command_plain json ms cmd b).0
        ≡ read_response json (record {
          payload_type = cmd.payload_type;
          response = last_answer cmd.request_id ms none;
        })
  unfolding send_command_plain open_command publish
  send_command_plain-answer ms cmd b client h =
      let b' : Bot =
        add_published json (create_topic json cmd) cmd.payload (open_command json cmd b) in
      let empty : CommandDto = record { payload_type = cmd.payload_type; response = none } in
      let first : b'.dtos b.place ≡ empty = rw (nat_eq_self b.place) in
      if-first (λ o. (await_response json ms cmd b.place o).0) b.client _ _ client
      ∙ ap (read_response json) (
          deliver_lem json ms cmd.request_id b.place b' (open_command-Leads cmd b h)
          ∙ ap (answered_by cmd.request_id ms) first)

  -- The places of open commands stay below the first free one, whatever messages come while a
  -- command waits and whether or not there is a client, in a cache that at most loses entries.
  send_command_plain-Placed :
      (ms : List (String × String)) (cmd : Command) (b : Bot)
      → Placed b
      → Placed (send_command_plain json ms cmd b).1
  unfolding send_command_plain open_command close_command publish
  send_command_plain-Placed ms cmd b h =
      let b' : Bot =
        add_published json (create_topic json cmd) cmd.payload (open_command json cmd b) in
      if-either (λ o. Placed (await_response json ms cmd b.place o).1) b.client _ _
        (closed-Placed cmd (deliver json ms b') (
          same-Placed b' (deliver json ms b') (deliver-SameOpen json ms b')
            (open_command-Placed cmd b h)))
        (closed-Placed cmd (open_command json cmd b) (open_command-Placed cmd b h))

  -- A command is published once, where there is a client, and nothing else is.
  pub published-send_command_plain :
      (ms : List (String × String)) (cmd : Command) (b : Bot)
      → (send_command_plain json ms cmd b).1.published ≡ (
          if b.client
          then b.published ++ (create_topic json cmd, cmd.payload) ∷ []
          else b.published)
  unfolding send_command_plain open_command publish close_command
  published-send_command_plain ms cmd b =
      let b' : Bot =
        add_published json (create_topic json cmd) cmd.payload (open_command json cmd b) in
      if-both (λ o. (await_response json ms cmd b.place o).1.published) b.client _ _
        (deliver-SameOpen json ms b').1.1 refl
