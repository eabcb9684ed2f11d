-- ===== src/Web/Auth/Laws.antt =====
-- A login over the web leaves a token that is accepted from then on.
use bumper.Base.{
  ℕ, ◌+◌, String, ◌≡◌, refl, Bool, true, false, ◌||◌, Option, none, some, List, [], ◌∷◌, arith, ltb,
  Bool-cases, inl, inr, sym, ap, ◌∙◌, Exec, ◌>>◌,
}
use bumper.Value.{Value, null, str, value_eq, Fields}
use bumper.Models.{BumperUser, VacBotDevice}
use bumper.Db.Rows.{Rows, any_row, drop_ids, mem_id, ids}
use bumper.Db.Repo.{get_multi}
use bumper.Db.Tiny.{TinyDb, Documented, Query, both}
use bumper.Db.Users
use bumper.Db.Users.Laws.{AllHold, ListField, change-Changed}
use bumper.Db.Tokens
use bumper.Db.Tokens.Laws.{verify-add, all-remove_each, any_row-contains, has_token}
use bumper.Db.Bots
use bumper.Web.Auth.{
  World, Env, auth_any, uid_or_default, add_bots, extend_user, revoke_expired, answer_user,
  generate_token, login_success, on_users,
}

any_row-drop_ids :
    (p : Fields → Bool) (js : List ℕ) (rs : Rows)
    → any_row p rs ≡ false
    → any_row p (drop_ids js rs) ≡ false
any_row-drop_ids p js [] h = refl
any_row-drop_ids p js (r ∷ rs) h = elim (Bool-cases (mem_id r.doc_id js)) [
  | inl e ↦ rw e (any_row-drop_ids p js rs (ground arith))
  | inr e ↦ rw e (ground (arith, any_row-drop_ids p js rs))
]

module _ ⦃db : TinyDb⦄ ⦃laws : Documented db⦄ (env : Env) where
  -- It goes on, only the table of users differs, and its lists are lists.
  record OnlyUsers (w : World) (r : Option (Unit {0}) × World) : Type 0 where
    went_on : r.0 ≡ some tt
    hold : AllHold (db.all r.1.users)
    same_bots : r.1.bots ≡ w.bots
    same_tokens : r.1.tokens ≡ w.tokens
    same_drawn : r.1.drawn ≡ w.drawn

  change-OnlyUsers :
      (f : String) (lf : ListField f) (u : String) (item : Value) (w : World)
      → AllHold (db.all w.users)
      → OnlyUsers w (on_users env (Users.change f u item true) w)
  change-OnlyUsers f lf u item w h =
      let (went, changed) = change-Changed f lf u item true w.users h in
      record {
        went_on = went;
        hold = changed.lists_hold;
        same_bots = refl;
        same_tokens = refl;
        same_drawn = refl;
      }

  then-OnlyUsers :
      (m k : Exec World (Unit {0})) (w : World)
      → OnlyUsers w (m w)
      → OnlyUsers (m w).1 (k (m w).1)
      → OnlyUsers w ((m >> k) w)
  then-OnlyUsers m k w h next = rw (h.went_on) (record {
    went_on = next.went_on;
    hold = next.hold;
    same_bots = next.same_bots ∙ h.same_bots;
    same_tokens = next.same_tokens ∙ h.same_tokens;
    same_drawn = next.same_drawn ∙ h.same_drawn;
  })

  add_bots-OnlyUsers :
      (u : String) (bs : List VacBotDevice) (w : World)
      → AllHold (db.all w.users)
      → OnlyUsers w (add_bots env u bs w)
  unfolding add_bots Users.add_bot
  add_bots-OnlyUsers u [] w h = record {
    went_on = refl;
    hold = h;
    same_bots = refl;
    same_tokens = refl;
    same_drawn = refl;
  }
  add_bots-OnlyUsers u (b ∷ bs) w h =
      elim (Bool-cases (value_eq b.did null || value_eq b.did (str ""))) [
        | inl e ↦ rw e (add_bots-OnlyUsers u bs w h)
        | inr e ↦ rw e (
            let one : OnlyUsers w (on_users env (Users.change "bots" u b.did true) w) =
              change-OnlyUsers "bots" ListField.bots u b.did w h in
            then-OnlyUsers (on_users env (Users.change "bots" u b.did true)) (add_bots env u bs) w
              one
              (add_bots-OnlyUsers u bs (on_users env (Users.change "bots" u b.did true) w).1
                one.hold))
      ]

  -- The world in which a user has been extended.
  record Extended (u : String) (w : World) (r : Option (Unit {0}) × World) : Type 0 where
    went_on : r.0 ≡ some tt
    hold : AllHold (db.all r.1.users)
    tokens : r.1.tokens ≡ Tokens.revoke_user_expired (env.dt.isoformat env.now) u w.tokens
    same_drawn : r.1.drawn ≡ w.drawn

  extend_user-Extended :
      (u device_id : String) (w : World)
      → AllHold (db.all w.users)
      → Extended u w (extend_user env u device_id w)
  unfolding extend_user revoke_expired Users.add_device
  extend_user-Extended u device_id w h =
      let one : OnlyUsers w (on_users env (Users.change "devices" u (str device_id) true) w) =
        change-OnlyUsers "devices" ListField.devices u (str device_id) w h in
      let w' : World = (on_users env (Users.change "devices" u (str device_id) true) w).1 in
      let two : OnlyUsers w' (add_bots env u (Bots.list_all w'.bots) w') =
        add_bots-OnlyUsers u (Bots.list_all w'.bots) w' one.hold in
      rw (one.went_on, two.went_on)
        (record {
          went_on = refl;
          hold = two.hold;
          tokens =
              ap (Tokens.revoke_user_expired (env.dt.isoformat env.now) u)
                (two.same_tokens ∙ one.same_tokens);
          same_drawn = two.same_drawn ∙ one.same_drawn;
        })

  contains-revoke_user_expired :
      (now_iso u k : String) (t : db.Table)
      → db.contains (Tokens.of_token u k) t ≡ false
      → db.contains (Tokens.of_token u k) (Tokens.revoke_user_expired now_iso u t) ≡ false
  unfolding Tokens.revoke_user_expired
  contains-revoke_user_expired now_iso u k t h =
      let q : Query = both (Tokens.of_user u) (Tokens.expired_at now_iso) in
      any_row-contains u k (Tokens.remove_each (get_multi q t) t)
      ∙ ap (any_row (has_token u k)) (all-remove_each (get_multi q t) t)
      ∙ any_row-drop_ids (has_token u k) (ids (get_multi q t)) (db.all t)
          (sym (any_row-contains u k t) ∙ h)

  answer_user-verify :
      (u device_id app_type country : String) (user : BumperUser) (w : World) (later : ℕ)
      → user.userid ≡ str u
      → AllHold (db.all w.users)
      → db.contains (Tokens.of_token u (env.uuid w.drawn)) w.tokens ≡ false
      → env.dt.fromisoformat (env.dt.isoformat (env.now + Tokens.token_validity))
        ≡ some (env.now + Tokens.token_validity)
      → (let r = answer_user env false none device_id app_type country (some user) w in
          (r.0 ≡ some (login_success env app_type country user (env.uuid w.drawn)))
          × (Tokens.verify env.dt later u (env.uuid w.drawn) r.1.tokens
              ≡ some (ltb later (env.now + Tokens.token_validity))))
  unfolding answer_user generate_token
  answer_user-verify u device_id app_type country user w later id h fresh iso =
      let ext : Extended u w (extend_user env u device_id w) =
        extend_user-Extended u device_id w h in
      let revoked = Tokens.revoke_user_expired (env.dt.isoformat env.now) u w.tokens in
      rw (id, ext.went_on, ext.tokens, ext.same_drawn)
        (
          refl,
          verify-add env.dt env.now later u (env.uuid w.drawn) revoked iso (
              contains-revoke_user_expired (env.dt.isoformat env.now) u (env.uuid w.drawn) w.tokens
                fresh),
        )

  -- A login of a user who is known, without a check, where all lists of users are lists, the
  -- token that is drawn is new to the user, and the ISO text of the end of its validity is read
  -- back: it raises nothing and answers with that token, which verifies for the user from then on
  -- exactly until its validity has passed.
  pub auth_any-verify :
      (uid : Option String) (u device_id app_type country : String) (user : BumperUser) (w : World)
      (later : ℕ)
      → Users.get_by_id (uid_or_default env uid) w.users ≡ some user
      → user.userid ≡ str u
      → AllHold (db.all w.users)
      → db.contains (Tokens.of_token u (env.uuid w.drawn)) w.tokens ≡ false
      → env.dt.fromisoformat (env.dt.isoformat (env.now + Tokens.token_validity))
        ≡ some (env.now + Tokens.token_validity)
      → (let r = auth_any env uid none device_id app_type country false w in
          (r.0 ≡ some (login_success env app_type country user (env.uuid w.drawn)))
          × (Tokens.verify env.dt later u (env.uuid w.drawn) r.1.tokens
              ≡ some (ltb later (env.now + Tokens.token_validity))))
  unfolding auth_any
  auth_any-verify uid u device_id app_type country user w later known id h fresh iso =
      rw known (answer_user-verify u device_id app_type country user w later id h fresh iso)
