-- ===== src/Web/Users/Laws.antt =====
-- How tasks are answered, and what a logout leaves.
use bumper.Base.{String, ◌≡◌, refl, Bool, true, false, Option, none, some, ◌==◌, if◌then◌else◌}
use bumper.Value.{Value, str, Fields, lookup, lookup_or, Json}
use bumper.Db.Rows.{IsKeyed}
use bumper.Db.Tiny.{TinyDb, Documented, eq}
use bumper.Db.Repo.{get_record}
use bumper.Db.Repo.Removed.{UniqueKeys, get_record-remove_record}
use bumper.Db.Users
use bumper.Db.Clients
use bumper.Web.Auth.{Env}
use bumper.Web.Devices.{Static}
use bumper.Web.Users.{Addresses, UsersState, handle_user, logged_out}

if_none :
    {A B : Type 0} (b : Bool) (o : Option A) (f : Option A → Option B)
    → f none ≡ none
    → f (if b then none else o) ≡ (if b then none else f o)
if_none true o f h = h
if_none false o f h = refl

module _ ⦃db : TinyDb⦄ ⦃laws : Documented db⦄ (env : Env) (json : Json) (addresses : Addresses)
    (static : Static) where
  -- In tables whose identifiers differ and whose users are unique, a logout is answered with ok and
  -- its user is found no more, neither as a user nor as a client; all others are found as before,
  -- and bots and tokens stay.
  pub handle_user-logout :
      (body : Fields) (raw : Option Value) (u j : String) (s : UsersState)
      → lookup "todo" body ≡ some (str "logout")
      → lookup "userId" body ≡ some (str u)
      → IsKeyed (db.all s.world.users)
      → UniqueKeys "userid" (db.all s.world.users)
      → IsKeyed (db.all s.clients)
      → UniqueKeys "userid" (db.all s.clients)
      → let (r, s') = handle_user env json addresses static (some (Value.obj body)) raw s in
        (r ≡ some logged_out)
        × ((Users.get_by_id j s'.world.users
              ≡ (if u == j then none else Users.get_by_id j s.world.users))
            × ((Clients.get j s'.clients ≡ (if u == j then none else Clients.get j s.clients))
                × ((s'.world.bots ≡ s.world.bots) × (s'.world.tokens ≡ s.world.tokens))))
  unfolding handle_user lookup_or Users.get_by_id Clients.get
  handle_user-logout body raw u j s todo user keyed unique keyed' unique' =
      rw
        (
          todo,
          user,
          get_record-remove_record "userid" u j s.world.users keyed unique,
          get_record-remove_record "userid" u j s.clients keyed' unique',
        )
        (
          refl,
          (
            if_none (u == j) (get_record (eq "userid" (str j)) s.world.users) Users.user_of refl,
            (
              if_none (u == j) (get_record (eq "userid" (str j)) s.clients) Clients.client_of refl,
              (refl, refl),
            ),
          ),
        )
