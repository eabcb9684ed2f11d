-- ===== src/Web/Devices/QrCode/Renaming.antt =====
-- A robot that was rewritten has no name of its group.
use bumper.Base.{◌≡◌, refl, Option, none, some, Exec, continue, ◌>>=◌, ◌>>◌, ◌∙◌}
use bumper.Value.{Value, Fields, lookup}
use bumper.Web.Devices.{put, pop, popped, without_key}
use bumper.Web.Devices.Keys.{
  lookup-without_key, KeepsKey, pure-KeepsKey, pops-KeepsKey, puts-KeepsKey,
}
use bumper.Web.Devices.QrCode.{drop_rest, rename, rewrite_robot}

abbrev pub Unnamed : Fields → Type 0
Unnamed d = lookup "groupName" d ≡ none

-- An action that takes the name away unless it raises.
abbrev pub Unnames : {A : Type 0} → Exec Fields A → Type 0
Unnames {A} m = (d : Fields) (a : A) → (m d).0 ≡ some a → Unnamed (m d).1

continue-Unnames :
    {A B : Type 0} (r : Option A) (f : A → Exec Fields B) (d : Fields) (b : B)
    → ((a : A) → Unnames (f a))
    → (continue f r d).0 ≡ some b
    → Unnamed (continue f r d).1
continue-Unnames none f d b k h = cc
continue-Unnames (some a) f d b k h = k a d b h

bind-Unnames :
    {A B : Type 0} (m : Exec Fields A) (f : A → Exec Fields B)
    → ((a : A) → Unnames (f a))
    → Unnames (m >>= f)
bind-Unnames m f k d b h = continue-Unnames (m d).0 f (m d).1 b k h

popped-Unnames :
    {B : Type 0} (f : Value → Exec Fields B) (d : Fields) (o : Option Value) (b : B)
    → ((v : Value) → KeepsKey "groupName" (f v))
    → (continue f (popped "groupName" d o).0 (popped "groupName" d o).1).0 ≡ some b
    → Unnamed (continue f (popped "groupName" d o).0 (popped "groupName" d o).1).1
popped-Unnames f d none b k h = cc
popped-Unnames f d (some v) b k h =
    k v (without_key "groupName" d) ∙ lookup-without_key "groupName" "groupName" d

-- The pop of the name itself.
pop-Unnames :
    {B : Type 0} (f : Value → Exec Fields B)
    → ((v : Value) → KeepsKey "groupName" (f v))
    → Unnames (pop "groupName" >>= f)
unfolding pop
pop-Unnames f k d b h = popped-Unnames f d (lookup "groupName" d) b k h

drop_rest-KeepsKey : KeepsKey "groupName" drop_rest
unfolding drop_rest
drop_rest-KeepsKey = pops-KeepsKey "groupName" "groupId" _ refl (
    pops-KeepsKey "groupName" "service" _ refl (
      pops-KeepsKey "groupName" "products" _ refl (
        pops-KeepsKey "groupName" "smartTypes" _ refl (
          pops-KeepsKey "groupName" "icon" _ refl
            (pops-KeepsKey "groupName" "sort" _ refl (pure-KeepsKey "groupName" tt))))))

rename-Unnames : Unnames rename
unfolding rename
rename-Unnames =
    pop-Unnames (λ name. put "name" name >> drop_rest)
      (λ name. puts-KeepsKey "groupName" "name" name drop_rest refl drop_rest-KeepsKey)

-- A robot that was rewritten has no name of its group any more.
pub rewrite_robot-Unnames : (mid : Value) → Unnames (rewrite_robot mid)
unfolding rewrite_robot
rewrite_robot-Unnames mid =
    bind-Unnames (put "mid" mid)
      (λ u. pop "cusSteps" >>= λ steps. put "customSteps" steps >> rename)
      (λ u.
        bind-Unnames (pop "cusSteps") (λ steps. put "customSteps" steps >> rename)
          (λ steps. bind-Unnames (put "customSteps" steps) (λ u. rename) (λ u. rename-Unnames)))
