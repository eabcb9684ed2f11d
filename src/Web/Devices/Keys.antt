-- ===== src/Web/Devices/Keys.antt =====
-- Actions on a dictionary that leave the value of a key as it is.
use bumper.Base.{
  String, ◌≡◌, refl, false, Option, none, some, ◌==◌, if◌then◌else◌, arith, eq_iff, Exec, pure,
  or_raise, continue, ◌>>=◌, ◌>>◌, ◌∙◌,
}
use bumper.Value.{Value, Fields, end, field, lookup}
use bumper.Value.Laws.{lookup-insert}
use bumper.Web.Devices.{put, pop, popped, copy, without_key}

pub lookup-without_key :
    (k j : String) (d : Fields) → lookup j (without_key k d) ≡ (if k == j then none else lookup j d)
unfolding lookup without_key
lookup-without_key k j end = ground arith
lookup-without_key k j (field i v d) =
    ground (arith, eq_iff k j, eq_iff i k, eq_iff i j, lookup-without_key k j d)

abbrev pub KeepsKey : {A : Type 0} → String → Exec Fields A → Type 0
KeepsKey k m = (d : Fields) → lookup k (m d).1 ≡ lookup k d

continue-KeepsKey :
    {A B : Type 0} (k : String) (r : Option A) (f : A → Exec Fields B)
    → ((a : A) → KeepsKey k (f a))
    → KeepsKey k (continue f r)
continue-KeepsKey k none f h d = refl
continue-KeepsKey k (some a) f h d = h a d

pub bind-KeepsKey :
    {A B : Type 0} (k : String) (m : Exec Fields A) (f : A → Exec Fields B)
    → KeepsKey k m
    → ((a : A) → KeepsKey k (f a))
    → KeepsKey k (m >>= f)
bind-KeepsKey k m f h l d = continue-KeepsKey k (m d).0 f l (m d).1 ∙ h d

pub pure-KeepsKey : {A : Type 0} (k : String) (a : A) → KeepsKey k (pure a)
pure-KeepsKey k a d = refl

pub or_raise-KeepsKey : {A : Type 0} (k : String) (o : Option A) → KeepsKey k (or_raise o)
or_raise-KeepsKey k none d = refl
or_raise-KeepsKey k (some a) d = refl

pub put-KeepsKey : (k j : String) (v : Value) → (j == k) ≡ false → KeepsKey k (put j v)
unfolding put
put-KeepsKey k j v other d = rw (lookup-insert j k v d, other) refl

popped-KeepsKey :
    (k j : String) (d : Fields) (o : Option Value)
    → (j == k) ≡ false
    → lookup k (popped j d o).1 ≡ lookup k d
popped-KeepsKey k j d none other = refl
popped-KeepsKey k j d (some v) other = rw (lookup-without_key j k d, other) refl

pub pop-KeepsKey : (k j : String) → (j == k) ≡ false → KeepsKey k (pop j)
unfolding pop
pop-KeepsKey k j other d = popped-KeepsKey k j d (lookup j d) other

pub pops-KeepsKey :
    {B : Type 0} (k j : String) (m : Exec Fields B)
    → (j == k) ≡ false
    → KeepsKey k m
    → KeepsKey k (pop j >> m)
pops-KeepsKey k j m other h = bind-KeepsKey k (pop j) (λ v. m) (pop-KeepsKey k j other) (λ v. h)

pub puts-KeepsKey :
    {B : Type 0} (k j : String) (v : Value) (m : Exec Fields B)
    → (j == k) ≡ false
    → KeepsKey k m
    → KeepsKey k (put j v >> m)
puts-KeepsKey k j v m other h =
    bind-KeepsKey k (put j v) (λ u. m) (put-KeepsKey k j v other) (λ u. h)

pub copies-KeepsKey :
    {B : Type 0} (k : String) (source : Fields) (i j : String) (m : Exec Fields B)
    → (j == k) ≡ false
    → KeepsKey k m
    → KeepsKey k (copy source i j >> m)
unfolding copy
copies-KeepsKey k source i j m other h =
    bind-KeepsKey k (copy source i j) (λ u. m)
      (bind-KeepsKey k (or_raise (lookup i source)) (put j) (or_raise-KeepsKey k (lookup i source))
        (λ v. put-KeepsKey k j v other))
      (λ u. h)
