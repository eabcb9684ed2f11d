-- ===== src/Value.antt =====
-- The values that the program keeps in its database and reads from JSON bodies, and Python's
-- dictionary and list operations on them. A dictionary keeps its keys in insertion order.
-- Floating-point numbers are left out: the program stores none.
pub mod Laws
use bumper.Base.{
  ℕ, zero, suc, ◌+◌, Char, String, Bool, true, false, ◌&&◌, ◌||◌, not, Option, none, some, nat_eq,
  List, [], ◌∷◌, ◌==◌, is_some, if◌then◌else◌, get_or,
}

pub data ℤ : Type 0 where
  pos : ℕ → ℤ
  negsuc : ℕ → ℤ

abbrev pub ℤ_eq : ℤ → ℤ → Bool
ℤ_eq (pos a) (pos b) = nat_eq a b
ℤ_eq (negsuc a) (negsuc b) = nat_eq a b
ℤ_eq a b = false

mutual
  pub data Value : Type 0 where
    null : Value
    bool : Bool → Value
    num : ℤ → Value
    str : String → Value
    obj : Fields → Value
    arr : Items → Value

  pub data Fields : Type 0 where
    end : Fields
    field : String → Value → Fields → Fields

  pub data Items : Type 0 where
    nil : Items
    cons : Value → Items → Items

-- A dictionary written out.
abbrev pub dict : List (String × Value) → Fields
dict [] = end
dict ((k, v) ∷ d) = field k v (dict d)

-- `d.get(key)`: none where the key is missing.
unfoldable pub lookup : String → Fields → Option Value
lookup k end = none
lookup k (field j v d) = if j == k then some v else lookup k d

-- `d[key] = v`.
unfoldable pub insert : String → Value → Fields → Fields
insert k v end = field k v end
insert k v (field j w d) = if j == k then field k v d else field j w (insert k v d)

-- `d.update(e)`.
unfoldable pub update : Fields → Fields → Fields
update d end = d
update d (field k v e) = update (insert k v d) e

-- `d.get(key, default)`.
unfoldable pub lookup_or : String → Value → Fields → Value
lookup_or k v d = get_or (lookup k d) v

unfoldable pub size : Fields → ℕ
size end = 0
size (field k v d) = suc (size d)

-- Python takes True and 1, False and 0 for equal.
abbrev pub bool_num : Bool → ℤ
bool_num true = pos 1
bool_num false = pos 0

abbrev pub scalar_eq : Value → Value → Bool
scalar_eq null null = true
scalar_eq (bool a) (bool b) = ℤ_eq (bool_num a) (bool_num b)
scalar_eq (bool a) (num n) = ℤ_eq (bool_num a) n
scalar_eq (num n) (bool a) = ℤ_eq n (bool_num a)
scalar_eq (num m) (num n) = ℤ_eq m n
scalar_eq (str s) (str t) = s == t
scalar_eq v w = false

-- `v == w`. Lists compare item by item, dictionaries without regard to order.
unfoldable mutual
  pub value_eq : Value → Value → Bool
  value_eq (arr xs) w = elim w [ arr ys ↦ items_eq xs ys | _ ↦ false ]
  value_eq (obj d) w = elim w [ obj e ↦ nat_eq (size d) (size e) && fields_in d e | _ ↦ false ]
  value_eq null w = scalar_eq null w
  value_eq (bool a) w = scalar_eq (bool a) w
  value_eq (num n) w = scalar_eq (num n) w
  value_eq (str s) w = scalar_eq (str s) w

  pub items_eq : Items → Items → Bool
  items_eq nil ys = elim ys [ nil ↦ true | cons _ _ ↦ false ]
  items_eq (cons x xs) ys = elim ys [ nil ↦ false | cons y ys' ↦ value_eq x y && items_eq xs ys' ]

  pub fields_in : Fields → Fields → Bool
  fields_in end e = true
  fields_in (field k v d) e =
      elim (lookup k e) [ none ↦ false | some w ↦ value_eq v w ] && fields_in d e

-- `v in xs`.
unfoldable pub mem_item : Value → Items → Bool
mem_item v nil = false
mem_item v (cons x xs) = value_eq x v || mem_item v xs

-- `xs.append(v)`.
unfoldable pub append_item : Items → Value → Items
append_item nil v = cons v nil
append_item (cons x xs) v = cons x (append_item xs v)

-- `xs.remove(v)` for a member: the first item that equals `v` goes.
unfoldable pub erase_item : Value → Items → Items
erase_item v nil = nil
erase_item v (cons x xs) = if value_eq x v then xs else cons x (erase_item v xs)

unfoldable pub keys : Fields → Items
keys end = nil
keys (field k v d) = cons (str k) (keys d)

unfoldable pub letters : String → Items
letters String.[] = nil
letters (String.◌∷◌ c s) = cons (str (String.◌∷◌ c String.[])) (letters s)

-- `list(v)`: none is the `TypeError` for what cannot be iterated.
unfoldable pub to_list : Value → Option Items
unfolding keys letters
to_list (arr xs) = some xs
to_list (obj d) = some (keys d)
to_list (str s) = some (letters s)
to_list v = none

-- Whether `if v` takes the branch.
unfoldable pub truthy : Value → Bool
truthy null = false
truthy (bool b) = b
truthy (num n) = not (ℤ_eq n (pos 0))
truthy (str s) = not (s == "")
truthy (arr xs) = elim xs [ nil ↦ false | cons _ _ ↦ true ]
truthy (obj d) = elim d [ end ↦ false | field _ _ _ ↦ true ]

-- `json` of the standard library, a text read (none is its exception) and a value written, and
-- `repr` of what is neither text nor `None`.
pub record Json : Type 0 where
  pub loads : String → Option Value
  pub dumps : Value → String
  pub repr : Value → String

-- `str(v)`, and `v` in an f-string.
abbrev pub shown : Json → Value → String
shown json (str s) = s
shown json null = "None"
shown json v = json.repr v
