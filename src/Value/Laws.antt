-- ===== src/Value/Laws.antt =====
-- Laws of dictionaries and of membership, for the proofs about the repositories.
use bumper.Base.{String, ◌≡◌, refl, true, ◌||◌, some, arith, ◌==◌, eq_iff, if◌then◌else◌, ==_self}
use bumper.Value.{
  Value, str, Items, nil, cons, Fields, end, field, lookup, insert, update, value_eq, mem_item,
  append_item,
}

pub lookup-insert :
    (k j : String) (v : Value) (d : Fields)
    → lookup j (insert k v d) ≡ (if k == j then some v else lookup j d)
unfolding lookup insert
lookup-insert k j v end = refl
lookup-insert k j v (field i w d) =
    ground (arith, eq_iff k j, eq_iff i k, eq_iff i j, lookup-insert k j v d)

-- An update with one entry writes that key and no other.
pub lookup-update_one :
    (k j : String) (v : Value) (d : Fields)
    → lookup j (update d (field k v end)) ≡ (if k == j then some v else lookup j d)
unfolding update
lookup-update_one k j v d = lookup-insert k j v d

pub value_eq-str : (s t : String) → value_eq (str s) (str t) ≡ (s == t)
unfolding value_eq
value_eq-str s t = refl

pub value_eq-str_self : (s : String) → value_eq (str s) (str s) ≡ true
unfolding value_eq
value_eq-str_self s = ==_self s

pub mem_item-append_item :
    (x : String) (v : Value) (xs : Items)
    → mem_item v (append_item xs (str x)) ≡ (mem_item v xs || value_eq (str x) v)
unfolding mem_item append_item
mem_item-append_item x v nil = ground arith
mem_item-append_item x v (cons y xs) = ground (arith, mem_item-append_item x v xs)
