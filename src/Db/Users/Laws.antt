-- ===== src/Db/Users/Laws.antt =====
-- What the repository of users promises: lists that stay lists, and items that are found after
-- they were added.
use mathlib.Core.Path.{subst}
use mathlib.Core.Option.{some-injective}
use bumper.Base.{
  String, ◌≡◌, refl, ◌≢◌, Bool, true, false, Option, none, some, [], ◌∷◌, ◌++◌, arith, ◌==◌, eq_iff,
  if◌then◌else◌, is_some, Bool-cases, Option-cases, inl, inr, ==_self, sym, ap, ◌∙◌,
}
use bumper.Value.{
  Value, str, arr, Items, nil, Fields, end, field, lookup, lookup_or, update, mem_item, to_list,
}
use bumper.Value.Laws.{lookup-update_one, mem_item-append_item, value_eq-str_self}
use bumper.Models.{BumperUser, user_from_dict}
use bumper.Db.Rows.{Document, Rows, first_row, any_row, patch}
use bumper.Db.Rows.Laws.{map_fields}
use bumper.Db.Tiny.{TinyDb, Documented, eq}
use bumper.Db.Repo.{upsert_record, get_record, change_list, update_list_field}
use bumper.Db.Repo.Keyed.{is_key, get_record-write, get_record_lem, all-upsert_record}
use bumper.Db.Users.{get_by_id, change, add_device, add}

-- The field holds a list, or is missing.
abbrev pub HasList : String → Fields → Type 0
HasList f d = (xs : Items) × (lookup_or f (arr nil) d ≡ arr xs)

pub record ListsHold (d : Fields) : Type 0 where
  pub devices : HasList "devices" d
  pub bots : HasList "bots" d
  pub homeids : HasList "homeids" d

-- In every document of the table the lists are lists.
abbrev pub AllHold : Rows → Type 0
AllHold [] = Unit
AllHold (r ∷ rs) = ListsHold r.fields × AllHold rs

-- Which of the three lists is written.
pub data ListField : String → Type 0 where
  devices : ListField "devices"
  bots : ListField "bots"
  homeids : ListField "homeids"

mem-change_list : (x : String) (xs : Items) → mem_item (str x) (change_list xs (str x) true) ≡ true
unfolding change_list
mem-change_list x xs = elim (Bool-cases (mem_item (str x) xs)) [
  | inl e ↦ rw (e, e)
  | inr e ↦ rw (e, mem_item-append_item x (str x) xs, e, value_eq-str_self x)
]

HasList-write :
    (f g : String) (xs : Items) (d : Fields)
    → HasList f d
    → HasList f (update d (field g (arr xs) end))
unfolding lookup_or
HasList-write f g xs d (ys, h) = elim (Bool-cases (g == f)) [
  | inl e ↦ (xs, rw (lookup-update_one g f (arr xs) d, e))
  | inr e ↦ (ys, rw (lookup-update_one g f (arr xs) d, e) h)
]

ListsHold-write :
    (g : String) (xs : Items) (d : Fields)
    → ListsHold d
    → ListsHold (update d (field g (arr xs) end))
ListsHold-write g xs d h = record {
  devices = HasList-write "devices" g xs d h.devices;
  bots = HasList-write "bots" g xs d h.bots;
  homeids = HasList-write "homeids" g xs d h.homeids;
}

AllHold-patch :
    (p : Fields → Bool) (g : String) (xs : Items) (rs : Rows)
    → AllHold rs
    → AllHold (patch p (field g (arr xs) end) rs)
AllHold-patch p g xs [] h = tt
AllHold-patch p g xs (r ∷ rs) h = (held (p r.fields), AllHold-patch p g xs rs h.1)
  where
    held :
        (b : Bool)
        → ListsHold
            (if b then record r { fields = update r.fields (field g (arr xs) end) } else r).fields
    held true = ListsHold-write g xs r.fields h.0
    held false = h.0

AllHold-append :
    (rs : Rows) (r : Document) → AllHold rs → ListsHold r.fields → AllHold (rs ++ r ∷ [])
AllHold-append [] r h k = (k, tt)
AllHold-append (s ∷ rs) r h k = (h.0, AllHold-append rs r h.1 k)

AllHold-first :
    (p : Fields → Bool) (rs : Rows) (r : Document)
    → AllHold rs
    → first_row p rs ≡ some r
    → ListsHold r.fields
AllHold-first p [] r h e = absurd (cc)
AllHold-first p (s ∷ rs) r h e = elim (Bool-cases (p s.fields)) [
  | inl q ↦ subst (λ x. ListsHold x.fields) (some-injective s r (rw q at e)) h.0
  | inr q ↦ AllHold-first p rs r h.1 (rw q at e)
]

HasList-one : (f g : String) (xs : Items) → HasList f (field g (arr xs) end)
unfolding lookup_or lookup
HasList-one f g xs = elim (Bool-cases (g == f)) [ inl e ↦ (xs, rw e) | inr e ↦ (nil, rw e) ]

ListsHold-one : (g : String) (xs : Items) → ListsHold (field g (arr xs) end)
ListsHold-one g xs = record {
  devices = HasList-one "devices" g xs;
  bots = HasList-one "bots" g xs;
  homeids = HasList-one "homeids" g xs;
}

list_of : (f : String) → ListField f → (d : Fields) → ListsHold d → HasList f d
list_of _ devices d h = h.devices
list_of _ bots d h = h.bots
list_of _ homeids d h = h.homeids

not_key : (f : String) → ListField f → f ≢ "userid"
not_key _ devices = ground (arith, eq_iff "devices" "userid")
not_key _ bots = ground (arith, eq_iff "bots" "userid")
not_key _ homeids = ground (arith, eq_iff "homeids" "userid")

from_dict-devices :
    (v : Value) (d : Fields)
    → user_from_dict (update d (field "devices" v end)) ≡ record (user_from_dict d) { devices = v }
unfolding user_from_dict
from_dict-devices v d = simp lookup-update_one

abbrev map_devices : Value → Option BumperUser → Option BumperUser
map_devices v none = none
map_devices v (some u) = some (record u { devices = v })

module _ ⦃db : TinyDb⦄ ⦃laws : Documented db⦄ where
  AllHold-upsert :
      (g u : String) (xs : Items) (t : db.Table)
      → AllHold (db.all t)
      → AllHold (db.all (upsert_record (some (field g (arr xs) end)) (eq "userid" (str u)) t).1)
  AllHold-upsert g u xs t h =
      rw (all-upsert_record (field g (arr xs) end) "userid" u t)
        (elim (Bool-cases (any_row (is_key "userid" u) (db.all t))) [
          | inl e ↦ rw e (AllHold-patch (is_key "userid" u) g xs (db.all t) h)
          | inr e ↦ rw e (AllHold-append (db.all t) _ h (ListsHold-one g xs))
        ])

  -- What a list operation on the user `u` leaves: lists are lists still, the user is known as
  -- before, and what is found of others is the same.
  pub record Changed (u : String) (t t' : db.Table) : Type 0 where
    pub lists_hold : AllHold (db.all t')
    pub same_user : is_some (get_by_id u t') ≡ is_some (get_by_id u t)
    pub others : (j : String) → (u == j) ≡ false → get_by_id j t' ≡ get_by_id j t

  to_list-arr : (xs : Items) → to_list (arr xs) ≡ some xs
  unfolding to_list
  to_list-arr xs = refl

  change-known :
      (f : String) (lf : ListField f) (u : String) (item : Value) (add : Bool) (t : db.Table)
      (r : Document) (xs : Items)
      → get_record (eq "userid" (str u)) t ≡ some r
      → lookup_or f (arr nil) r.fields ≡ arr xs
      → change f u item add t ≡ (
        some tt,
        (upsert_record
            (some (field f (arr (change_list xs item add)) end))
            (eq "userid" (str u))
            t).1,
      )
  unfolding change update_list_field
  change-known f lf u item add t r xs found list = rw (found, list, to_list-arr xs)

  change-unknown :
      (f u : String) (item : Value) (add : Bool) (t : db.Table)
      → get_record (eq "userid" (str u)) t ≡ none
      → change f u item add t ≡ (some tt, t)
  unfolding change update_list_field
  change-unknown f u item add t absent = rw absent

  first_holds :
      (u : String) (t : db.Table) (r : Document)
      → AllHold (db.all t)
      → get_record (eq "userid" (str u)) t ≡ some r
      → ListsHold r.fields
  first_holds u t r h found =
      AllHold-first (is_key "userid" u) (db.all t) r h (sym (get_record_lem "userid" u t) ∙ found)

  get_record-change :
      (f : String) (lf : ListField f) (u j : String) (xs : Items) (t : db.Table)
      → get_record
          (eq "userid" (str j))
          (upsert_record (some (field f (arr xs) end)) (eq "userid" (str u)) t).1
        ≡ (if u == j
            then map_fields
                (λ d. update d (field f (arr xs) end))
                (get_record (eq "userid" (str u)) t)
            else get_record (eq "userid" (str j)) t)
  get_record-change f lf u j xs t = get_record-write "userid" f u j (arr xs) t (not_key f lf)

  -- A list operation, on one of the three lists of a table whose lists are lists, raises nothing;
  -- afterwards the lists are lists still, the user is known where it was known before, and what is
  -- found under any other identifier is the same.
  pub change-Changed :
      (f : String) (lf : ListField f) (u : String) (item : Value) (add : Bool) (t : db.Table)
      → AllHold (db.all t)
      → ((change f u item add t).0 ≡ some tt) × Changed u t (change f u item add t).1
  unfolding get_by_id
  change-Changed f lf u item add t h = elim (Option-cases (get_record (eq "userid" (str u)) t)) [
    | inl absent ↦
        rw (change-unknown f u item add t absent)
          (refl, record { lists_hold = h; same_user = refl; others = λ j ne. refl })
    | inr (r, found) ↦
        let (xs, list) = list_of f lf r.fields (first_holds u t r h found) in
        rw (change-known f lf u item add t r xs found list) (
          refl,
          record {
            lists_hold = AllHold-upsert f u (change_list xs item add) t h;
            same_user =
                rw (get_record-change f lf u u (change_list xs item add) t, ==_self u, found);
            others = λ j ne. rw (get_record-change f lf u j (change_list xs item add) t, ne);
          },
        )
  ]

  -- In a table whose lists are lists, a device that is added to a known user is among the user's
  -- devices afterwards, and nothing else of that user changes.
  pub devices-add_device :
      (u d : String) (t : db.Table) {usr : BumperUser}
      → AllHold (db.all t)
      → get_by_id u t ≡ some usr
      → (ys : Items) × (get_by_id u (add_device u d t).1 ≡ some (record usr { devices = arr ys }))
        × (mem_item (str d) ys ≡ true)
  unfolding get_by_id add_device
  devices-add_device u d t h known = elim (Option-cases (get_record (eq "userid" (str u)) t)) [
    | inl absent ↦ absurd (cc)
    | inr (r, found) ↦
        let (xs, list) = list_of "devices" devices r.fields (first_holds u t r h found) in
        (
          change_list xs (str d) true,
          rw
              (
                change-known "devices" devices u (str d) true t r xs found list,
                get_record-change "devices" devices u u (change_list xs (str d) true) t,
                ==_self u,
                found,
              )
              (ap some (from_dict-devices (arr (change_list xs (str d) true)) r.fields)
                ∙ ap (λ o. map_devices (arr (change_list xs (str d) true)) o) (rw found at known)),
          mem-change_list d xs,
        )
  ]
