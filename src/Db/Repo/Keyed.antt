-- ===== src/Db/Repo/Keyed.antt =====
-- What a read by a key field finds after a write to the same table: the facts that the
-- repositories of bots, clients and users share. The key of the first is `did`, of the others
-- `userid`.
use mathlib.Core.Path.{fun_ext}
use bumper.Base.{
  ℕ, String, ◌≡◌, refl, ◌≢◌, Bool, true, false, Option, none, some, [], ◌∷◌, ◌++◌, arith, ◌==◌,
  eq_iff, if◌then◌else◌, Bool-cases, is_some, inl, inr, ==_self, ==_ne, sym, ap, ◌∙◌,
}
use bumper.Value.{
  Value, null, bool, num, str, arr, obj, Fields, end, field, lookup, update, value_eq,
}
use bumper.Value.Laws.{lookup-update_one, value_eq-str_self}
use bumper.Db.Rows.{Document, Rows, first_row, any_row, patch}
use bumper.Db.Rows.Laws.{
  map_fields, any_row-first_row, first_row-any_row, first_row-append, first_row-patch,
  first_row-patch_other, first_row-match,
}
use bumper.Db.Tiny.{TinyDb, Documented, eq, field_test}
use bumper.Db.Repo.{upsert_record, get_record, is_found}

-- The document has the key `k` in its field `f`.
abbrev pub is_key : String → String → Fields → Bool
is_key f k d = field_test (λ w. value_eq w (str k)) (lookup f d)

-- Only the text itself equals a text.
pub value_eq-key : (w : Value) (k : String) → value_eq w (str k) ≡ true → w ≡ str k
unfolding value_eq
value_eq-key (str s) k h = ap str ((eq_iff s k).0 h)
value_eq-key null k h = cc
value_eq-key (bool b) k h = cc
value_eq-key (num n) k h = cc
value_eq-key (arr xs) k h = cc
value_eq-key (obj d) k h = cc

is_key_other_value :
    (o : Option Value) (j k : String)
    → j ≢ k
    → field_test (λ w. value_eq w (str k)) o ≡ true
    → field_test (λ w. value_eq w (str j)) o ≡ false
unfolding value_eq
is_key_other_value none j k ne h = refl
is_key_other_value (some w) j k ne h = rw (value_eq-key w k h) (==_ne k j (λ e. ne (sym e)))

pub is_key_other :
    (f j k : String) (d : Fields) → j ≢ k → is_key f k d ≡ true → is_key f j d ≡ false
is_key_other f j k d ne h = is_key_other_value (lookup f d) j k ne h

key_value :
    (o : Option Value) (k : String)
    → field_test (λ w. value_eq w (str k)) o ≡ true
    → o ≡ some (str k)
key_value none k h = cc
key_value (some w) k h = ap some (value_eq-key w k h)

pub is_key-lookup : (f k : String) (d : Fields) → is_key f k d ≡ true → lookup f d ≡ some (str k)
is_key-lookup f k d h = key_value (lookup f d) k h

-- Writing another field leaves the key as it is.
pub is_key-update :
    (f g k : String) (v : Value) (d : Fields)
    → g ≢ f
    → is_key f k (update d (field g v end)) ≡ is_key f k d
is_key-update f g k v d ne = rw (lookup-update_one g f v d, ==_ne g f ne)

is_key_one : (f g k : String) (v : Value) → g ≢ f → is_key f k (field g v end) ≡ false
unfolding lookup
is_key_one f g k v ne = rw (==_ne g f ne)

is_key_absent :
    (f k j : String) (d : Fields)
    → lookup f d ≡ some (str k)
    → (k == j) ≡ false
    → is_key f j d ≡ false
unfolding value_eq
is_key_absent f k j d has e = rw has e

is_found-match :
    (f k : String) (i : ℕ) (d : Fields)
    → is_key f k d ≡ true
    → is_found (some (record { doc_id = i; fields = d })) ≡ true
unfolding lookup
is_found-match f k i end h = cc
is_found-match f k i (field g v d) h = refl

is_found-first_row :
    (f k : String) (rs : Rows)
    → is_found (first_row (is_key f k) rs) ≡ is_some (first_row (is_key f k) rs)
is_found-first_row f k [] = refl
is_found-first_row f k (r ∷ rs) = elim (Bool-cases (is_key f k r.fields)) [
  | inl e ↦ rw e (is_found-match f k r.doc_id r.fields e)
  | inr e ↦ rw e (is_found-first_row f k rs)
]

abbrev one : String → Value → Fields
one g v = field g v end

-- The rows after `{g: v}` was written at the key `k` of the field `f`.
abbrev rows_written : String → String → Fields → ℕ → Rows → Rows
rows_written f k d i rs =
    if any_row (is_key f k) rs
    then patch (is_key f k) d rs
    else rs ++ record { doc_id = i; fields = d } ∷ []

first_row-write_same :
    (f g k : String) (v : Value) (i : ℕ) (rs : Rows)
    → g ≢ f
    → first_row (is_key f k) (rows_written f k (one g v) i rs)
      ≡ map_fields (λ d. update d (one g v)) (first_row (is_key f k) rs)
first_row-write_same f g k v i rs ne = elim (Bool-cases (any_row (is_key f k) rs)) [
  | inl e ↦ rw e (first_row-patch (is_key f k) (one g v) rs (λ d. is_key-update f g k v d ne))
  | inr e ↦ rw (
    e,
    first_row-append (is_key f k) rs,
    any_row-first_row (is_key f k) rs e,
    is_key_one f g k v ne,
  )
]

first_row-write_other :
    (f g k j : String) (v : Value) (i : ℕ) (rs : Rows)
    → g ≢ f
    → j ≢ k
    → first_row (is_key f j) (rows_written f k (one g v) i rs) ≡ first_row (is_key f j) rs
first_row-write_other f g k j v i rs ne nj = elim (Bool-cases (any_row (is_key f k) rs)) [
  | inl e ↦ rw e (
      first_row-patch_other (is_key f k) (is_key f j) (one g v) rs
        (λ d h. is_key_other f j k d nj h) (λ d. is_key-update f g j v d ne))
  | inr e ↦ rw e (
      ground (
        arith,
        first_row-append (is_key f j) rs (record { doc_id = i; fields = one g v }),
        is_key_one f g j v ne,
      ))
]

-- The same for a whole document with the key `k`, where the key is new.
first_row-new :
    (f k j : String) (d : Fields) (i : ℕ) (rs : Rows)
    → lookup f d ≡ some (str k)
    → first_row (is_key f k) rs ≡ none
    → first_row (is_key f j) (rows_written f k d i rs)
      ≡ (if k == j then some (record { doc_id = i; fields = d }) else first_row (is_key f j) rs)
first_row-new f k j d i rs has absent =
    rw (first_row-any_row (is_key f k) rs absent) (elim (Bool-cases (k == j)) [
      | inl e ↦ rw e (
          let p : k ≡ j = (eq_iff k j).0 e in
          rw (← p, first_row-append (is_key f k) rs, absent, has, value_eq-str_self k))
      | inr e ↦ rw e (
          ground (
            arith,
            first_row-append (is_key f j) rs (record { doc_id = i; fields = d }),
            is_key_absent f k j d has e,
          ))
    ])

module _ ⦃db : TinyDb⦄ ⦃laws : Documented db⦄ where
  pub matches-is_key : (f k : String) → db.matches (eq f (str k)) ≡ is_key f k
  matches-is_key f k = fun_ext (laws.matches-eq f (str k))

  pub get_record_lem :
      (f k : String) (t : db.Table)
      → get_record (eq f (str k)) t ≡ first_row (is_key f k) (db.all t)
  unfolding get_record
  get_record_lem f k t = rw (laws.get_first, matches-is_key f k)

  pub all-upsert_record :
      (d : Fields) (f k : String) (t : db.Table)
      → db.all (upsert_record (some d) (eq f (str k)) t).1 ≡ (
          if any_row (is_key f k) (db.all t)
          then patch (is_key f k) d (db.all t)
          else db.all t ++ record { doc_id = db.next t; fields = d } ∷ [])
  unfolding upsert_record
  all-upsert_record d f k t = rw (laws.all-upsert d (eq f (str k)) t, matches-is_key f k)

  -- Writing a field `g` at the key `k` changes what is found under `k`, in that field, and
  -- nothing else; where `k` is unknown it changes nothing that is found by a key.
  pub get_record-write :
      (f g k j : String) (v : Value) (t : db.Table)
      → g ≢ f
      → get_record (eq f (str j)) (upsert_record (some (field g v end)) (eq f (str k)) t).1 ≡ (
          if k == j
          then map_fields (λ d. update d (field g v end)) (get_record (eq f (str k)) t)
          else get_record (eq f (str j)) t)
  get_record-write f g k j v t ne =
      rw
        (
          get_record_lem f j (upsert_record (some (field g v end)) (eq f (str k)) t).1,
          get_record_lem f k t,
          get_record_lem f j t,
          all-upsert_record (field g v end) f k t,
        )
        (elim (Bool-cases (k == j)) [
          | inl e ↦ rw e (
              let p : k ≡ j = (eq_iff k j).0 e in
              rw (← p) (first_row-write_same f g k v (db.next t) (db.all t) ne))
          | inr e ↦
              rw e
                (first_row-write_other f g k j v (db.next t) (db.all t) ne (λ p. cc (==_self k, p)))
        ])

  -- A new document is found under its key, and no other key finds anything else.
  pub get_record-new :
      (f k j : String) (d : Fields) (t : db.Table)
      → lookup f d ≡ some (str k)
      → get_record (eq f (str k)) t ≡ none
      → get_record (eq f (str j)) (upsert_record (some d) (eq f (str k)) t).1 ≡ (
          if k == j
          then some (record { doc_id = db.next t; fields = d })
          else get_record (eq f (str j)) t)
  get_record-new f k j d t has absent =
      rw
        (
          get_record_lem f j (upsert_record (some d) (eq f (str k)) t).1,
          get_record_lem f j t,
          all-upsert_record d f k t,
        )
        (first_row-new f k j d (db.next t) (db.all t) has (sym (get_record_lem f k t) ∙ absent))

  -- A document that is found by a key is not empty.
  pub is_found-get_record :
      (f k : String) (t : db.Table)
      → is_found (get_record (eq f (str k)) t) ≡ is_some (get_record (eq f (str k)) t)
  is_found-get_record f k t = rw (get_record_lem f k t) (is_found-first_row f k (db.all t))

  -- What is found under a key holds that key.
  pub key-get_record :
      (f k : String) (t : db.Table) (r : Document)
      → get_record (eq f (str k)) t ≡ some r
      → lookup f r.fields ≡ some (str k)
  key-get_record f k t r h =
      is_key-lookup f k r.fields
        (first_row-match (is_key f k) (db.all t) r (sym (get_record_lem f k t) ∙ h))
