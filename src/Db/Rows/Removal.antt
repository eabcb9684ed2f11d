-- ===== src/Db/Rows/Removal.antt =====
-- Lemmas on rows: removal by identifier and by condition, and the invariant of the identifiers.
use bumper.Base.{
  ℕ, ◌≡◌, refl, Bool, true, false, ◌||◌, none, some, List, [], ◌∷◌, ◌++◌, arith, nat_eq, Bool-cases,
  inl, inr, ap, sym, ◌∙◌,
}
use bumper.Value.{Fields}
use bumper.Db.Rows.Laws.{any_row-first_row}
use bumper.Db.Rows.{
  Document, Rows, ids, has_id, IsKeyed, drop_ids, mem_id, first_row, select, any_row, patch,
  drop_where, drop_first,
}

-- At most one document fits.
abbrev pub AtMostOne : (Fields → Bool) → Rows → Type 0
AtMostOne p [] = Unit
AtMostOne p (r ∷ rs) = (p r.fields ≡ true → any_row p rs ≡ false) × AtMostOne p rs

drop_ids_absent : (i : ℕ) (rs : Rows) → has_id i rs ≡ false → drop_ids (i ∷ []) rs ≡ rs
drop_ids_absent i [] h = refl
drop_ids_absent i (r ∷ rs) h = ground (arith, drop_ids_absent i rs)

has_id-first_row :
    (p : Fields → Bool) (rs : Rows) (r : Document)
    → first_row p rs ≡ some r
    → has_id r.doc_id rs ≡ true
has_id-first_row p [] r h = cc
has_id-first_row p (s ∷ rs) r h = ground (arith, has_id-first_row p rs r)

-- Removing the first match by its identifier removes that document alone.
pub drop_ids-first :
    (p : Fields → Bool) (rs : Rows) (r : Document)
    → IsKeyed rs
    → first_row p rs ≡ some r
    → drop_ids (r.doc_id ∷ []) rs ≡ drop_first p rs
drop_ids-first p [] r keyed h = refl
drop_ids-first p (s ∷ rs) r keyed h = elim (Bool-cases (p s.fields)) [
  | inl e ↦ ground (arith, drop_ids_absent r.doc_id rs)
  | inr e ↦ ground (arith, drop_ids-first p rs r keyed.1, has_id-first_row p rs r)
]

module _ (p : Fields → Bool) where
  pub first_row-drop_first : (rs : Rows) → AtMostOne p rs → first_row p (drop_first p rs) ≡ none
  first_row-drop_first [] h = refl
  first_row-drop_first (r ∷ rs) h = elim (Bool-cases (p r.fields)) [
    | inl e ↦ rw e (any_row-first_row p rs (h.0 e))
    | inr e ↦ rw (e, e) (first_row-drop_first rs h.1)
  ]

  pub first_row-drop_first_other :
      (q : Fields → Bool) (rs : Rows)
      → ((d : Fields) → p d ≡ true → q d ≡ false)
      → first_row q (drop_first p rs) ≡ first_row q rs
  first_row-drop_first_other q [] h = refl
  first_row-drop_first_other q (r ∷ rs) h = elim (Bool-cases (p r.fields)) [
    | inl e ↦ rw (e, h r.fields e)
    | inr e ↦ rw e (ground (arith, first_row-drop_first_other q rs h))
  ]

  pub first_row-drop_where : (rs : Rows) → any_row p (drop_where p rs) ≡ false
  first_row-drop_where [] = refl
  first_row-drop_where (r ∷ rs) = ground (arith, first_row-drop_where rs)

  pub select-drop_where_other :
      (q : Fields → Bool) (rs : Rows)
      → ((d : Fields) → p d ≡ true → q d ≡ false)
      → select q (drop_where p rs) ≡ select q rs
  select-drop_where_other q [] h = refl
  select-drop_where_other q (r ∷ rs) h = elim (Bool-cases (p r.fields)) [
    | inl e ↦ rw (e, h r.fields e) (select-drop_where_other q rs h)
    | inr e ↦ rw e (ground (arith, select-drop_where_other q rs h))
  ]

-- A new document with a fresh identifier, an update and a removal keep identifiers apart.
has_id-append :
    (i : ℕ) (rs : Rows) (r : Document)
    → has_id i (rs ++ r ∷ []) ≡ (has_id i rs || nat_eq r.doc_id i)
has_id-append i [] r = ground arith
has_id-append i (s ∷ rs) r = ground (arith, has_id-append i rs r)

pub IsKeyed-append :
    (rs : Rows) (r : Document) → IsKeyed rs → has_id r.doc_id rs ≡ false → IsKeyed (rs ++ r ∷ [])
IsKeyed-append [] r h e = (refl, tt)
IsKeyed-append (s ∷ rs) r h e = ground (arith, IsKeyed-append rs r h.1, has_id-append s.doc_id rs r)

has_id-patch :
    (p : Fields → Bool) (f : Fields) (i : ℕ) (rs : Rows) → has_id i (patch p f rs) ≡ has_id i rs
has_id-patch p f i [] = refl
has_id-patch p f i (r ∷ rs) = ground (arith, has_id-patch p f i rs)

pub IsKeyed-patch :
    (p : Fields → Bool) (f : Fields) (rs : Rows) → IsKeyed rs → IsKeyed (patch p f rs)
IsKeyed-patch p f [] h = tt
IsKeyed-patch p f (r ∷ rs) h =
    ground (arith, IsKeyed-patch p f rs h.1, has_id-patch p f r.doc_id rs)

has_id-drop_ids :
    (js : List ℕ) (i : ℕ) (rs : Rows) → has_id i rs ≡ false → has_id i (drop_ids js rs) ≡ false
has_id-drop_ids js i [] h = refl
has_id-drop_ids js i (r ∷ rs) h = ground (arith, has_id-drop_ids js i rs)

pub IsKeyed-drop_ids : (js : List ℕ) (rs : Rows) → IsKeyed rs → IsKeyed (drop_ids js rs)
IsKeyed-drop_ids js [] h = tt
IsKeyed-drop_ids js (r ∷ rs) h =
    ground (arith, IsKeyed-drop_ids js rs h.1, has_id-drop_ids js r.doc_id rs)

pub drop_ids-nil : (rs : Rows) → drop_ids [] rs ≡ rs
drop_ids-nil [] = refl
drop_ids-nil (r ∷ rs) = rw (drop_ids-nil rs)

-- Removals one after the other come to one removal of all.
pub drop_ids-cons :
    (i : ℕ) (js : List ℕ) (rs : Rows) → drop_ids js (drop_ids (i ∷ []) rs) ≡ drop_ids (i ∷ js) rs
drop_ids-cons i js [] = refl
drop_ids-cons i js (r ∷ rs) = ground (arith, drop_ids-cons i js rs)

mem_id-ids : (i : ℕ) (rs : Rows) → mem_id i (ids rs) ≡ has_id i rs
mem_id-ids i [] = refl
mem_id-ids i (r ∷ rs) = ground (arith, mem_id-ids i rs)

has_id-select :
    (p : Fields → Bool) (i : ℕ) (rs : Rows) → has_id i rs ≡ false → has_id i (select p rs) ≡ false
has_id-select p i [] h = refl
has_id-select p i (r ∷ rs) h = ground (arith, has_id-select p i rs)

drop_ids-skip :
    (i : ℕ) (js : List ℕ) (rs : Rows) → has_id i rs ≡ false → drop_ids (i ∷ js) rs ≡ drop_ids js rs
drop_ids-skip i js [] h = refl
drop_ids-skip i js (r ∷ rs) h = ground (arith, drop_ids-skip i js rs)

nat_eq_self : (i : ℕ) → nat_eq i i ≡ true
nat_eq_self i = ground arith

module _ (p : Fields → Bool) (r : Document) (rs : Rows) where
  select_yes : p r.fields ≡ true → select p (r ∷ rs) ≡ r ∷ select p rs
  select_yes e = rw e

  select_no : p r.fields ≡ false → select p (r ∷ rs) ≡ select p rs
  select_no e = rw e

  drop_where_yes : p r.fields ≡ true → drop_where p (r ∷ rs) ≡ drop_where p rs
  drop_where_yes e = rw e

  drop_where_no : p r.fields ≡ false → drop_where p (r ∷ rs) ≡ r ∷ drop_where p rs
  drop_where_no e = rw e

drop_head :
    (r : Document) (js : List ℕ) (rs : Rows)
    → drop_ids (r.doc_id ∷ js) (r ∷ rs) ≡ drop_ids (r.doc_id ∷ js) rs
drop_head r js rs = rw (nat_eq_self r.doc_id)

keep_head :
    (r : Document) (js : List ℕ) (rs : Rows)
    → mem_id r.doc_id js ≡ false
    → drop_ids js (r ∷ rs) ≡ r ∷ drop_ids js rs
keep_head r js rs e = rw e

select_hit :
    (p : Fields → Bool) (r : Document) (rs : Rows)
    → IsKeyed (r ∷ rs)
    → p r.fields ≡ true
    → drop_ids (ids (select p rs)) rs ≡ drop_where p rs
    → drop_ids (ids (select p (r ∷ rs))) (r ∷ rs) ≡ drop_where p (r ∷ rs)
select_hit p r rs h e ih =
    ap (λ l. drop_ids (ids l) (r ∷ rs)) (select_yes p r rs e)
    ∙ drop_head r (ids (select p rs)) rs
    ∙ drop_ids-skip r.doc_id (ids (select p rs)) rs h.0
    ∙ ih
    ∙ sym (drop_where_yes p r rs e)

select_miss :
    (p : Fields → Bool) (r : Document) (rs : Rows)
    → IsKeyed (r ∷ rs)
    → p r.fields ≡ false
    → drop_ids (ids (select p rs)) rs ≡ drop_where p rs
    → drop_ids (ids (select p (r ∷ rs))) (r ∷ rs) ≡ drop_where p (r ∷ rs)
select_miss p r rs h e ih =
    ap (λ l. drop_ids (ids l) (r ∷ rs)) (select_no p r rs e)
    ∙ keep_head r (ids (select p rs)) rs
        (mem_id-ids r.doc_id (select p rs) ∙ has_id-select p r.doc_id rs h.0)
    ∙ ap (λ l. r ∷ l) ih
    ∙ sym (drop_where_no p r rs e)

-- Removing by their identifiers the documents that a query selects removes just those that fit.
pub drop_ids-select :
    (p : Fields → Bool) (rs : Rows) → IsKeyed rs → drop_ids (ids (select p rs)) rs ≡ drop_where p rs
drop_ids-select p [] h = refl
drop_ids-select p (r ∷ rs) h = elim (Bool-cases (p r.fields)) [
  | inl e ↦ select_hit p r rs h e (drop_ids-select p rs h.1)
  | inr e ↦ select_miss p r rs h e (drop_ids-select p rs h.1)
]
