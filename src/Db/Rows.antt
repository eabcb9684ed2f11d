-- ===== src/Db/Rows.antt =====
-- The rows of a table as a list of documents, and the list operations in which the documented
-- behaviour of the document store is stated.
pub mod Laws
pub mod Removal
pub mod Unique
use bumper.Base.{
  ℕ, zero, suc, ◌≡◌, refl, ◌≢◌, Bool, true, false, ◌&&◌, ◌||◌, Option, none, some, List, [], ◌∷◌,
  ◌++◌, arith, nat_eq, if◌then◌else◌, Bool-cases, inl, inr,
}
use bumper.Value.{Fields, update}

pub record Document : Type 0 where
  pub doc_id : ℕ
  pub fields : Fields

abbrev pub Rows : Type 0
Rows = List Document

abbrev pub ids : Rows → List ℕ
ids [] = []
ids (r ∷ rs) = r.doc_id ∷ ids rs

abbrev pub contents : Rows → List Fields
contents [] = []
contents (r ∷ rs) = r.fields ∷ contents rs

abbrev pub has_id : ℕ → Rows → Bool
has_id i [] = false
has_id i (r ∷ rs) = nat_eq r.doc_id i || has_id i rs

-- Every identifier names one document.
abbrev pub IsKeyed : Rows → Type 0
IsKeyed [] = Unit
IsKeyed (r ∷ rs) = (has_id r.doc_id rs ≡ false) × IsKeyed rs

abbrev pub mem_id : ℕ → List ℕ → Bool
mem_id i [] = false
mem_id i (j ∷ js) = nat_eq j i || mem_id i js

-- The rows without those whose identifier is listed.
abbrev pub drop_ids : List ℕ → Rows → Rows
drop_ids js [] = []
drop_ids js (r ∷ rs) = if mem_id r.doc_id js then drop_ids js rs else r ∷ drop_ids js rs

module _ (p : Fields → Bool) where
  abbrev pub first_row : Rows → Option Document
  first_row [] = none
  first_row (r ∷ rs) = if p r.fields then some r else first_row rs

  abbrev pub select : Rows → Rows
  select [] = []
  select (r ∷ rs) = if p r.fields then r ∷ select rs else select rs

  abbrev pub any_row : Rows → Bool
  any_row [] = false
  any_row (r ∷ rs) = p r.fields || any_row rs

  -- The rows that fit, updated by `f`; the others as they are.
  abbrev pub patch : Fields → Rows → Rows
  patch f [] = []
  patch f (r ∷ rs) =
      (if p r.fields then record r { fields = update r.fields f } else r) ∷ patch f rs

  abbrev pub drop_where : Rows → Rows
  drop_where [] = []
  drop_where (r ∷ rs) = if p r.fields then drop_where rs else r ∷ drop_where rs

  -- The rows with the first one that fits left out.
  abbrev pub drop_first : Rows → Rows
  drop_first [] = []
  drop_first (r ∷ rs) = if p r.fields then rs else r ∷ drop_first rs

abbrev pub head_row : Rows → Option Document
head_row [] = none
head_row (r ∷ rs) = some r
