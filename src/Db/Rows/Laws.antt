-- ===== src/Db/Rows/Laws.antt =====
-- Lemmas on rows: what an update, an insertion and a removal do to the first row that fits.
use bumper.Base.{
  ◌≡◌, refl, Bool, true, false, ◌||◌, Option, none, some, [], ◌∷◌, ◌++◌, arith, if◌then◌else◌,
  is_some, Bool-cases, inl, inr,
}
use bumper.Value.{Fields, update}
use bumper.Db.Rows.{Document, Rows, first_row, select, any_row, patch, head_row}

abbrev pub map_fields : (Fields → Fields) → Option Document → Option Document
map_fields f none = none
map_fields f (some r) = some (record r { fields = f r.fields })

module _ (p : Fields → Bool) where
  pub head_row-select : (rs : Rows) → head_row (select p rs) ≡ first_row p rs
  head_row-select [] = refl
  head_row-select (r ∷ rs) = ground (arith, head_row-select rs)

  pub any_row-first_row : (rs : Rows) → any_row p rs ≡ false → first_row p rs ≡ none
  any_row-first_row [] h = refl
  any_row-first_row (r ∷ rs) h = ground (arith, any_row-first_row rs)

  pub first_row-any_row : (rs : Rows) → first_row p rs ≡ none → any_row p rs ≡ false
  first_row-any_row [] h = refl
  first_row-any_row (r ∷ rs) h = ground (arith, first_row-any_row rs)

  pub first_row-append :
      (rs : Rows) (r : Document)
      → first_row p (rs ++ r ∷ [])
        ≡ elim (first_row p rs) [ none ↦ if p r.fields then some r else none | some s ↦ some s ]
  first_row-append [] r = refl
  first_row-append (s ∷ rs) r = ground (arith, first_row-append rs r)

  pub select-append :
      (rs : Rows) (r : Document)
      → select p (rs ++ r ∷ []) ≡ select p rs ++ (if p r.fields then r ∷ [] else [])
  select-append [] r = refl
  select-append (s ∷ rs) r = ground (arith, select-append rs r)

  pub any_row-append :
      (rs : Rows) (r : Document) → any_row p (rs ++ r ∷ []) ≡ (any_row p rs || p r.fields)
  any_row-append [] r = ground arith
  any_row-append (s ∷ rs) r = ground (arith, any_row-append rs r)

  -- An update that changes no document's answer to `q` changes what `q` finds only by itself:
  -- where the rows found are those updated, they come back updated.
  pub first_row-patch :
      (f : Fields) (rs : Rows)
      → ((d : Fields) → p (update d f) ≡ p d)
      → first_row p (patch p f rs) ≡ map_fields (λ d. update d f) (first_row p rs)
  first_row-patch f [] h = refl
  first_row-patch f (r ∷ rs) h = elim (Bool-cases (p r.fields)) [
    | inl e ↦ ground (arith, h r.fields)
    | inr e ↦ ground (arith, first_row-patch f rs h)
  ]

  -- Where no row that fits `p` is found by `q`, the update leaves what `q` finds alone.
  pub first_row-patch_other :
      (q : Fields → Bool) (f : Fields) (rs : Rows)
      → ((d : Fields) → p d ≡ true → q d ≡ false)
      → ((d : Fields) → q (update d f) ≡ q d)
      → first_row q (patch p f rs) ≡ first_row q rs
  first_row-patch_other q f [] h k = refl
  first_row-patch_other q f (r ∷ rs) h k = elim (Bool-cases (p r.fields)) [
    | inl e ↦ ground (arith, h r.fields e, k r.fields, first_row-patch_other q f rs h k)
    | inr e ↦ ground (arith, first_row-patch_other q f rs h k)
  ]

  pub is_some-first_row : (rs : Rows) → is_some (first_row p rs) ≡ any_row p rs
  is_some-first_row [] = refl
  is_some-first_row (r ∷ rs) = ground (arith, is_some-first_row rs)

  pub first_row-match : (rs : Rows) (r : Document) → first_row p rs ≡ some r → p r.fields ≡ true
  first_row-match [] r h = cc
  first_row-match (s ∷ rs) r h = elim (Bool-cases (p s.fields)) [
    | inl e ↦ ground arith
    | inr e ↦ ground (arith, first_row-match rs r)
  ]
