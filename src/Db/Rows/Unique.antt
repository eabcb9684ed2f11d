-- ===== src/Db/Rows/Unique.antt =====
-- A condition that at most one document fits, over the writes to a table.
use bumper.Base.{◌≡◌, refl, Bool, true, false, [], ◌∷◌, ◌++◌, arith, Bool-cases, inl, inr, sym, ◌∙◌}
use bumper.Value.{Fields, update}
use bumper.Db.Rows.{Document, Rows, any_row, patch, drop_first}
use bumper.Db.Rows.Laws.{any_row-append}
use bumper.Db.Rows.Removal.{AtMostOne}

only_first :
    (p : Fields → Bool) (rs : Rows) (r s : Document)
    → p s.fields ≡ true
    → any_row p rs ≡ false
    → (p r.fields ≡ true → any_row p (s ∷ rs) ≡ false)
    → any_row p (rs ++ r ∷ []) ≡ false
only_first p rs r s e none_more absent =
    rw (any_row-append p rs r, none_more)
      (elim (Bool-cases (p r.fields)) [ inl k ↦ ground (arith, absent k) | inr k ↦ k ])

pub AtMostOne-append :
    (p : Fields → Bool) (rs : Rows) (r : Document)
    → AtMostOne p rs
    → (p r.fields ≡ true → any_row p rs ≡ false)
    → AtMostOne p (rs ++ r ∷ [])
AtMostOne-append p [] r h absent = (λ e. refl, tt)
AtMostOne-append p (s ∷ rs) r h absent = (
  λ e. only_first p rs r s e (h.0 e) absent,
  AtMostOne-append p rs r h.1 (λ e. ground (arith, absent e)),
)

module _ (p q : Fields → Bool) (f : Fields)
    (same : (d : Fields) → q d ≡ true → p (update d f) ≡ p d) where
  pub any_row-patch : (rs : Rows) → any_row p (patch q f rs) ≡ any_row p rs
  any_row-patch [] = refl
  any_row-patch (r ∷ rs) = elim (Bool-cases (q r.fields)) [
    | inl e ↦ ground (arith, same r.fields e, any_row-patch rs)
    | inr e ↦ ground (arith, any_row-patch rs)
  ]

  pub AtMostOne-patch : (rs : Rows) → AtMostOne p rs → AtMostOne p (patch q f rs)
  AtMostOne-patch [] h = tt
  AtMostOne-patch (r ∷ rs) h = elim (Bool-cases (q r.fields)) [
    | inl e ↦ rw e (λ k. any_row-patch rs ∙ h.0 (sym (same r.fields e) ∙ k), AtMostOne-patch rs h.1)
    | inr e ↦ rw e (λ k. any_row-patch rs ∙ h.0 k, AtMostOne-patch rs h.1)
  ]

any_row-drop_first :
    (p q : Fields → Bool) (rs : Rows) → any_row p rs ≡ false → any_row p (drop_first q rs) ≡ false
any_row-drop_first p q [] h = refl
any_row-drop_first p q (r ∷ rs) h = elim (Bool-cases (q r.fields)) [
  | inl e ↦ rw e (ground arith)
  | inr e ↦ rw e (ground (arith, any_row-drop_first p q rs))
]

pub AtMostOne-drop_first :
    (p q : Fields → Bool) (rs : Rows) → AtMostOne p rs → AtMostOne p (drop_first q rs)
AtMostOne-drop_first p q [] h = tt
AtMostOne-drop_first p q (r ∷ rs) h = elim (Bool-cases (q r.fields)) [
  | inl e ↦ rw e (h.1)
  | inr e ↦ rw e (λ k. any_row-drop_first p q rs (h.0 k), AtMostOne-drop_first p q rs h.1)
]
