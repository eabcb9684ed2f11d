-- ===== src/Text/Laws.antt =====
-- Splitting and joining.
use text.Mathlib.TextEquality.{Char-path}
use bumper.Base.{
  Char, String, ◌≡◌, refl, true, false, List, [], ◌∷◌, arith, Bool-cases, inl, inr, ap, ◌∙◌, sym,
}
use bumper.Text.{char_eq, append, split, join, contains_char}

char_eq→eq : (c d : Char) → char_eq c d ≡ true → c ≡ d
char_eq→eq c d h = Char-path c d (ground arith)

pub split-cons : (c : Char) (s : String) → (p : String) × (ps : List String) × (split c s ≡ p ∷ ps)
unfolding split
split-cons c String.[] = (String.[], [], refl)
split-cons c (String.◌∷◌ d s) = elim (Bool-cases (char_eq d c)) [
  | inl e ↦ (String.[], split c s, rw e)
  | inr e ↦ let (p, ps, h) = split-cons c s in (String.◌∷◌ d p, ps, rw (e, h))
]

join-push :
    (c d : Char) (p : String) (ps : List String)
    → join c (String.◌∷◌ d p ∷ ps) ≡ String.◌∷◌ d (join c (p ∷ ps))
unfolding join append
join-push c d p [] = refl
join-push c d p (q ∷ ps) = refl

-- Joining the pieces of a split gives the text back.
pub join-split : (c : Char) (s : String) → join c (split c s) ≡ s
unfolding split join append
join-split c String.[] = refl
join-split c (String.◌∷◌ d s) = elim (Bool-cases (char_eq d c)) [
  | inl e ↦
      let (p, ps, h) = split-cons c s in
      rw (e, h)
        (ap (String.◌∷◌ c) (join-split c s) ∙ ap (λ x. String.◌∷◌ x s) (sym (char_eq→eq d c e)))
  | inr e ↦
      let (p, ps, h) = split-cons c s in
      rw (e, h) (join-push c d p ps ∙ ap (String.◌∷◌ d) (ap (join c) (sym h) ∙ join-split c s))
]

-- A text without the separator is the first piece of what follows it behind a separator.
pub split-append :
    (c : Char) (p s : String)
    → contains_char c p ≡ false
    → split c (append p (String.◌∷◌ c s)) ≡ p ∷ split c s
unfolding split append contains_char
split-append c String.[] s h = ground arith
split-append c (String.◌∷◌ d p) s h = ground (arith, split-append c p s)

pub split-single : (c : Char) (p : String) → contains_char c p ≡ false → split c p ≡ p ∷ []
unfolding split contains_char
split-single c String.[] h = refl
split-single c (String.◌∷◌ d p) h = ground (arith, split-single c p)
