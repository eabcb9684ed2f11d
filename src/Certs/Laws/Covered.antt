-- ===== src/Certs/Laws/Covered.antt =====
-- The certificate covers every domain that it is made for.
use bumper.Base.{
  Char, String, ◌≡◌, refl, false, ◌⊎◌, List, [], ◌∷◌, ◌++◌, Bool-cases, inl, inr, ap, sym, ◌∙◌,
}
use mathlib.Core.Path.{subst}
use bumper.Text.{append, split, join, contains_char, first_piece, char_eq}
use bumper.Text.Laws.{join-split, split-cons}
use bumper.Certs.{leaf, reversed, wildcard, build_from, all_entries, sorted, build_san_list}
use bumper.Certs.Laws.{In, there, Reaches, build_from-Reaches, Reaches-prefix}
use bumper.Certs.Laws.Entries.{all_entries-root, all_entries-In, sorted-In, map-In}

-- A name of a certificate covers a domain: it is the domain, or a wildcard for its first label.
pub data Covers : String → String → Type 0 where
  exact : {d : String} → Covers d d
  below :
      (name rest : String)
      → contains_char "." name ≡ false
      → Covers (append "*." rest) (append name (append "." rest))

first_piece-split : (c : Char) (s : String) → contains_char c (first_piece (split c s)) ≡ false
unfolding split contains_char
first_piece-split c String.[] = refl
first_piece-split c (String.◌∷◌ d s) = elim (Bool-cases (char_eq d c)) [
  | inl e ↦ rw e refl
  | inr e ↦
      let (p, ps, h) = split-cons c s in
      let k : contains_char c p ≡ false = rw h at (first_piece-split c s) in rw (e, h, e, k) refl
]

reversed-twice : (xs ys : List String) → reversed (reversed xs ys) [] ≡ reversed ys xs
reversed-twice [] ys = refl
reversed-twice (x ∷ xs) ys = reversed-twice xs (x ∷ ys)

reversed-snoc :
    (xs done : List String) (x : String) → reversed (xs ++ x ∷ []) done ≡ x ∷ reversed xs done
reversed-snoc [] done x = refl
reversed-snoc (y ∷ xs) done x = reversed-snoc xs (y ∷ done) x

same_join :
    (xs : List String) (a b : String) (us bs : List String)
    → join "." (a ∷ us) ≡ join "." (b ∷ bs)
    → join "." (reversed xs (a ∷ us)) ≡ join "." (reversed xs (b ∷ bs))
unfolding join
same_join [] a b us bs h = h
same_join (x ∷ xs) a b us bs h =
    same_join xs x x (a ∷ us) (b ∷ bs) (ap (λ t. append x (String.◌∷◌ "." t)) h)

reversed-some :
    (xs : List String) (a : String) (us : List String)
    → (b : String) × ((bs : List String) × (reversed xs (a ∷ us) ≡ b ∷ bs))
reversed-some [] a us = (a, (us, refl))
reversed-some (x ∷ xs) a us = reversed-some xs x (a ∷ us)

last_view :
    (xs : List String) → (xs ≡ []) ⊎ ((ms : List String) × ((x : String) × (xs ≡ ms ++ x ∷ [])))
last_view [] = inl refl
last_view (x ∷ xs) = elim (last_view xs) [
  | inl e ↦ inr ([], (x, rw e refl))
  | inr (ms, (y, e)) ↦ inr (x ∷ ms, (y, ap (λ zs. x ∷ zs) e))
]

two_labels :
    (a : String) (b : String) (bs : List String)
    → join "." (a ∷ b ∷ bs) ≡ append a (append "." (join "." (b ∷ bs)))
unfolding join append
two_labels a b bs = refl

-- The domain, read back from its labels.
from_labels :
    (d x y : String) (subparts : List String)
    → reversed (split "." d) [] ≡ x ∷ y ∷ subparts
    → d ≡ join "." (reversed subparts (join "." (y ∷ x ∷ []) ∷ []))
unfolding join
from_labels d x y subparts h =
    sym (join-split "." d)
    ∙ (ap (join ".") (sym (reversed-twice (split "." d) []))
        ∙ (ap (λ zs. join "." (reversed zs [])) h
            ∙ same_join subparts y (join "." (y ∷ x ∷ [])) (x ∷ []) [] refl))

first_label :
    (d x y m : String) (ms : List String)
    → reversed (split "." d) [] ≡ x ∷ y ∷ ms ++ m ∷ []
    → contains_char "." m ≡ false
first_label d x y m ms h =
    let p : split "." d ≡ m ∷ reversed ms (y ∷ x ∷ []) =
      sym (reversed-twice (split "." d) [])
      ∙ (ap (λ zs. reversed zs []) h ∙ reversed-snoc ms (y ∷ x ∷ []) m) in
    rw p at (first_piece-split "." d)

named :
    (entry : String) (domains : List String)
    → In entry (all_entries (build_from domains leaf) [])
    → In (append "DNS:" entry) (build_san_list domains)
unfolding build_san_list
named entry domains i = there (
    there (
      map-In (append "DNS:") entry (sorted (all_entries (build_from domains leaf) []))
        (sorted-In entry (all_entries (build_from domains leaf) []) i)))

abbrev pub Named : String → List String → Type 0
Named d domains =
    (entry : String) × (In (append "DNS:" entry) (build_san_list domains) × Covers entry d)

covered_below :
    (d x y m : String) (ms domains : List String)
    → reversed (split "." d) [] ≡ x ∷ y ∷ ms ++ m ∷ []
    → In d domains
    → Named d domains
covered_below d x y m ms domains h i =
    let root = join "." (y ∷ x ∷ []) in
    let r : Reaches (root ∷ ms ++ m ∷ []) (build_from domains leaf) =
      build_from-Reaches d x y (ms ++ m ∷ []) domains leaf h i in
    let up : Reaches (root ∷ ms) (build_from domains leaf) =
      Reaches-prefix (root ∷ ms) (m ∷ []) (build_from domains leaf) r in
    let (b, (bs, q)) = reversed-some ms root [] in
    let whole : d ≡ append m (append "." (join "." (reversed ms (root ∷ [])))) =
      from_labels d x y (ms ++ m ∷ []) h
      ∙ (ap (join ".") (reversed-snoc ms (root ∷ []) m) ∙ rw q (two_labels m b bs)) in
    (
      wildcard (reversed ms (root ∷ [])),
      (
        named (wildcard (reversed ms (root ∷ []))) domains
            (all_entries-In root ms (build_from domains leaf) [] up),
        subst (Covers (wildcard (reversed ms (root ∷ [])))) (sym whole)
            (below m (join "." (reversed ms (root ∷ []))) (first_label d x y m ms h)),
      ),
    )

covered_root :
    (d x y : String) (domains : List String)
    → reversed (split "." d) [] ≡ x ∷ y ∷ []
    → In d domains
    → Named d domains
unfolding join
covered_root d x y domains h i =
    let root = join "." (y ∷ x ∷ []) in
    let r : Reaches (root ∷ []) (build_from domains leaf) =
      build_from-Reaches d x y [] domains leaf h i in
    (
      root,
      (
        named root domains (all_entries-root root [] (build_from domains leaf) [] r),
        subst (Covers root) (sym (from_labels d x y [] h)) exact,
      ),
    )

-- Every domain of at least two labels that is in the list is covered by a name of the certificate:
-- by itself, or by a wildcard that stands for its first label alone.
pub build_san_list-Covers :
    (d x y : String) (subparts domains : List String)
    → reversed (split "." d) [] ≡ x ∷ y ∷ subparts
    → In d domains
    → (entry : String) × (In (append "DNS:" entry) (build_san_list domains) × Covers entry d)
build_san_list-Covers d x y subparts domains h i = elim (last_view subparts) [
  | inl e ↦ covered_root d x y domains (rw e at h) i
  | inr (ms, (m, e)) ↦ covered_below d x y m ms domains (rw e at h) i
]
