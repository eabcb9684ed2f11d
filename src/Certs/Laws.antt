-- ===== src/Certs/Laws.antt =====
-- The certificate is made for every domain of the list.
pub mod Entries
pub mod Covered
use bumper.Base.{
  ℕ, Char, String, ◌≡◌, refl, Bool, true, false, Option, List, [], ◌∷◌, ◌++◌, ◌==◌, if◌then◌else◌,
  contains, map, Bool-cases, inl, inr, eq_iff, ap, sym, ◌∙◌,
}
use mathlib.Core.Path.{subst}
use bumper.Text.{append, split, join, contains_char}
use bumper.Certs.{
  Tree, leaf, label, put_at, add_path, reversed, add_labels, add_domain, build_from, add_entry,
  wildcard, generate_below, generate_wildcards, all_entries, insert_sorted, sorted, build_san_list,
}

pub data In : String → List String → Type 0 where
  here : {s : String} {xs : List String} → In s (s ∷ xs)
  there : {s x : String} {xs : List String} → In s xs → In s (x ∷ xs)

-- Some dictionary lies at the end of the labels.
pub data Reaches : List String → Tree → Type 0 where
  top : {t : Tree} → Reaches [] t
  down :
      {p : String} {ps : List String} {below rest : Tree}
      → Reaches ps below
      → Reaches (p ∷ ps) (label p below rest)
  aside :
      {p q : String} {ps : List String} {below rest : Tree}
      → Reaches (p ∷ ps) rest
      → Reaches (p ∷ ps) (label q below rest)

put_at-Reaches :
    (p : String) (ps : List String) (f : Tree → Tree) (t : Tree)
    → ((u : Tree) → Reaches ps (f u))
    → Reaches (p ∷ ps) (put_at p f t)
unfolding put_at
put_at-Reaches p ps f leaf h = down (h leaf)
put_at-Reaches p ps f (label q below rest) h = elim (Bool-cases (q == p)) [
  | inl e ↦
      let k : q ≡ p = (eq_iff q p).0 e in
      rw e (subst (λ x. Reaches (x ∷ ps) (label q (f below) rest)) k (down (h below)))
  | inr e ↦ rw e (aside (put_at-Reaches p ps f rest h))
]

add_path-Reaches : (ps : List String) (t : Tree) → Reaches ps (add_path ps t)
unfolding add_path
add_path-Reaches [] t = top
add_path-Reaches (p ∷ ps) t = put_at-Reaches p ps (add_path ps) t (add_path-Reaches ps)

-- What was reached still is.
put_at-keeps :
    (p : String) (f : Tree → Tree) (t : Tree) (qs : List String)
    → ((u : Tree) (rs : List String) → Reaches rs u → Reaches rs (f u))
    → Reaches qs t
    → Reaches qs (put_at p f t)
unfolding put_at
put_at-keeps p f t qs h top = top
put_at-keeps p f t qs h (down {p = q} {ps = rs} {below} {rest} r) = elim (Bool-cases (q == p)) [
  | inl e ↦ rw e (down (h below rs r))
  | inr e ↦ rw e (down r)
]
put_at-keeps p f t qs h (aside {p = q} {q = q'} {ps = rs} {below} {rest} r) =
    elim (Bool-cases (q' == p)) [
      | inl e ↦ rw e (aside r)
      | inr e ↦ rw e (aside (put_at-keeps p f rest (q ∷ rs) h r))
    ]

add_path-keeps :
    (ps : List String) (t : Tree) (qs : List String) → Reaches qs t → Reaches qs (add_path ps t)
unfolding add_path
add_path-keeps [] t qs r = r
add_path-keeps (p ∷ ps) t qs r = put_at-keeps p (add_path ps) t qs (add_path-keeps ps) r

add_labels-keeps :
    (labels : List String) (t : Tree) (qs : List String)
    → Reaches qs t
    → Reaches qs (add_labels labels t)
add_labels-keeps [] t qs r = r
add_labels-keeps (x ∷ []) t qs r = r
add_labels-keeps (x ∷ y ∷ subparts) t qs r =
    put_at-keeps (join "." (y ∷ x ∷ [])) (add_path subparts) t qs (add_path-keeps subparts) r

build_from-keeps :
    (ds : List String) (t : Tree) (qs : List String) → Reaches qs t → Reaches qs (build_from ds t)
unfolding build_from
build_from-keeps [] t qs r = r
build_from-keeps (d ∷ ds) t qs r =
    build_from-keeps ds (add_domain d t) qs (add_labels-keeps (reversed (split "." d) []) t qs r)

-- The tree holds every domain of the list.
pub build_from-Reaches :
    (d x y : String) (subparts ds : List String) (t : Tree)
    → reversed (split "." d) [] ≡ x ∷ y ∷ subparts
    → In d ds
    → Reaches (join "." (y ∷ x ∷ []) ∷ subparts) (build_from ds t)
unfolding build_from
build_from-Reaches d x y subparts ds t h (here {xs = ds'}) =
    build_from-keeps ds' (add_domain d t) (join "." (y ∷ x ∷ []) ∷ subparts) (
      rw h (
        put_at-Reaches (join "." (y ∷ x ∷ [])) subparts (add_path subparts) t
          (add_path-Reaches subparts)))
build_from-Reaches d x y subparts ds t h (there {x = e} {xs = ds'} i) =
    build_from-Reaches d x y subparts ds' (add_domain e t) h i

-- What lies above a dictionary is there too.
pub Reaches-prefix : (ps qs : List String) (t : Tree) → Reaches (ps ++ qs) t → Reaches ps t
Reaches-prefix [] qs t r = top
Reaches-prefix (p ∷ ps) qs leaf r = elim r [ ]
Reaches-prefix (p ∷ ps) qs (label q below rest) (down r) = down (Reaches-prefix ps qs below r)
Reaches-prefix (p ∷ ps) qs (label q below rest) (aside r) =
    aside (Reaches-prefix (p ∷ ps) qs rest r)
