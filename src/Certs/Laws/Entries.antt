-- ===== src/Certs/Laws/Entries.antt =====
-- The entries that are made of the tree of domains.
use bumper.Base.{
  String, ◌≡◌, true, List, [], ◌∷◌, ◌==◌, contains, map, Bool-cases, inl, inr, eq_iff,
}
use mathlib.Core.Path.{subst}
use bumper.Certs.{
  Tree, leaf, label, reversed, add_entry, wildcard, generate_below, generate_wildcards, all_entries,
  insert_sorted, sorted, text_lt,
}
use bumper.Certs.Laws.{In, here, there, Reaches, down, aside}

contains-In : (e : String) (es : List String) → contains es e ≡ true → In e es
contains-In e [] h = absurd cc
contains-In e (x ∷ es) h = elim (Bool-cases (x == e)) [
  | inl k ↦ subst (λ y. In y (x ∷ es)) ((eq_iff x e).0 k) here
  | inr k ↦ there (contains-In e es (rw k at h))
]

add_entry-In : (e : String) (es : List String) → In e (add_entry e es)
add_entry-In e es = elim (Bool-cases (contains es e)) [
  | inl k ↦ rw k (contains-In e es k)
  | inr k ↦ rw k here
]

add_entry-keeps : (e w : String) (es : List String) → In w es → In w (add_entry e es)
add_entry-keeps e w es i = elim (Bool-cases (contains es e)) [
  | inl k ↦ rw k i
  | inr k ↦ rw k (there i)
]

generate_below-keeps :
    (t : Tree) (parents es : List String) (w : String)
    → In w es
    → In w (generate_below t parents es)
unfolding generate_below
generate_below-keeps leaf parents es w i = i
generate_below-keeps (label name below rest) parents es w i =
    generate_below-keeps rest parents
      (generate_below below (name ∷ parents) (add_entry (wildcard (name ∷ parents)) es)) w
      (generate_below-keeps below (name ∷ parents) (add_entry (wildcard (name ∷ parents)) es) w
        (add_entry-keeps (wildcard (name ∷ parents)) w es i))

-- A wildcard over every dictionary of the tree.
generate_below-In :
    (p : String) (ps : List String) (t : Tree) (parents es : List String)
    → Reaches (p ∷ ps) t
    → In (wildcard (reversed ps (p ∷ parents))) (generate_below t parents es)
unfolding generate_below
generate_below-In p ps leaf parents es r = elim r [ ]
generate_below-In p [] (label p' below rest) parents es (down r) =
    generate_below-keeps rest parents
      (generate_below below (p ∷ parents) (add_entry (wildcard (p ∷ parents)) es))
      (wildcard (p ∷ parents))
      (generate_below-keeps below (p ∷ parents) (add_entry (wildcard (p ∷ parents)) es)
        (wildcard (p ∷ parents)) (add_entry-In (wildcard (p ∷ parents)) es))
generate_below-In p (q ∷ qs) (label p' below rest) parents es (down r) =
    generate_below-keeps rest parents
      (generate_below below (p ∷ parents) (add_entry (wildcard (p ∷ parents)) es))
      (wildcard (reversed qs (q ∷ p ∷ parents)))
      (generate_below-In q qs below (p ∷ parents) (add_entry (wildcard (p ∷ parents)) es) r)
generate_below-In p ps (label q below rest) parents es (aside r) =
    generate_below-In p ps rest parents
      (generate_below below (q ∷ parents) (add_entry (wildcard (q ∷ parents)) es)) r

all_entries-keeps : (t : Tree) (es : List String) (w : String) → In w es → In w (all_entries t es)
unfolding all_entries
all_entries-keeps leaf es w i = i
all_entries-keeps (label root below rest) es w i =
    all_entries-keeps rest (generate_wildcards below (root ∷ []) (add_entry root es)) w (
      generate_below-keeps below (root ∷ []) (add_entry (wildcard (root ∷ [])) (add_entry root es))
        w
        (add_entry-keeps (wildcard (root ∷ [])) w (add_entry root es)
          (add_entry-keeps root w es i)))

-- A root has its own name.
pub all_entries-root :
    (root : String) (ps : List String) (t : Tree) (es : List String)
    → Reaches (root ∷ ps) t
    → In root (all_entries t es)
unfolding all_entries
all_entries-root root ps leaf es r = elim r [ ]
all_entries-root root ps (label q below rest) es (down r) =
    all_entries-keeps rest (generate_wildcards below (root ∷ []) (add_entry root es)) root (
      generate_below-keeps below (root ∷ []) (add_entry (wildcard (root ∷ [])) (add_entry root es))
        root
        (add_entry-keeps (wildcard (root ∷ [])) root (add_entry root es) (add_entry-In root es)))
all_entries-root root ps (label q below rest) es (aside r) =
    all_entries-root root ps rest (generate_wildcards below (q ∷ []) (add_entry q es)) r

-- A root, and every domain below it, has its wildcard.
pub all_entries-In :
    (root : String) (ps : List String) (t : Tree) (es : List String)
    → Reaches (root ∷ ps) t
    → In (wildcard (reversed ps (root ∷ []))) (all_entries t es)
unfolding all_entries
all_entries-In root ps leaf es r = elim r [ ]
all_entries-In root [] (label q below rest) es (down r) =
    all_entries-keeps rest (generate_wildcards below (root ∷ []) (add_entry root es))
      (wildcard (root ∷ []))
      (generate_below-keeps below (root ∷ []) (add_entry (wildcard (root ∷ [])) (add_entry root es))
        (wildcard (root ∷ [])) (add_entry-In (wildcard (root ∷ [])) (add_entry root es)))
all_entries-In root (p ∷ ps) (label q below rest) es (down r) =
    all_entries-keeps rest (generate_wildcards below (root ∷ []) (add_entry root es))
      (wildcard (reversed ps (p ∷ root ∷ [])))
      (generate_below-In p ps below (root ∷ [])
        (add_entry (wildcard (root ∷ [])) (add_entry root es)) r)
all_entries-In root ps (label q below rest) es (aside r) =
    all_entries-In root ps rest (generate_wildcards below (q ∷ []) (add_entry q es)) r

insert_sorted-In : (s : String) (ts : List String) → In s (insert_sorted s ts)
unfolding insert_sorted
insert_sorted-In s [] = here
insert_sorted-In s (t ∷ ts) = elim (Bool-cases (text_lt t s)) [
  | inl k ↦ rw k (there (insert_sorted-In s ts))
  | inr k ↦ rw k here
]

insert_sorted-keeps : (s w : String) (ts : List String) → In w ts → In w (insert_sorted s ts)
unfolding insert_sorted
insert_sorted-keeps s w [] i = elim i [ ]
insert_sorted-keeps s w (t ∷ ts) here = elim (Bool-cases (text_lt t s)) [
  | inl k ↦ rw k here
  | inr k ↦ rw k (there here)
]
insert_sorted-keeps s w (t ∷ ts) (there i) = elim (Bool-cases (text_lt t s)) [
  | inl k ↦ rw k (there (insert_sorted-keeps s w ts i))
  | inr k ↦ rw k (there (there i))
]

pub sorted-In : (w : String) (ts : List String) → In w ts → In w (sorted ts)
unfolding sorted
sorted-In w [] i = elim i [ ]
sorted-In w (t ∷ ts) here = insert_sorted-In t (sorted ts)
sorted-In w (t ∷ ts) (there i) = insert_sorted-keeps t w (sorted ts) (sorted-In w ts i)

pub map-In : (f : String → String) (w : String) (ts : List String) → In w ts → In (f w) (map f ts)
map-In f w [] i = elim i [ ]
map-In f w (t ∷ ts) here = here
map-In f w (t ∷ ts) (there i) = there (map-In f w ts i)
