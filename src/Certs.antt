-- ===== src/Certs.antt =====
-- The names that the server's certificate is made for, `bumper/utils/certs.py`: the tree of the
-- domains, the wildcards over its levels, and the list of names. Keys, signatures and files are
-- calls of a library.
pub mod Domains
pub mod Generate
pub mod Laws
use bumper.Base.{
  ℕ, Char, code, String, Bool, true, false, ltb, nat_eq, List, [], ◌∷◌, ◌==◌, if◌then◌else◌,
  contains, map,
}
use bumper.Text.{append, split, join}

-- A dictionary from labels to dictionaries, its keys in insertion order.
pub data Tree : Type 0 where
  leaf : Tree
  label : String → Tree → Tree → Tree

-- `d[name] = f(d.setdefault(name, {}))`
unfoldable pub put_at : String → (Tree → Tree) → Tree → Tree
put_at name f leaf = label name (f leaf) leaf
put_at name f (label other below rest) =
    let rest' = put_at name f rest in
    if other == name then label other (f below) rest else label other below rest'

-- Down the labels, the one next to the root first.
unfoldable pub add_path : List String → Tree → Tree
unfolding put_at
add_path [] t = t
add_path (p ∷ ps) t = put_at p (add_path ps) t

abbrev pub reversed : List String → List String → List String
reversed [] done = done
reversed (x ∷ xs) done = reversed xs (x ∷ done)

-- A domain of one label is left out.
abbrev pub add_labels : List String → Tree → Tree
add_labels (top ∷ second ∷ subparts) t = put_at (join "." (second ∷ top ∷ [])) (add_path subparts) t
add_labels labels t = t

abbrev pub add_domain : String → Tree → Tree
add_domain domain t = add_labels (reversed (split "." domain) []) t

-- `_build_domain_tree`
unfoldable pub build_from : List String → Tree → Tree
unfolding add_path
build_from [] t = t
build_from (d ∷ ds) t = build_from ds (add_domain d t)

-- `set.add`, of a set as the list of its members.
abbrev pub add_entry : String → List String → List String
add_entry e es = if contains es e then es else e ∷ es

abbrev pub wildcard : List String → String
wildcard parts = append "*." (join "." parts)

-- What `_generate_wildcards` adds below a node; a node has parents always.
unfoldable pub generate_below : Tree → List String → List String → List String
generate_below leaf parents es = es
generate_below (label name below rest) parents es =
    generate_below rest parents
      (generate_below below (name ∷ parents) (add_entry (wildcard (name ∷ parents)) es))

abbrev pub generate_wildcards : Tree → List String → List String → List String
generate_wildcards node parents es = generate_below node parents (add_entry (wildcard parents) es)

-- Every root with its own name.
unfoldable pub all_entries : Tree → List String → List String
unfolding generate_below
all_entries leaf es = es
all_entries (label root below rest) es =
    all_entries rest (generate_wildcards below (root ∷ []) (add_entry root es))

-- `s < t`, by the codes of the letters.
unfoldable pub text_lt : String → String → Bool
text_lt s String.[] = false
text_lt String.[] (String.◌∷◌ d t) = true
text_lt (String.◌∷◌ c s) (String.◌∷◌ d t) =
    let rest = text_lt s t in if nat_eq (code c) (code d) then rest else ltb (code c) (code d)

unfoldable pub insert_sorted : String → List String → List String
unfolding text_lt
insert_sorted s [] = s ∷ []
insert_sorted s (t ∷ ts) =
    let rest = insert_sorted s ts in if text_lt t s then t ∷ rest else s ∷ t ∷ ts

-- `sorted`
unfoldable pub sorted : List String → List String
unfolding insert_sorted
sorted [] = []
sorted (s ∷ ss) = insert_sorted s (sorted ss)

-- `_build_san_list`
unfoldable pub build_san_list : List String → List String
unfolding build_from all_entries sorted
build_san_list domains =
    "IP:127.0.0.1"
    ∷ "DNS:localhost"
    ∷ map (append "DNS:") (sorted (all_entries (build_from domains leaf) []))
