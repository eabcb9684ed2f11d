-- ===== src/Text.antt =====
-- Python's `str` operations that the program uses, over native texts.
pub mod Laws
use Prim.Native.String.{char_at}
use bumper.Base.{
  ℕ, zero, suc, ◌+◌, ◌-◌, Char, code, String, ◌≡◌, refl, ◌≢◌, Bool, true, false, ◌&&◌, ◌||◌, Option,
  none, some, is_some, List, [], ◌∷◌, arith, leb, nat_eq, if◌then◌else◌,
}

-- `c == d` on characters.
abbrev pub char_eq : Char → Char → Bool
char_eq c d = nat_eq (code c) (code d)

-- `sep.join(parts)` and `a + b` are built from this.
unfoldable pub append : String → String → String
append String.[] t = t
append (String.◌∷◌ c s) t = String.◌∷◌ c (append s t)

-- The first piece of a split and the pieces after it.
abbrev pub push_char : Char → List String → List String
push_char c [] = String.◌∷◌ c String.[] ∷ []
push_char c (p ∷ ps) = String.◌∷◌ c p ∷ ps

-- `s.split(sep)` at a one-character separator: always at least one piece.
unfoldable pub split : Char → String → List String
split sep String.[] = String.[] ∷ []
split sep (String.◌∷◌ c s) =
    let rest = split sep s in if char_eq c sep then String.[] ∷ rest else push_char c rest

-- `a, b = s.split(sep, 1)`: none where the separator is missing (a `ValueError`).
unfoldable pub split_once : Char → String → Option (String × String)
split_once sep String.[] = none
split_once sep (String.◌∷◌ c s) =
    let rest = split_once sep s in
    if char_eq c sep
    then some (String.[], s)
    else elim rest [ none ↦ none | some (a, b) ↦ some (String.◌∷◌ c a, b) ]

-- `sep.join(parts)`.
unfoldable pub join : Char → List String → String
join sep [] = ""
join sep (p ∷ ps) = elim ps [ [] ↦ p | ◌∷◌ _ _ ↦ append p (String.◌∷◌ sep (join sep ps)) ]

-- `c in s` for one character.
unfoldable pub contains_char : Char → String → Bool
contains_char c String.[] = false
contains_char c (String.◌∷◌ d s) = char_eq d c || contains_char c s

-- `s.replace(c, "")` for one character.
unfoldable pub remove_char : Char → String → String
remove_char c String.[] = String.[]
remove_char c (String.◌∷◌ d s) =
    if char_eq d c then remove_char c s else String.◌∷◌ d (remove_char c s)

-- `s[0]` of the pieces of a split.
abbrev pub first_piece : List String → String
first_piece [] = ""
first_piece (p ∷ ps) = p

-- `s.startswith(prefix)`.
unfoldable pub starts_with : String → String → Bool
starts_with String.[] s = true
starts_with (String.◌∷◌ c p) String.[] = false
starts_with (String.◌∷◌ c p) (String.◌∷◌ d s) = char_eq c d && starts_with p s

abbrev pub shift : Option ℕ → Option ℕ
shift none = none
shift (some i) = some (suc i)

-- `s.find(needle)`: none stands for -1.
unfoldable pub find : String → String → Option ℕ
unfolding starts_with
find needle String.[] = if starts_with needle String.[] then some 0 else none
find needle (String.◌∷◌ c s) =
    let rest = find needle s in if starts_with needle (String.◌∷◌ c s) then some 0 else shift rest

-- `needle in s`.
unfoldable pub contains_text : String → String → Bool
unfolding find
contains_text needle s = is_some (find needle s)

unfoldable pub count : String → ℕ
count String.[] = 0
count (String.◌∷◌ c s) = suc (count s)

unfoldable pub drop_chars : ℕ → String → String
drop_chars zero s = s
drop_chars (suc n) String.[] = String.[]
drop_chars (suc n) (String.◌∷◌ c s) = drop_chars n s

unfoldable pub take_chars : ℕ → String → String
take_chars zero s = String.[]
take_chars (suc n) String.[] = String.[]
take_chars (suc n) (String.◌∷◌ c s) = String.◌∷◌ c (take_chars n s)

-- `s[i:j]` at two indices that are not negative.
unfoldable pub slice : ℕ → ℕ → String → String
unfolding drop_chars take_chars
slice i j s = take_chars (j - i) (drop_chars i s)

-- `s.replace(needle, "")`, with the characters of a match that are still to be skipped.
unfoldable pub remove_from : String → ℕ → String → String
unfolding starts_with count
remove_from needle k String.[] = String.[]
remove_from needle (suc k) (String.◌∷◌ c s) = remove_from needle k s
remove_from needle zero (String.◌∷◌ c s) =
    let hit = starts_with needle (String.◌∷◌ c s) in
    let rest = remove_from needle (if hit then count needle - 1 else 0) s in
    if hit then rest else String.◌∷◌ c rest

-- `s.replace(c, d)` for two characters.
unfoldable pub replace_char : Char → Char → String → String
replace_char c d String.[] = String.[]
replace_char c d (String.◌∷◌ x s) = String.◌∷◌ (if char_eq x c then d else x) (replace_char c d s)

unfoldable pub concat : List String → String
unfolding append
concat [] = ""
concat (p ∷ ps) = append p (concat ps)

-- The code of a letter in lower case; letters outside ASCII stay as they are.
abbrev pub lower_code : ℕ → ℕ
lower_code n = if leb b'A' n && leb n b'Z' then n + 32 else n

-- `s.lower()`
abbrev lower_char : Char → Char
lower_char c =
    if leb b'A' (code c) && leb (code c) b'Z'
    then char_at "abcdefghijklmnopqrstuvwxyz" (code c - b'A')
    else c

unfoldable pub lower : String → String
lower String.[] = String.[]
lower (String.◌∷◌ c s) = String.◌∷◌ (lower_char c) (lower s)

unfoldable pub starts_with_fold : String → String → Bool
starts_with_fold String.[] s = true
starts_with_fold (String.◌∷◌ c p) String.[] = false
starts_with_fold (String.◌∷◌ c p) (String.◌∷◌ d s) =
    nat_eq (lower_code (code c)) (lower_code (code d)) && starts_with_fold p s

-- `needle.lower() in s.lower()`.
unfoldable pub contains_fold : String → String → Bool
unfolding starts_with_fold
contains_fold needle String.[] = starts_with_fold needle String.[]
contains_fold needle (String.◌∷◌ c s) =
    starts_with_fold needle (String.◌∷◌ c s) || contains_fold needle s
