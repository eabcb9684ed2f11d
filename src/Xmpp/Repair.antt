-- ===== src/Xmpp/Repair.antt =====
-- `parse_data` of `XMPPAsyncClient` before the parser, `bumper/xmpp/xmpp.py`: a declaration is
-- taken out, a root is put round the data, and a stream that is not closed is closed. The regular
-- expressions are functions from a place in the text to the length of the match there.
pub mod Laws
use bumper.Base.{
  ℕ, zero, suc, ◌+◌, ◌-◌, Char, code, String, Bool, true, false, not, ◌&&◌, Option, none, some,
  List, [], ◌∷◌, leb, nat_eq, if◌then◌else◌,
}
use bumper.Text.{char_eq, append, concat, count, starts_with, contains_text, drop_chars, take_chars}
use bumper.Db.Tiny.{TinyDb}
use bumper.Xmpp.Element.{Element}
use bumper.Xmpp.Client.{Conn, disconnected, send, set_state}
use bumper.Xmpp.Dispatch.{Service, handle_data}

-- How many letters the next `>` ends, and the letter before it; `last` is the letter so far.
unfoldable pub to_close : ℕ → Char → String → Option (ℕ × Char)
to_close n last String.[] = none
to_close n last (String.◌∷◌ c s) =
    let rest = to_close (n + 1) c s in if char_eq c ">" then some (n + 1, last) else rest

-- `<\?xml[^>]+\?>`: between the name and the question mark stands at least one letter.
abbrev declaration_end : Option (ℕ × Char) → Option ℕ
declaration_end none = none
declaration_end (some (n, last)) = if char_eq last "?" && leb 3 n then some (5 + n) else none

unfoldable pub declaration_length : String → Option ℕ
unfolding to_close
declaration_length s =
    if starts_with "<?xml" s then declaration_end (to_close 0 "l" (drop_chars 5 s)) else none

-- `<stream:stream(?![^>]*\/>)[^>]*>`: an opening that does not close itself.
abbrev opening_end : Option (ℕ × Char) → Option ℕ
opening_end none = none
opening_end (some (n, last)) = if char_eq last "/" then none else some (14 + n)

unfoldable pub opening_length : String → Option ℕ
unfolding to_close
opening_length s =
    if starts_with "<stream:stream" s then opening_end (to_close 0 "m" (drop_chars 14 s)) else none

-- `re.sub(pattern, "", s)`, with the letters of a match that are still to be skipped.
unfoldable pub remove_matches : (String → Option ℕ) → ℕ → String → String
remove_matches match skip String.[] = String.[]
remove_matches match (suc skip) (String.◌∷◌ c s) = remove_matches match skip s
remove_matches match zero (String.◌∷◌ c s) = elim (match (String.◌∷◌ c s)) [
  | none ↦ String.◌∷◌ c (remove_matches match zero s)
  | some n ↦ elim n [
    | zero ↦ String.◌∷◌ c (remove_matches match zero s)
    | suc skip ↦ remove_matches match skip s
  ]
]

-- `re.findall(pattern, s)`
unfoldable pub find_matches : (String → Option ℕ) → ℕ → String → List String
find_matches match skip String.[] = []
find_matches match (suc skip) (String.◌∷◌ c s) = find_matches match skip s
find_matches match zero (String.◌∷◌ c s) = elim (match (String.◌∷◌ c s)) [
  | none ↦ find_matches match zero s
  | some n ↦ elim n [
    | zero ↦ find_matches match zero s
    | suc skip ↦ take_chars (suc skip) (String.◌∷◌ c s) ∷ find_matches match skip s
  ]
]

-- `s.replace(needle, new)`, for a needle that is not empty.
unfoldable pub replace_text : String → String → ℕ → String → String
replace_text needle new skip String.[] = String.[]
replace_text needle new (suc skip) (String.◌∷◌ c s) = replace_text needle new skip s
replace_text needle new zero (String.◌∷◌ c s) =
    let hit = starts_with needle (String.◌∷◌ c s) in
    let rest = replace_text needle new (if hit then count needle - 1 else 0) s in
    if hit then append new rest else String.◌∷◌ c rest

-- `f"{match[:-1]}/>"`
abbrev closed_form : String → String
closed_form match = append (take_chars (count match - 1) match) "/>"

unfoldable pub close_each : List String → String → String
unfolding replace_text
close_each [] s = s
close_each (m ∷ ms) s = close_each ms (replace_text m (closed_form m) 0 s)

abbrev with_root : String → String
with_root s = concat ("<root>" ∷ s ∷ "</root>" ∷ [])

abbrev pub rooted : String → String
rooted s = with_root (if starts_with "<?xml" s then remove_matches declaration_length 0 s else s)

-- none is the end of a stream that nothing opened.
unfoldable pub repaired : String → Option String
unfolding close_each find_matches
repaired s =
    if contains_text "stream:stream" s && not (contains_text "</stream:stream>" s)
    then some (close_each (find_matches opening_length 0 s) s)
    else if not (contains_text "<stream:stream>" s) && contains_text "</stream:stream>" s
    then none
    else some s

module _ ⦃db : TinyDb⦄ (sv : Service) (parse : String → Option Element) where
  abbrev parse_root : String → Option Element → Conn → Conn
  parse_root data' none s = s
  parse_root data' (some root) s = handle_data sv root data' s

  abbrev parse_repaired : Option String → Conn → Conn
  parse_repaired none s = set_state disconnected (send "</stream:stream>" s)
  parse_repaired (some data') s = parse_root data' (parse data') s

  -- `parse_data`; the parser gives none where it raises.
  unfoldable pub parse_data : String → Conn → Conn
  unfolding repaired remove_matches declaration_length
  parse_data xml_str s = parse_repaired (repaired (rooted xml_str)) s
