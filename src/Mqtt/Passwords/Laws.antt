-- ===== src/Mqtt/Passwords/Laws.antt =====
-- What is read of a password file.
use bumper.Base.{
  Char, String, ◌≡◌, refl, Bool, true, false, ◌&&◌, ◌||◌, not, sym, some, List, [], ◌∷◌, ◌++◌, ◌==◌,
  arith, ap, ==_ne, ◌∙◌,
}
use bumper.Text.{split, starts_with, append, contains_char, char_eq}
use mathlib.Core.List.{append-nil, append_assoc}
use bumper.Text.Laws.{split-append, split-single}
use bumper.Numbers.{is_space, only_spaces}
use bumper.Mqtt.Passwords.{
  Users, Line, skipped, entry, malformed, strip_start, strip_end, strip, parse_line, read_lines,
  put_user, take_line, read_password_file,
}

-- The line of a user.
abbrev pub line : String × String → String
line (u, h) = append u (String.◌∷◌ ":" h)

abbrev pub starts_plain : String → Bool
starts_plain String.[] = false
starts_plain (String.◌∷◌ c s) = not (is_space c) && not (char_eq "#" c)

-- A user that a line can hold: the name starts with neither white space nor the sign of a comment,
-- neither part has a colon, and the hash does not end in white space.
pub record Writable (u : String) (h : String) : Type 0 where
  pub starts : starts_plain u ≡ true
  pub name_colon : contains_char ":" u ≡ false
  pub hash_colon : contains_char ":" h ≡ false
  pub ends : strip_end h ≡ h

-- The lines of a file that hold users, one each, with what ends a line: a line feed, behind the
-- last one perhaps nothing.
pub data LinesOf : List String → Users → Type 0 where
  no_lines : LinesOf [] []
  a_line :
      (u h ending : String) {ls : List String} {vs : Users}
      → Writable u h
      → only_spaces ending ≡ true
      → LinesOf ls vs
      → LinesOf (append (line (u, h)) ending ∷ ls) ((u, h) ∷ vs)

-- The users written one after the other into those that are there.
abbrev pub put_all : Users → Users → Users
put_all [] us = us
put_all ((u, h) ∷ vs) us = put_all vs (put_user u h us)

cons_not_empty : (c : Char) (s : String) → (String.◌∷◌ c s == "") ≡ false
cons_not_empty c s = ==_ne (String.◌∷◌ c s) "" (λ h. cc)

line_not_empty : (u h : String) → (line (u, h) == "") ≡ false
unfolding append
line_not_empty String.[] h = cons_not_empty ":" h
line_not_empty (String.◌∷◌ c s) h = cons_not_empty c (line (s, h))

plain : (a b : Bool) → (not a && not b) ≡ true → (a ≡ false) × (b ≡ false)
plain false false h = (refl, refl)
plain false true h = cc
plain true b h = cc

strip_end-append : (u h : String) → strip_end h ≡ h → strip_end (line (u, h)) ≡ line (u, h)
unfolding strip_end append
strip_end-append String.[] h e = rw e (ground arith)
strip_end-append (String.◌∷◌ c s) h e = rw (strip_end-append s h e, line_not_empty s h)

split-line :
    (u h : String)
    → contains_char ":" u ≡ false
    → contains_char ":" h ≡ false
    → split ":" (line (u, h)) ≡ u ∷ h ∷ []
split-line u h nu nh = split-append ":" u h nu ∙ ap (λ ps. u ∷ ps) (split-single ":" h nh)

both_true : (a b : Bool) → (a && b) ≡ true → (a ≡ true) × (b ≡ true)
both_true true b h = (refl, h)
both_true false b h = cc

strip_end-spaces : (w : String) → only_spaces w ≡ true → strip_end w ≡ ""
unfolding strip_end only_spaces
strip_end-spaces String.[] h = refl
strip_end-spaces (String.◌∷◌ c w) h =
    let (space, spaces) = both_true (is_space c) (only_spaces w) h in
    rw (strip_end-spaces w spaces, space) refl

strip_end-ending : (l w : String) → only_spaces w ≡ true → strip_end (append l w) ≡ strip_end l
unfolding strip_end append
strip_end-ending String.[] w h = strip_end-spaces w h
strip_end-ending (String.◌∷◌ c l) w h = rw (strip_end-ending l w h) refl

strip-plain :
    (c : Char) (s w : String)
    → is_space c ≡ false
    → only_spaces w ≡ true
    → strip_end (String.◌∷◌ c s) ≡ String.◌∷◌ c s
    → strip (append (String.◌∷◌ c s) w) ≡ String.◌∷◌ c s
unfolding strip strip_start append
strip-plain c s w visible spaces ends =
    rw visible (strip_end-ending (String.◌∷◌ c s) w spaces ∙ ends)

parse_line-pieces :
    (raw l u h : String)
    → strip raw ≡ l
    → (l == "") ≡ false
    → starts_with "#" l ≡ false
    → split ":" l ≡ u ∷ h ∷ []
    → (u == "") ≡ false
    → parse_line raw ≡ entry u h
unfolding parse_line
parse_line-pieces raw l u h strips some_text no_comment pieces named =
    rw (strips, some_text, no_comment, pieces, named)

comment : (c : Char) (s : String) → starts_with "#" (String.◌∷◌ c s) ≡ char_eq "#" c
unfolding starts_with
comment c s = ground arith

parse_line-line :
    (u h w : String)
    → Writable u h
    → only_spaces w ≡ true
    → parse_line (append (line (u, h)) w) ≡ entry u h
unfolding append
parse_line-line String.[] h w ok spaces = cc (ok.starts)
parse_line-line (String.◌∷◌ c s) h w ok spaces =
    let (visible, data') = plain (is_space c) (char_eq "#" c) ok.starts in
    parse_line-pieces (append (line (String.◌∷◌ c s, h)) w) (line (String.◌∷◌ c s, h))
      (String.◌∷◌ c s) h
      (strip-plain c (line (s, h)) w visible spaces (strip_end-append (String.◌∷◌ c s) h ok.ends))
      (cons_not_empty c (line (s, h))) (comment c (line (s, h)) ∙ data')
      (split-line (String.◌∷◌ c s) h ok.name_colon ok.hash_colon) (cons_not_empty c s)

-- The lines of users are read as those users, each written over what its name had before.
read_lines-LinesOf :
    {ls : List String} {vs : Users} (us : Users) → LinesOf ls vs → read_lines ls us ≡ put_all vs us
unfolding read_lines
read_lines-LinesOf us no_lines = refl
read_lines-LinesOf us (a_line u h w ok spaces more) =
    rw (parse_line-line u h w ok spaces) (read_lines-LinesOf (put_user u h us) more)

take_line-ext :
    (k : Line) (f g : Users → Users) (us : Users)
    → ((vs : Users) → f vs ≡ g vs)
    → take_line k f us ≡ take_line k g us
take_line-ext skipped f g us h = h us
take_line-ext (entry u e) f g us h = h (put_user u e us)
take_line-ext malformed f g us h = refl

-- A line that is malformed ends the reading: what stands before it counts, it and all after it do
-- not.
pub read_lines-malformed :
    (ls ms : List String) (l : String) (us : Users)
    → parse_line l ≡ malformed
    → read_lines (ls ++ l ∷ ms) us ≡ read_lines ls us
unfolding read_lines
read_lines-malformed [] ms l us bad = rw bad
read_lines-malformed (k ∷ ls) ms l us bad =
    take_line-ext (parse_line k) (read_lines (ls ++ l ∷ ms)) (read_lines ls) us
      (λ vs. read_lines-malformed ls ms l vs bad)

abbrev pub has_user : String → Users → Bool
has_user u [] = false
has_user u ((v, h) ∷ us) = v == u || has_user u us

-- The users have names of their own, which those that are there have not either.
abbrev pub AllNew : Users → Users → Type 0
AllNew [] us = Unit
AllNew ((u, h) ∷ vs) us = (has_user u us ≡ false) × AllNew vs (us ++ (u, h) ∷ [])

put_user-new :
    (u h : String) (us : Users) → has_user u us ≡ false → put_user u h us ≡ us ++ (u, h) ∷ []
unfolding put_user
put_user-new u h [] new = refl
put_user-new u h ((v, g) ∷ us) new = ground (arith, put_user-new u h us)

put_all-new : (vs us : Users) → AllNew vs us → put_all vs us ≡ us ++ vs
put_all-new [] us new = sym (append-nil us)
put_all-new ((u, h) ∷ vs) us (new, more) = rw (
  put_user-new u h us new,
  put_all-new vs (us ++ (u, h) ∷ []) more,
  append_assoc us ((u, h) ∷ []) vs,
)

-- The lines of a file that hold users, one each and ended by white space as a line feed is, are
-- read back as these users in their order, where no two share a name and none was there before.
pub read_password_file-line :
    (file : String) (ls : List String) (vs : Users)
    → (file == "") ≡ false
    → LinesOf ls vs
    → AllNew vs []
    → read_password_file (some file) ls [] ≡ vs
unfolding read_password_file
read_password_file-line file ls vs named lines new =
    rw named (read_lines-LinesOf [] lines ∙ put_all-new vs [] new)
