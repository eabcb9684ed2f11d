-- ===== src/Mqtt/Passwords.antt =====
-- `_read_password_file` of `bumper/mqtt/server.py`: names and password hashes, one line each. The
-- lines that are given are those read before the file ends, is found missing or cannot be read on:
-- every exception is logged and leaves the users loaded so far. White space is that of ASCII.
pub mod Laws
use bumper.Base.{
  Char, String, Bool, true, false, ◌&&◌, Option, none, some, List, [], ◌∷◌, ◌==◌, if◌then◌else◌,
}
use bumper.Text.{split, starts_with}
use bumper.Numbers.{is_space}

abbrev pub Users : Type 0
Users = List (String × String)

unfoldable pub strip_start : String → String
strip_start String.[] = ""
strip_start (String.◌∷◌ c s) = if is_space c then strip_start s else String.◌∷◌ c s

unfoldable pub strip_end : String → String
strip_end String.[] = ""
strip_end (String.◌∷◌ c s) =
    let rest = strip_end s in if rest == "" && is_space c then "" else String.◌∷◌ c rest

-- `line.strip()`
unfoldable pub strip : String → String
unfolding strip_start strip_end
strip s = strip_end (strip_start s)

-- `self._users[username] = pwd_hash`
unfoldable pub put_user : String → String → Users → Users
put_user u h [] = (u, h) ∷ []
put_user u h ((v, g) ∷ us) = if v == u then (v, h) ∷ us else (v, g) ∷ put_user u h us

-- What a line is: nothing to read, a user, or the `ValueError`.
pub data Line : Type 0 where
  skipped : Line
  entry : String → String → Line
  malformed : Line

-- Exactly two pieces; a limit of three separators changes nothing about that.
abbrev pub line_of : List String → Line
line_of (username ∷ pwd_hash ∷ []) = if username == "" then skipped else entry username pwd_hash
line_of pieces = malformed

unfoldable pub parse_line : String → Line
unfolding strip
parse_line line =
    let t_line = strip line in
    if t_line == ""
    then skipped
    else if starts_with "#" t_line
    then skipped
    else line_of (split ":" t_line)

-- A line, and what reads the lines after it.
abbrev pub take_line : Line → (Users → Users) → Users → Users
take_line skipped again us = again us
take_line (entry username pwd_hash) again us = again (put_user username pwd_hash us)
take_line malformed again us = us

unfoldable pub read_lines : List String → Users → Users
unfolding parse_line put_user
read_lines [] us = us
read_lines (l ∷ ls) us = take_line (parse_line l) (read_lines ls) us

-- The whole: without a file there is nothing to read.
unfoldable pub read_password_file : Option String → List String → Users → Users
unfolding read_lines
read_password_file none lines us = us
read_password_file (some file) lines us = if file == "" then us else read_lines lines us
