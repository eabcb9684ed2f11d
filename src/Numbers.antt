-- ===== src/Numbers.antt =====
-- `to_int` of `bumper/utils/utils.py`, with Python's `int` on texts of ASCII letters. A number with
-- a fractional part is no value here.
use bumper.Base.{
  ℕ, zero, suc, not, ◌+◌, ◌-◌, ◌*◌, ◌/◌, ◌%◌, Char, code, String, Bool, true, false, ◌&&◌, ◌||◌,
  Option, none, some, leb, nat_eq, if◌then◌else◌,
}
use bumper.Value.{ℤ, pos, negsuc, Value, null, bool, num, str, obj, arr, bool_num}

abbrev pub is_space : Char → Bool
is_space c = nat_eq (code c) 32 || leb 9 (code c) && leb (code c) 13

pub data CharKind : Type 0 where
  digit underscore space other : CharKind

abbrev kind : Char → CharKind
kind c =
    if leb b'0' (code c) && leb (code c) b'9'
    then digit
    else if nat_eq (code c) b'_'
    then underscore
    else if is_space c
    then space
    else other

unfoldable pub only_spaces : String → Bool
only_spaces String.[] = true
only_spaces (String.◌∷◌ c s) = is_space c && only_spaces s

-- Digits with single underscores between them, then spaces; the flag says that a digit must come.
unfoldable pub read_digits : Bool → ℕ → String → Option ℕ
unfolding only_spaces
read_digits must n String.[] = if must then none else some n
read_digits must n (String.◌∷◌ c s) = elim (kind c) [
  | digit ↦ read_digits false (n * 10 + (code c - b'0')) s
  | underscore ↦ if must then none else read_digits true n s
  | space ↦ if must || not (only_spaces s) then none else some n
  | other ↦ none
]

abbrev negated : ℕ → ℤ
negated zero = pos 0
negated (suc n) = negsuc n

abbrev with_sign : (ℕ → ℤ) → Option ℕ → Option ℤ
with_sign f none = none
with_sign f (some n) = some (f n)

-- `int(text)`: none is its `ValueError`.
unfoldable pub int_of_text : String → Option ℤ
unfolding read_digits
int_of_text String.[] = none
int_of_text (String.◌∷◌ c s) = elim (kind c) [
  | space ↦ int_of_text s
  | _ ↦
      if nat_eq (code c) b'-'
      then with_sign negated (read_digits true 0 s)
      else if nat_eq (code c) b'+'
      then with_sign pos (read_digits true 0 s)
      else with_sign pos (read_digits true 0 (String.◌∷◌ c s))
]

unfoldable pub to_int : Value → Option ℤ
unfolding int_of_text
to_int null = none
to_int (bool b) = some (bool_num b)
to_int (num n) = some n
to_int (str s) = int_of_text s
to_int (obj d) = none
to_int (arr xs) = none

abbrev digit_char : ℕ → Char
digit_char zero = "0"
digit_char (suc zero) = "1"
digit_char (suc (suc zero)) = "2"
digit_char (suc (suc (suc zero))) = "3"
digit_char (suc (suc (suc (suc zero)))) = "4"
digit_char (suc (suc (suc (suc (suc zero))))) = "5"
digit_char (suc (suc (suc (suc (suc (suc zero)))))) = "6"
digit_char (suc (suc (suc (suc (suc (suc (suc zero))))))) = "7"
digit_char (suc (suc (suc (suc (suc (suc (suc (suc zero)))))))) = "8"
digit_char n = "9"

-- The digits of a number in front of a text; a number has at most as many digits as it counts,
-- and one.
unfoldable pub digits_from : ℕ → ℕ → String → String
digits_from zero n s = s
digits_from (suc fuel) n s =
    let rest = digits_from fuel (n / 10) (String.◌∷◌ (digit_char (n % 10)) s) in
    if leb n 9 then String.◌∷◌ (digit_char n) s else rest

-- `str(n)` of a number that is not negative.
unfoldable pub digits : ℕ → String
unfolding digits_from
digits n = digits_from (n + 1) n ""
