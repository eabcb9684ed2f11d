-- ===== src/Web/Pages/LogPage.antt =====
-- The page of clean logs, `_get_context` of `bumper/web/web_paths.py`: newest first, a slice of
-- them, and whether there are more before and after it.
use bumper.Base.{
  ℕ, zero, suc, ◌+◌, ◌-◌, String, Bool, true, false, ◌&&◌, Option, none, some, List, [], ◌∷◌,
  if◌then◌else◌, ltb, length,
}
use bumper.Value.{
  ℤ, pos, negsuc, Value, null, bool, num, str, arr, obj, Items, nil, cons, Fields, end, field,
  value_eq, bool_num, truthy,
}
use bumper.Numbers.{int_of_text}
use bumper.Models.CleanLog.{CleanLog}
use bumper.Db.Tiny.{TinyDb, text_lt}
use bumper.Db.CleanLogs.{list_all}

abbrev ℤ_lt : ℤ → ℤ → Bool
ℤ_lt (pos a) (pos b) = ltb a b
ℤ_lt (negsuc a) (negsuc b) = ltb b a
ℤ_lt (pos a) (negsuc b) = false
ℤ_lt (negsuc a) (pos b) = true

abbrev number_of : Value → Option ℤ
number_of (num n) = some n
number_of (bool b) = some (bool_num b)
number_of v = none

abbrev lt_numbers : Option ℤ → Option ℤ → Option Bool
lt_numbers (some a) (some b) = some (ℤ_lt a b)
lt_numbers a b = none

-- `v < w`: none is the `TypeError` of two values without an order. Lists, which no log has for its
-- moment or its robot, are left out.
unfoldable pub value_lt : Value → Value → Option Bool
value_lt (str s) (str t) = some (text_lt s t)
value_lt v w = lt_numbers (number_of v) (number_of w)

-- The order of the pairs `(ts, did)`.
unfoldable pub log_lt : CleanLog → CleanLog → Option Bool
unfolding value_lt
log_lt a b =
    if value_eq a.ts b.ts
    then if value_eq a.did b.did then some false else value_lt a.did b.did
    else value_lt a.ts b.ts

abbrev before : Option Bool → Bool
before none = false
before (some b) = b

-- A log goes in front of those that are not newer: equal ones keep their order.
unfoldable pub insert_log : CleanLog → List CleanLog → List CleanLog
unfolding log_lt
insert_log l [] = l ∷ []
insert_log l (m ∷ ms) =
    let rest = insert_log l ms in if before (log_lt l m) then m ∷ rest else l ∷ m ∷ ms

unfoldable pub sort_logs : List CleanLog → List CleanLog
unfolding insert_log
sort_logs [] = []
sort_logs (l ∷ ls) = insert_log l (sort_logs ls)

abbrev ordered : Option Bool → Bool
ordered none = false
ordered (some b) = true

unfoldable pub comparable_to : CleanLog → List CleanLog → Bool
unfolding log_lt
comparable_to l [] = true
comparable_to l (m ∷ ms) = ordered (log_lt l m) && comparable_to l ms

-- Two logs that have no order are compared somewhere in a sort, which raises.
unfoldable pub comparable : List CleanLog → Bool
unfolding comparable_to
comparable [] = true
comparable (l ∷ ls) = comparable_to l ls && comparable ls

abbrev minus : ℕ → ℕ → ℤ
minus a zero = pos a
minus zero (suc b) = negsuc b
minus (suc a) (suc b) = minus a b

abbrev pub add : ℤ → ℤ → ℤ
add (pos a) (pos b) = pos (a + b)
add (pos a) (negsuc b) = minus a (suc b)
add (negsuc a) (pos b) = minus b (suc a)
add (negsuc a) (negsuc b) = negsuc (suc (a + b))

-- An index counted from the end where it is negative, at least the start.
abbrev pub index : ℕ → ℤ → ℕ
index n (pos a) = a
index n (negsuc a) = n - suc a

unfoldable pub drop {ℓ} : {A : Type ℓ} → ℕ → List A → List A
drop zero xs = xs
drop (suc n) [] = []
drop (suc n) (x ∷ xs) = drop n xs

unfoldable pub take {ℓ} : {A : Type ℓ} → ℕ → List A → List A
take zero xs = []
take (suc n) [] = []
take (suc n) (x ∷ xs) = x ∷ take n xs

-- `xs[offset : offset + limit]`
unfoldable pub page {ℓ} : {A : Type ℓ} → ℤ → ℤ → List A → List A
unfolding take drop
page offset limit xs =
    let i = index (length xs) offset in
    let j = index (length xs) (add offset limit) in take (j - i) (drop i xs)

-- `offset + limit < count`
abbrev pub has_next : ℤ → ℤ → ℕ → Bool
has_next offset limit count = ℤ_lt (add offset limit) (pos count)

abbrev pub has_prev : ℤ → Bool
has_prev offset = ℤ_lt (pos 0) offset

-- `v or 0`
abbrev or_zero : Value → Value
or_zero v = if truthy v then v else num (pos 0)

abbrev shown_time : (ℤ → Option String) → Value → Option Value
shown_time format ts =
    if truthy ts
    then elim (number_of ts) [
      | none ↦ none
      | some n ↦ elim (format n) [ none ↦ none | some s ↦ some (str s) ]
    ]
    else some null

abbrev log_row_at : CleanLog → Option Value → Option Value
log_row_at l none = none
log_row_at l (some ts) = some (
    obj (
      field "clean_log_id" l.clean_log_id (
        field "did" l.did (
          field "cid" l.cid (
            field "area" (or_zero l.area) (
              field "stop_reason" l.stop_reason
                (field "last" (or_zero l.last) (field "ts" ts (field "type" l.type end)))))))))

abbrev next_row : Option Value → Option Items → Option Items
next_row none rest = none
next_row (some v) none = none
next_row (some v) (some vs) = some (cons v vs)

-- The rows; a moment that cannot be written raises.
unfoldable pub log_rows : (ℤ → Option String) → List CleanLog → Option Items
log_rows format [] = some nil
log_rows format (l ∷ ls) = next_row (log_row_at l (shown_time format l.ts)) (log_rows format ls)

abbrev pub page_fields : ℕ → ℤ → ℤ → Option Items → Option Fields
page_fields count offset limit none = none
page_fields count offset limit (some shown) = some (
    field "count" (num (pos count)) (
      field "clean_logs" (arr shown) (
        field "offset" (num offset) (
          field "limit" (num limit) (
            field "has_next" (bool (has_next offset limit count))
              (field "has_prev" (bool (has_prev offset)) end))))))

abbrev pub query_int : ℕ → Option String → Option ℤ
query_int n none = some (pos n)
query_int n (some s) = int_of_text s

abbrev sorted : Option (List CleanLog) → Option (List CleanLog)
sorted none = none
sorted (some ls) = if comparable ls then some (sort_logs ls) else none

abbrev page_at : (ℤ → Option String) → Option ℤ → Option ℤ → Option (List CleanLog) → Option Fields
page_at format (some offset) (some limit) (some ls) =
    page_fields (length ls) offset limit (log_rows format (page offset limit ls))
page_at format offset limit ls = none

module _ ⦃db : TinyDb⦄ where
  -- The context, given how a moment is written and what the query holds; none is its exception.
  unfoldable pub logs_context :
      (ℤ → Option String) → Option String → Option String → db.Table → Option Fields
  unfolding sort_logs comparable log_rows page
  logs_context format offset limit t =
      page_at format (query_int 0 offset) (query_int 5 limit) (sorted (list_all t))
