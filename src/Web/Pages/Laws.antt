-- ===== src/Web/Pages/Laws.antt =====
-- What the pages show, and what a removal leaves.
use bumper.Base.{
  ℕ, zero, suc, ◌+◌, ◌-◌, ◌≤◌, String, ◌≡◌, refl, Bool, true, false, not, none, some, List, [], ◌∷◌,
  ◌++◌, ◌==◌, if◌then◌else◌, length, nat_eq, Option, arith, ltb, ap, ==_self,
}
use bumper.Value.{ℤ, pos, Items, Fields, end, field, num, bool, arr}
use bumper.Models.CleanLog.{CleanLog}
use bumper.Db.CleanLogs.{list_all}
use bumper.Db.Rows.{IsKeyed}
use bumper.Db.Tiny.{TinyDb, Documented}
use bumper.Db.Bots
use bumper.Db.Bots.Unique.{UniqueBots, get-remove}
use bumper.Web.Pages.{Store, remove_entity, removed}
use bumper.Web.Pages.LogPage.{
  drop, take, page, page_fields, log_rows, sort_logs, comparable, query_int, logs_context,
}

module _ {ℓ} {A : Type ℓ} where
  abbrev pub is_empty : List A → Bool
  is_empty [] = true
  is_empty (x ∷ xs) = false

  length-take : (n : ℕ) (xs : List A) → length (take n xs) ≤ n
  unfolding take
  length-take zero xs = omega arith
  length-take (suc n) [] = omega arith
  length-take (suc n) (x ∷ xs) = ground (arith, length-take n xs)

  take-drop_all : (m : ℕ) (xs : List A) → take m xs ++ drop m xs ≡ xs
  unfolding take drop
  take-drop_all zero xs = refl
  take-drop_all (suc m) [] = refl
  take-drop_all (suc m) (x ∷ xs) = ap (λ ys. x ∷ ys) (take-drop_all m xs)

  take-nil : (m : ℕ) → ◌≡◌ {A = List A} (take m [] ++ []) []
  unfolding take
  take-nil zero = refl
  take-nil (suc m) = refl

  take-drop : (n m : ℕ) (xs : List A) → take n xs ++ (take m (drop n xs) ++ drop (n + m) xs) ≡ xs
  unfolding take drop
  take-drop zero m xs = let e : 0 + m ≡ m = omega arith in rw e (take-drop_all m xs)
  take-drop (suc n) m [] = let e : suc n + m ≡ suc (n + m) = omega arith in rw e (take-nil m)
  take-drop (suc n) m (x ∷ xs) =
      let e : suc n + m ≡ suc (n + m) = omega arith in rw e (ap (λ ys. x ∷ ys) (take-drop n m xs))

  drop-is_empty : (n : ℕ) (xs : List A) → ltb n (length xs) ≡ not (is_empty (drop n xs))
  unfolding drop
  drop-is_empty zero [] = refl
  drop-is_empty zero (x ∷ xs) = ground arith
  drop-is_empty (suc n) [] = ground arith
  drop-is_empty (suc n) (x ∷ xs) = ground (arith, drop-is_empty n xs)

  page-slice : (i n : ℕ) (xs : List A) → page (pos i) (pos n) xs ≡ take n (drop i xs)
  unfolding page
  page-slice i n xs = let e : i + n - i ≡ n = omega arith in rw e refl

-- What the page tells of the logs before, on and behind it; none is a moment that cannot be written.
abbrev page_with :
    (offset limit : ℕ)
    → List CleanLog
    → List CleanLog
    → List CleanLog
    → Option Items
    → Option Fields
page_with offset limit before shown rest none = none
page_with offset limit before shown rest (some rows) = some (
    field "count" (num (pos (length (before ++ (shown ++ rest))))) (
      field "clean_logs" (arr rows) (
        field "offset" (num (pos offset)) (
          field "limit" (num (pos limit)) (
            field "has_next" (bool (not (is_empty rest)))
              (field "has_prev" (bool (not (nat_eq offset 0))) end))))))

abbrev pub page_of :
    (ℤ → Option String)
    → (offset limit : ℕ) → List CleanLog
    → List CleanLog
    → List CleanLog
    → Option Fields
page_of format offset limit before shown rest =
    page_with offset limit before shown rest (log_rows format shown)

positive : (n : ℕ) → ltb 0 n ≡ not (nat_eq n 0)
positive zero = refl
positive (suc n) = ground arith

page_fields-page_with :
    (i n : ℕ) (logs : List CleanLog) (rows : Option Items)
    → page_fields (length logs) (pos i) (pos n) rows
      ≡ page_with i n (take i logs) (take n (drop i logs)) (drop (i + n) logs) rows
page_fields-page_with i n logs none = refl
page_fields-page_with i n logs (some rows) =
    rw (take-drop i n logs, drop-is_empty (i + n) logs, positive i) refl

page_fields-page_of :
    (format : ℤ → Option String) (i n : ℕ) (logs : List CleanLog)
    → page_fields (length logs) (pos i) (pos n) (log_rows format (page (pos i) (pos n) logs))
      ≡ page_of format i n (take i logs) (take n (drop i logs)) (drop (i + n) logs)
page_fields-page_of format i n logs =
    rw (page-slice i n logs)
      (page_fields-page_with i n logs (log_rows format (take n (drop i logs))))

module _ ⦃db : TinyDb⦄ where
  -- For an offset and a limit of the query, or their defaults 0 and 5, that are not negative, and logs
  -- that can be read and ordered: of the logs as `sort_logs` orders them, the page shows those that
  -- stand between the first `offset` and the rest, at most `limit`; it counts all, says that there is
  -- a next page exactly where the rest is not empty, and a previous one exactly where the offset is
  -- not 0.
  pub logs_context-page_of :
      (format : ℤ → Option String) (offset limit : Option String) (i n : ℕ) (ls : List CleanLog)
      (t : db.Table)
      → query_int 0 offset ≡ some (pos i)
      → query_int 5 limit ≡ some (pos n)
      → list_all t ≡ some ls
      → comparable ls ≡ true
      → let logs = sort_logs ls in
        let shown = take n (drop i logs) in
        let rest = drop (i + n) logs in
        (logs_context format offset limit t ≡ page_of format i n (take i logs) shown rest)
        × ((take i logs ++ (shown ++ rest) ≡ logs) × (length shown ≤ n))
  unfolding logs_context
  logs_context-page_of format offset limit i n ls t o l read ordered = (
    rw (o, l, read, ordered) (page_fields-page_of format i n (sort_logs ls)),
    (take-drop i n (sort_logs ls), length-take n (drop i (sort_logs ls))),
  )

module _ ⦃db : TinyDb⦄ ⦃laws : Documented db⦄ where
  -- Where identifiers differ and bots have a `did` of their own, the removal of a bot succeeds: it
  -- is not found any more, every other bot is found as before, and no other table changes.
  pub remove_entity-bot :
      (did j : String) (s : Store)
      → (did == "") ≡ false
      → IsKeyed (db.all s.bots)
      → UniqueBots (db.all s.bots)
      → let (r, s') = remove_entity "bot" (some did) s in
        (r ≡ some (removed false "bot"))
        × ((Bots.get j s'.bots ≡ (if did == j then none else Bots.get j s.bots))
            × (s' ≡ record s { bots = s'.bots }))
  unfolding remove_entity
  remove_entity-bot did j s named keyed unique =
      rw (named, get-remove did did s.bots keyed unique, ==_self did)
        (refl, (get-remove did j s.bots keyed unique, refl))
