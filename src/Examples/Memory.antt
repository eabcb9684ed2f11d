-- ===== src/Examples/Memory.antt =====
-- A document store in memory, which behaves as TinyDB's documentation says; texts of moments; and
-- a cache of requests.
use bumper.Base.{
  ℕ, zero, suc, ◌+◌, ◌≤◌, String, ◌≡◌, refl, sym, Bool, false, ◌&&◌, Option, none, some, List, [],
  ◌∷◌, ◌++◌, arith, leb, if◌then◌else◌, ==_self, ◌==◌,
}
use mathlib.Core.List.{append-nil, append_assoc}
use bumper.Value.{Value, str, Fields, lookup, value_eq}
use bumper.Db.Rows.{
  Rows, ids, contents, has_id, drop_ids, first_row, select, any_row, patch, drop_where,
}
use bumper.Db.Tiny.{TinyDb, Documented, Query, eq, any, lt, both, field_test, any_test, text_lt}
use bumper.Models.{Datetime}
use bumper.Mqtt.Forward.{RequestCache, CacheLaws}

abbrev text_test : String → Value → Bool
text_test s (str t) = text_lt t s
text_test s v = false

abbrev matches_in : Query → Fields → Bool
matches_in (eq k v) d = field_test (λ w. value_eq w v) (lookup k d)
matches_in (any k vs) d = field_test (any_test vs) (lookup k d)
matches_in (lt k s) d = field_test (text_test s) (lookup k d)
matches_in (both q r) d = matches_in q d && matches_in r d

-- One more than the greatest identifier.
abbrev next_id : Rows → ℕ
next_id [] = 1
next_id (r ∷ rs) = if leb (next_id rs) r.doc_id then r.doc_id + 1 else next_id rs

abbrev insert_all : List Fields → Rows → Rows
insert_all [] t = t
insert_all (d ∷ ds) t = insert_all ds (t ++ record { doc_id = next_id t; fields = d } ∷ [])

instance abbrev pub memory : TinyDb
memory = record {
  Table = Rows;
  matches = matches_in;
  all = λ t. t;
  next = next_id;
  get = λ q t. first_row (matches_in q) t;
  search = λ q t. select (matches_in q) t;
  contains = λ q t. any_row (matches_in q) t;
  insert = λ d t. t ++ record { doc_id = next_id t; fields = d } ∷ [];
  insert_multiple = insert_all;
  upsert = λ f q t.
      if any_row (matches_in q) t
      then (ids (select (matches_in q) t), patch (matches_in q) f t)
      else (next_id t ∷ [], t ++ record { doc_id = next_id t; fields = f } ∷ []);
  remove_ids = drop_ids;
  remove_where = λ q t. drop_where (matches_in q) t;
  truncate = λ t. [];
}

has_id_below : (i : ℕ) (rs : Rows) → next_id rs ≤ i → has_id i rs ≡ false
has_id_below i [] h = refl
has_id_below i (r ∷ rs) h = ground (arith, has_id_below i rs)

le_self : (n : ℕ) → n ≤ n
le_self n = omega arith

lt_law :
    (k s t : String) (d : Fields) → lookup k d ≡ some (str t) → matches_in (lt k s) d ≡ text_lt t s
lt_law k s t d h = rw h

upsert_rows :
    (f : Fields) (q : Query) (t : Rows)
    → (memory.upsert f q t).1 ≡ (
        if any_row (matches_in q) t
        then patch (matches_in q) f t
        else t ++ record { doc_id = next_id t; fields = f } ∷ [])
upsert_rows f q t = ground arith

upsert_ids :
    (f : Fields) (q : Query) (t : Rows)
    → (memory.upsert f q t).0
      ≡ (if any_row (matches_in q) t then ids (select (matches_in q) t) else next_id t ∷ [])
upsert_ids f q t = ground arith

contents-append :
    (rs : Rows) (d : Fields) (i : ℕ)
    → contents (rs ++ record { doc_id = i; fields = d } ∷ []) ≡ contents rs ++ d ∷ []
contents-append [] d i = refl
contents-append (r ∷ rs) d i = rw (contents-append rs d i)

contents-insert_all : (ds : List Fields) (t : Rows) → contents (insert_all ds t) ≡ contents t ++ ds
contents-insert_all [] t = sym (append-nil (contents t))
contents-insert_all (d ∷ ds) t = rw (
  contents-insert_all ds (t ++ record { doc_id = next_id t; fields = d } ∷ []),
  contents-append t d (next_id t),
  append_assoc (contents t) (d ∷ []) ds,
)

instance pub memory_laws : Documented memory
memory_laws = record {
  matches-eq = λ k v d. refl;
  matches-any = λ k vs d. refl;
  matches-lt = lt_law;
  matches-both = λ q r d. refl;
  next_fresh = λ t. has_id_below (next_id t) t (le_self (next_id t));
  get_first = λ q t. refl;
  search_select = λ q t. refl;
  contains_any = λ q t. refl;
  all-insert = λ d t. refl;
  all-upsert = upsert_rows;
  ids-upsert = upsert_ids;
  all-remove_ids = λ js t. refl;
  all-remove_where = λ q t. refl;
  all-truncate = λ t. refl;
  contents-insert_multiple = contents-insert_all;
}

-- Moments as texts of as many letters.
unfoldable pub letters_of : ℕ → String
letters_of zero = ""
letters_of (suc n) = String.◌∷◌ "t" (letters_of n)

unfoldable pub count_letters : String → ℕ
count_letters String.[] = 0
count_letters (String.◌∷◌ c s) = suc (count_letters s)

abbrev pub moments : Datetime
moments = record { isoformat = letters_of; fromisoformat = λ s. some (count_letters s) }

count-letters_of : (n : ℕ) → count_letters (letters_of n) ≡ n
unfolding count_letters letters_of
count-letters_of zero = refl
count-letters_of (suc n) = rw (count-letters_of n)

pub moments_read : (n : ℕ) → moments.fromisoformat (moments.isoformat n) ≡ some n
moments_read n = rw (count-letters_of n)

abbrev pop_in : String → List (String × String) → Option String × List (String × String)
pop_in k [] = (none, [])
pop_in k ((j, v) ∷ c) = let (r, c') = pop_in k c in if j == k then (some v, c) else (r, (j, v) ∷ c')

instance abbrev pub cache : RequestCache
cache = record { Cache = List (String × String); insert = λ k v c. (k, v) ∷ c; pop = pop_in }

pub cache_laws : CacheLaws cache
cache_laws = record { pop-insert = λ k v c. rw (==_self k) }
