-- ===== src/Db/Tiny.antt =====
-- What the repositories use of TinyDB, which is not part of the repository: the queries that they
-- build, the operations of a table, and the documented behaviour of these as laws.
use bumper.Base.{
  ℕ, String, ◌≡◌, Bool, true, false, ◌&&◌, ◌||◌, Option, none, some, List, [], ◌∷◌, ◌++◌, code,
  if◌then◌else◌, ltb, nat_eq,
}
use bumper.Value.{Value, str, arr, Items, nil, cons, Fields, lookup, value_eq, mem_item}
use bumper.Db.Rows.{
  Document, Rows, ids, contents, has_id, drop_ids, first_row, select, any_row, patch, drop_where,
}

-- `query.key == v`, `query.key.any(vs)`, `where(key) < s` and `q & r`.
pub data Query : Type 0 where
  eq : String → Value → Query
  any : String → Items → Query
  lt : String → String → Query
  both : Query → Query → Query

pub record TinyDb : Type 1 where
  pub Table : Type 0
  pub matches : Query → Fields → Bool
  -- The documents of a table, and the identifier that the next insertion gives.
  pub all : Table → Rows
  pub next : Table → ℕ
  pub get : Query → Table → Option Document
  pub search : Query → Table → Rows
  pub contains : Query → Table → Bool
  pub insert : Fields → Table → Table
  pub insert_multiple : List Fields → Table → Table
  -- The identifiers of the documents written, and the new table.
  pub upsert : Fields → Query → Table → List ℕ × Table
  pub remove_ids : List ℕ → Table → Table
  pub remove_where : Query → Table → Table
  pub truncate : Table → Table

-- Text order by code points, Python's `<` on `str`.
unfoldable pub text_lt : String → String → Bool
text_lt s String.[] = false
text_lt String.[] (String.◌∷◌ d t) = true
text_lt (String.◌∷◌ c s) (String.◌∷◌ d t) =
    ltb (code c) (code d) || nat_eq (code c) (code d) && text_lt s t

-- A test on a field: a document without the field does not match.
abbrev pub field_test : (Value → Bool) → Option Value → Bool
field_test f none = false
field_test f (some v) = f v

abbrev pub share_item : Items → Items → Bool
share_item nil ys = false
share_item (cons x xs) ys = mem_item x ys || share_item xs ys

abbrev pub any_test : Items → Value → Bool
any_test vs (arr xs) = share_item xs vs
any_test vs v = false

module _ ⦃db : TinyDb⦄ where
  -- `upsert` updates the documents that match, and inserts one where none does.
  abbrev pub upserted : Fields → Query → db.Table → Rows
  upserted f q t =
      if any_row (db.matches q) (db.all t)
      then patch (db.matches q) f (db.all t)
      else db.all t ++ record { doc_id = db.next t; fields = f } ∷ []

  abbrev pub upserted_ids : Fields → Query → db.Table → List ℕ
  upserted_ids f q t =
      if any_row (db.matches q) (db.all t)
      then ids (select (db.matches q) (db.all t))
      else db.next t ∷ []

pub record Documented (db : TinyDb) : Type 0 where
  pub matches-eq :
      (k : String) (v : Value) (d : Fields)
      → db.matches (eq k v) d ≡ field_test (λ w. value_eq w v) (lookup k d)
  pub matches-any :
      (k : String) (vs : Items) (d : Fields)
      → db.matches (any k vs) d ≡ field_test (any_test vs) (lookup k d)
  pub matches-lt :
      (k s t : String) (d : Fields)
      → lookup k d ≡ some (str t)
      → db.matches (lt k s) d ≡ text_lt t s
  pub matches-both :
      (q r : Query) (d : Fields) → db.matches (both q r) d ≡ (db.matches q d && db.matches r d)
  pub next_fresh : (t : db.Table) → has_id (db.next t) (db.all t) ≡ false
  pub get_first : (q : Query) (t : db.Table) → db.get q t ≡ first_row (db.matches q) (db.all t)
  pub search_select : (q : Query) (t : db.Table) → db.search q t ≡ select (db.matches q) (db.all t)
  pub contains_any :
      (q : Query) (t : db.Table) → db.contains q t ≡ any_row (db.matches q) (db.all t)
  pub all-insert :
      (d : Fields) (t : db.Table)
      → db.all (db.insert d t) ≡ db.all t ++ record { doc_id = db.next t; fields = d } ∷ []
  pub all-upsert :
      (f : Fields) (q : Query) (t : db.Table)
      → db.all (db.upsert f q t).1 ≡ upserted ⦃db = db⦄ f q t
  pub ids-upsert :
      (f : Fields) (q : Query) (t : db.Table) → (db.upsert f q t).0 ≡ upserted_ids ⦃db = db⦄ f q t
  pub all-remove_ids :
      (js : List ℕ) (t : db.Table) → db.all (db.remove_ids js t) ≡ drop_ids js (db.all t)
  pub all-remove_where :
      (q : Query) (t : db.Table)
      → db.all (db.remove_where q t) ≡ drop_where (db.matches q) (db.all t)
  pub all-truncate : (t : db.Table) → db.all (db.truncate t) ≡ []
  pub contents-insert_multiple :
      (ds : List Fields) (t : db.Table)
      → contents (db.all (db.insert_multiple ds t)) ≡ contents (db.all t) ++ ds
