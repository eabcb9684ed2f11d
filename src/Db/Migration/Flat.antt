-- ===== src/Db/Migration/Flat.antt =====
-- The documents that the old ones of the robots' logs come apart into, as a relation: it says of
-- `_migrate_clean_logs_0_2_2_to_0_2_3` of `bumper/db/migration.py` what it reads and what it writes.
use bumper.Base.{◌≡◌, refl, some, List, [], ◌∷◌, ◌++◌}
use bumper.Value.{Value, null, obj, arr, Items, nil, cons, Fields, lookup_or, insert}
use bumper.Db.Rows.{Document, Rows}
use bumper.Db.Migration.{flatten_items, flatten_doc, flatten_rows}

-- Each log of a list, which has dictionaries only, with the identifier of its robot.
pub data LogsOf (did : Value) : Items → List Fields → Type 0 where
  no_logs : LogsOf did nil []
  a_log :
      (log : Fields) {rest : Items} {ds : List Fields}
      → LogsOf did rest ds
      → LogsOf did (cons (obj log) rest) (insert "did" did log ∷ ds)

-- One old document: it has no logs, or a list of them.
pub data FlatDoc (d : Fields) : List Fields → Type 0 where
  without_logs : lookup_or "logs" null d ≡ null → FlatDoc d []
  with_logs :
      (logs : Items) {ds : List Fields}
      → lookup_or "logs" null d ≡ arr logs
      → LogsOf (lookup_or "did" null d) logs ds
      → FlatDoc d ds

-- All the old documents, in their order.
pub data Flat : Rows → List Fields → Type 0 where
  no_documents : Flat [] []
  a_document :
      (r : Document) {rs : Rows} {ds es : List Fields}
      → FlatDoc r.fields ds
      → Flat rs es
      → Flat (r ∷ rs) (ds ++ es)

flatten_items-LogsOf :
    {did : Value} {vs : Items} {ds : List Fields}
    → LogsOf did vs ds
    → flatten_items did vs ≡ some ds
unfolding flatten_items
flatten_items-LogsOf no_logs = refl
flatten_items-LogsOf (a_log log h) = rw (flatten_items-LogsOf h) refl

flatten_doc-FlatDoc : {d : Fields} {ds : List Fields} → FlatDoc d ds → flatten_doc d ≡ some ds
unfolding flatten_doc
flatten_doc-FlatDoc (without_logs e) = rw (e, flatten_doc) refl
flatten_doc-FlatDoc (with_logs logs e h) = rw (e, flatten_doc) (flatten_items-LogsOf h)

pub flatten_rows-Flat : {rs : Rows} {ds : List Fields} → Flat rs ds → flatten_rows rs ≡ some ds
unfolding flatten_rows
flatten_rows-Flat no_documents = refl
flatten_rows-Flat (a_document r h k) = rw (flatten_doc-FlatDoc h, flatten_rows-Flat k) refl
