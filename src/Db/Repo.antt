-- ===== src/Db/Repo.antt =====
-- The base repository, `bumper/db/base.py`.
pub mod Keyed
pub mod Removed
use bumper.Base.{
  String, ◌≡◌, Bool, true, false, ◌&&◌, not, Option, none, some, List, [], ◌∷◌, if◌then◌else◌,
}
use bumper.Value.{
  Value, arr, nil, Items, Fields, end, field, lookup_or, to_list, mem_item, append_item, erase_item,
}
use bumper.Db.Rows.{Document, Rows, head_row}
use bumper.Db.Tiny.{TinyDb, Query}

-- `len(ids) > 0`
abbrev pub written {ℓ} : {A : Type ℓ} → List A → Bool
written [] = false
written (i ∷ is) = true

-- The list after the item has been added, unless it is there, or removed, if it is there.
unfoldable pub change_list : Items → Value → Bool → Items
change_list xs v add =
    if add && not (mem_item v xs)
    then append_item xs v
    else if not add && mem_item v xs
    then erase_item v xs
    else xs

module _ ⦃db : TinyDb⦄ where
  -- `BaseRepo._upsert`
  unfoldable pub upsert_record : Option Fields → Query → db.Table → Bool × db.Table
  upsert_record none q t = (false, t)
  upsert_record (some d) q t = let (is, t') = db.upsert d q t in (written is, t')

  -- `BaseRepo._get`
  unfoldable pub get_record : Query → db.Table → Option Document
  get_record q t = db.get q t

  -- `BaseRepo._get_multi`
  unfoldable pub get_multi : Query → db.Table → Rows
  get_multi q t = db.search q t

  -- `BaseRepo._get_first`
  unfoldable pub get_first : Query → db.Table → Option Document
  unfolding get_multi
  get_first q t = head_row (get_multi q t)

  abbrev pub remove_found : Option Document → db.Table → db.Table
  remove_found none t = t
  remove_found (some r) t = db.remove_ids (r.doc_id ∷ []) t

  -- `BaseRepo._remove`: the first document that matches goes.
  unfoldable pub remove_record : Query → db.Table → db.Table
  remove_record q t = remove_found (db.get q t) t

  abbrev pub write_list :
      Query → String → Value → Bool → Option Items → db.Table → Option Bool × db.Table
  write_list q k v add none t = (none, t)
  write_list q k v add (some xs) t =
      let (ok, t') = upsert_record (some (field k (arr (change_list xs v add)) end)) q t in
      (some ok, t')

  abbrev pub update_found :
      Query → String → Value → Bool → Option Document → db.Table → Option Bool × db.Table
  update_found q k v add none t = (some false, t)
  update_found q k v add (some r) t =
      write_list q k v add (to_list (lookup_or k (arr nil) r.fields)) t

  -- `BaseRepo.update_list_field`; none is the `TypeError` where the field holds no list.
  unfoldable pub update_list_field :
      Query → String → Value → Bool → db.Table → Option Bool × db.Table
  unfolding change_list
  update_list_field q k v add t = update_found q k v add (get_record q t) t

-- `if self._get(q)`: a document counts as true unless it is empty.
abbrev pub is_found : Option Document → Bool
is_found none = false
is_found (some r) = elim r.fields [ end ↦ false | field _ _ _ ↦ true ]
