-- ===== src/Db/Migration/Laws.antt =====
-- What a migration of the database does.
use bumper.Base.{
  ℕ, suc, String, ◌≡◌, refl, ◌≢◌, Bool, true, false, Option, none, some, List, [], ◌∷◌, ◌++◌, arith,
  ◌==◌, continue, pure, ◌>>=◌, ◌∙◌, sym, if◌then◌else◌, Bool-cases, inl, inr, ap, eq_iff, ◌⊎◌,
  is_some,
}
use bumper.Settings.{Config}
use bumper.Value.{Value, null, str, obj, Fields, end, field, lookup, lookup_or, update, value_eq}
use bumper.Value.Laws.{lookup-insert}
use bumper.Db.Rows.{Document, Rows, contents, first_row, any_row, patch}
use bumper.Db.Rows.Laws.{map_fields, is_some-first_row, any_row-first_row, first_row-append}
use bumper.Db.Tiny.{TinyDb, Documented}
use bumper.Db.Repo.Keyed.{is_key, is_found-get_record, matches-is_key, get_record_lem}
use bumper.Db.Meta.{version_in, version_query, get_db_version, set_db_version}
use bumper.Db.Migration.Flat.{Flat, flatten_rows-Flat}
use bumper.Db.Migration.{
  Database, Ending, at_version, out_of_fuel, flatten_rows, migrate_db, migrate_loop, migrate_step,
  migrate_clean_logs, backup_db, next_version, version_or_first, migration_0_2_3, align,
}

-- No key, no migration, or the one migration.
next_version-cases :
    (v : Value)
    → (next_version v ≡ none)
      ⊎ ((next_version v ≡ some none) ⊎ (next_version v ≡ some (some "0.2.3")))
unfolding next_version
next_version-cases (str v) = elim (Bool-cases (v == "0.0.0")) [
  | inl e ↦ rw e (inr (inr refl))
  | inr e ↦ rw e (elim (Bool-cases (v == "0.2.2")) [
    | inl h ↦ rw h (inr (inr refl))
    | inr h ↦ rw h (inr (inl refl))
  ])
]
next_version-cases (obj d) = inl refl
next_version-cases (Value.arr vs) = inl refl
next_version-cases null = inr (inl refl)
next_version-cases (Value.bool b) = inr (inl refl)
next_version-cases (Value.num n) = inr (inl refl)

module _ ⦃db : TinyDb⦄ where
  migrate_loop-last :
      (copies : Bool) (n : ℕ) (s : Database)
      → migrate_loop copies (suc n) (str "0.2.3") s ≡ (some (at_version (str "0.2.3")), s)
  unfolding migrate_loop next_version
  migrate_loop-last copies n s = refl

  -- After the step the loop ends, whatever fuel is left.
  loop_after :
      (copies : Bool) (n : ℕ) (r : Option (Unit {0})) (s : Database)
      → continue (λ u. migrate_loop copies (suc n) (str "0.2.3")) r s
        ≡ continue (λ u. pure (at_version (str "0.2.3"))) r s
  unfolding migrate_loop next_version
  loop_after copies n none s = refl
  loop_after copies n (some u) s = refl

  migrate_loop-step :
      (copies : Bool) (n : ℕ) (v : Value) (s : Database)
      → next_version v ≡ some (some "0.2.3")
      → migrate_loop copies (suc (suc n)) v s
        ≡ (migrate_step copies "0.2.3" >>= λ u. pure (at_version (str "0.2.3"))) s
  unfolding migrate_loop
  migrate_loop-step copies n v s e =
      rw e (loop_after copies n (migrate_step copies "0.2.3" s).0 (migrate_step copies "0.2.3" s).1)

  migrate_loop-fuel :
      (copies : Bool) (n : ℕ) (v : Value) (s : Database)
      → migrate_loop copies (suc (suc n)) v s ≡ migrate_loop copies 2 v s
  unfolding migrate_loop
  migrate_loop-fuel copies n v s = elim (next_version-cases v) [
    | inl e ↦ rw e
    | inr (inl e) ↦ rw e
    | inr (inr e) ↦ migrate_loop-step copies n v s e ∙ sym (migrate_loop-step copies 0 v s e)
  ]

  -- The database that a migration which cannot read its documents leaves: a copy was made.
  abbrev pub copied : Bool → Database → Database
  copied false s = s
  copied true s = record s { backups = (s.clean_logs, s.meta) ∷ s.backups }

  -- The database that a step leads to.
  abbrev stepped : String → List Fields → Database → Database
  stepped v ds s = record {
    clean_logs = db.insert_multiple ds (db.truncate s.clean_logs);
    meta = set_db_version v s.meta;
    backups = (s.clean_logs, s.meta) ∷ s.backups;
  }

  migrate_step-done :
      (v : String) (s : Database) (ds : List Fields)
      → flatten_rows (db.all s.clean_logs) ≡ some ds
      → migrate_step true v s ≡ (some tt, stepped v ds s)
  unfolding migrate_step backup_db migrate_clean_logs
  migrate_step-done v s ds h = rw h

  after_step-ends :
      (r : Option (Unit {0})) (s : Database)
      → (continue (λ u. pure (at_version (str "0.2.3"))) r s).0 ≢ some out_of_fuel
  after_step-ends none s h = cc
  after_step-ends (some u) s h = cc

  migrate_loop-ends :
      (copies : Bool) (v : Value) (s : Database) → (migrate_loop copies 2 v s).0 ≢ some out_of_fuel
  unfolding migrate_loop
  migrate_loop-ends copies v s = elim (next_version-cases v) [
    | inl e ↦ rw e (λ h. cc)
    | inr (inl e) ↦ rw e (λ h. cc)
    | inr (inr e) ↦
        rw (migrate_loop-step copies 0 v s e)
          (after_step-ends (migrate_step copies "0.2.3" s).0 (migrate_step copies "0.2.3" s).1)
  ]

  align-ends :
      (cfg : Config) (r : Option Ending) (s : Database)
      → r ≢ some out_of_fuel
      → (continue (align cfg) r s).0 ≢ some out_of_fuel
  align-ends cfg none s ne h = cc
  align-ends cfg (some out_of_fuel) s ne h = ne refl
  align-ends cfg (some (at_version v)) s ne h =
      elim (Bool-cases (value_eq v (str cfg.app_version))) [ inl e ↦ cc (h, e) | inr e ↦ cc (h, e) ]

  migrate_db-fuel :
      (cfg : Config) (copies : Bool) (n : ℕ) (s : Database)
      → migrate_db cfg copies (suc (suc n)) s ≡ migrate_db cfg copies 2 s
  unfolding migrate_db
  migrate_db-fuel cfg copies n s =
      rw (migrate_loop-fuel copies n (version_or_first (get_db_version s.meta)) s)

  -- However the migration goes, two rounds of its loop are enough: more fuel changes nothing.
  pub migrate_db-ends :
      (cfg : Config) (copies : Bool) (n : ℕ) (s : Database)
      → (migrate_db cfg copies (suc (suc n)) s ≡ migrate_db cfg copies 2 s)
        × ((migrate_db cfg copies (suc (suc n)) s).0 ≢ some out_of_fuel)
  unfolding migrate_db
  migrate_db-ends cfg copies n s =
      let v = version_or_first (get_db_version s.meta) in
      let ends =
        align-ends cfg (migrate_loop copies 2 v s).0 (migrate_loop copies 2 v s).1
          (migrate_loop-ends copies v s) in
      (migrate_db-fuel cfg copies n s, rw (migrate_db-fuel cfg copies n s) ends)

module _ ⦃db : TinyDb⦄ ⦃laws : Documented db⦄ where
  first_row-written :
      (p : Fields → Bool) (f : Fields) (rs : Rows)
      → ((d : Fields) → p (update d f) ≡ true)
      → first_row p (patch p f rs) ≡ map_fields (λ d. update d f) (first_row p rs)
  first_row-written p f [] h = refl
  first_row-written p f (r ∷ rs) h = elim (Bool-cases (p r.fields)) [
    | inl e ↦ ground (arith, h r.fields)
    | inr e ↦ ground (arith, first_row-written p f rs h)
  ]

  abbrev version_fields : String → Fields
  version_fields v = field "key" (str "db_version") (field "value" (str v) end)

  is_key-version :
      (v : String) (d : Fields) → is_key "key" "db_version" (update d (version_fields v)) ≡ true
  unfolding update value_eq
  is_key-version v d = simp (lookup-insert)

  value-version :
      (v : String) (r : Option Document)
      → is_some r ≡ true
      → version_in (map_fields (λ d. update d (version_fields v)) r) ≡ str v
  unfolding update lookup_or
  value-version v none h = cc
  value-version v (some r) h = simp (lookup-insert)

  is_some-map_fields :
      (g : Fields → Fields) (r : Option Document) → is_some (map_fields g r) ≡ is_some r
  is_some-map_fields g none = refl
  is_some-map_fields g (some r) = refl

  -- What is found after the version is written, by whether there was one.
  first_row-version :
      (v : String) (i : ℕ) (rs : Rows) (b : Bool)
      → any_row (is_key "key" "db_version") rs ≡ b
      → let found = first_row (is_key "key" "db_version") (
          if b
          then patch (is_key "key" "db_version") (version_fields v) rs
          else rs ++ record { doc_id = i; fields = version_fields v } ∷ []) in
        (is_some found ≡ true) × (version_in found ≡ str v)
  unfolding lookup lookup_or value_eq
  first_row-version v i rs true h =
      rw (first_row-written (is_key "key" "db_version") (version_fields v) rs (is_key-version v)) (
        let found = is_some-first_row (is_key "key" "db_version") rs ∙ h in
        (
          is_some-map_fields (λ d. update d (version_fields v))
                (first_row (is_key "key" "db_version") rs)
              ∙ found,
          value-version v (first_row (is_key "key" "db_version") rs) found,
        ))
  first_row-version v i rs false h =
      rw
        (
          first_row-append (is_key "key" "db_version") rs
              (record { doc_id = i; fields = version_fields v }),
          any_row-first_row (is_key "key" "db_version") rs h,
        )
        (refl, refl)

  -- The version that is set is the version that is read.
  get_db_version-set : (v : String) (t : db.Table) → get_db_version (set_db_version v t) ≡ str v
  unfolding get_db_version set_db_version
  get_db_version-set v t =
      let t' = set_db_version v t in
      let (has, holds) =
        first_row-version v (db.next t) (db.all t) (any_row (is_key "key" "db_version") (db.all t))
          refl in
      rw (
        is_found-get_record "key" "db_version" t',
        get_record_lem "key" "db_version" t',
        laws.all-upsert (version_fields v) version_query t,
        matches-is_key "key" "db_version",
        has,
        holds,
      )

  contents-replaced :
      (ds : List Fields) (t : db.Table)
      → contents (db.all (db.insert_multiple ds (db.truncate t))) ≡ ds
  contents-replaced ds t =
      rw (laws.contents-insert_multiple ds (db.truncate t), laws.all-truncate t)

  -- Where the copy can be made and the old logs can be read - each document has no logs or a list of
  -- dictionaries - a database of before 0.2.3 comes out with the version of the application and with
  -- exactly these logs as its documents: each on its own, with the identifier of its robot, in the
  -- order of the documents and of the lists. The copy holds what the database was.
  pub migrate_db-migrated :
      (cfg : Config) (n : ℕ) (s : Database) (ds : List Fields)
      → next_version (version_or_first (get_db_version s.meta)) ≡ some (some "0.2.3")
      → Flat (db.all s.clean_logs) ds
      → let (r, s') = migrate_db cfg true (suc (suc n)) s in
        (r ≡ some (at_version (str cfg.app_version)))
        × ((contents (db.all s'.clean_logs) ≡ ds)
            × ((get_db_version s'.meta ≡ str cfg.app_version)
                × (s'.backups ≡ (s.clean_logs, s.meta) ∷ s.backups)))
  unfolding migrate_db value_eq
  migrate_db-migrated cfg n s ds old good =
      rw
        (
          migrate_loop-step true n (version_or_first (get_db_version s.meta)) s old,
          migrate_step-done "0.2.3" s ds (flatten_rows-Flat good),
        )
        (elim (Bool-cases (migration_0_2_3 == cfg.app_version)) [
          | inl e ↦ rw e (
            ap (λ v. some (at_version (str v))) ((eq_iff migration_0_2_3 cfg.app_version).0 e),
            (
              contents-replaced ds s.clean_logs,
              (
                get_db_version-set migration_0_2_3 s.meta
                    ∙ ap str ((eq_iff migration_0_2_3 cfg.app_version).0 e),
                refl,
              ),
            ),
          )
          | inr e ↦ rw e (
            refl,
            (
              contents-replaced ds s.clean_logs,
              (get_db_version-set cfg.app_version (set_db_version migration_0_2_3 s.meta), refl),
            ),
          )
        ])
