-- ===== src/Models/CleanLog/Laws.antt =====
-- Records of cleanings come back from the documents that they are written to.
use mathlib.Core.Path.{subst}
use mathlib.Core.Option.{some-injective}
use bumper.Base.{◌≡◌, ◌≢◌, refl, Option, none, some, Option-cases, inl, inr}
use bumper.Value.{ℤ, Value, Fields, lookup, lookup_or}
use bumper.Numbers.{to_int}
use bumper.Models.CleanLog.{
  CleanLog, int_value, int_or_zero, as_int, as_int_or_zero, read_log, log_to_db, log_from_db, get,
}

none-ne-some : (l : CleanLog) → ◌≢◌ {A = Option CleanLog} none (some l)
none-ne-some l h = cc

as_int-int_value : (o : Option ℤ) → as_int (int_value o) ≡ int_value o
unfolding as_int to_int
as_int-int_value none = refl
as_int-int_value (some n) = refl

as_int_or_zero-int_or_zero : (o : Option ℤ) → as_int_or_zero (int_or_zero o) ≡ int_or_zero o
unfolding as_int_or_zero to_int
as_int_or_zero-int_or_zero none = refl
as_int_or_zero-int_or_zero (some n) = refl

as_int-as_int : (v : Value) → as_int (as_int v) ≡ as_int v
unfolding as_int
as_int-as_int v = as_int-int_value (to_int v)

as_int_or_zero_self : (v : Value) → as_int_or_zero (as_int_or_zero v) ≡ as_int_or_zero v
unfolding as_int_or_zero
as_int_or_zero_self v = as_int_or_zero-int_or_zero (to_int v)

reread : (d : Fields) (i : Value) → log_from_db (log_to_db (read_log d i)) ≡ some (read_log d i)
unfolding log_from_db log_to_db lookup_or lookup
reread d i = rw (
  as_int_or_zero_self (get "aiavoid" d),
  as_int-as_int (get "area" d),
  as_int-as_int (get "stop_reason" d),
  as_int-as_int (get "last" d),
  as_int-as_int (get "ts" d),
  as_int-as_int (get "avoid_count" d),
  as_int-as_int (get "enable_power_mop" d),
  as_int-as_int (get "power_mop_type" d),
  as_int-as_int (get "ai_open" d),
)

-- A record that was read from a document comes back unchanged from the document that it is
-- written to, whatever its fields were before the first reading turned them into numbers.
pub log_from_db-log_to_db :
    (d : Fields) (l : CleanLog) → log_from_db d ≡ some l → log_from_db (log_to_db l) ≡ some l
unfolding log_from_db
log_from_db-log_to_db d l h = elim (Option-cases (lookup "clean_log_id" d)) [
  | inl e ↦ absurd (none-ne-some l (rw e at h))
  | inr (i, e) ↦
      let p : read_log d i ≡ l = some-injective (read_log d i) l (rw e at h) in
      subst (λ l'. log_from_db (log_to_db l') ≡ some l') p (reread d i)
]
