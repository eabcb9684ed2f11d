-- ===== src/Db/Clients/Laws.antt =====
-- What the repository of clients promises: reads after writes.
use bumper.Base.{
  String, ◌≡◌, refl, ◌≢◌, Bool, true, false, Option, none, some, arith, ◌==◌, eq_iff, if◌then◌else◌,
  get_or, Option-cases, Bool-cases, inl, inr, ==_self,
}
use bumper.Value.{Value, bool, str, Fields, end, field, lookup, update}
use bumper.Value.Laws.{lookup-update_one}
use bumper.Models.{VacBotClient, new_client, client_as_dict, client_from_dict}
use bumper.Models.Laws.{client_from_dict-client_as_dict}
use bumper.Db.Rows.{Document}
use bumper.Db.Rows.Laws.{map_fields}
use bumper.Db.Tiny.{TinyDb, Documented, eq}
use bumper.Db.Repo.{get_record}
use bumper.Db.Repo.Keyed.{get_record-write, get_record-new, is_found-get_record}
use bumper.Db.Clients.{client_of, add, get, set_mqtt, set_xmpp}

abbrev pub map_client : (VacBotClient → VacBotClient) → Option VacBotClient → Option VacBotClient
map_client f none = none
map_client f (some c) = some (f c)

client_of-map_fields :
    (g : Fields → Fields) (f : VacBotClient → VacBotClient)
    → ((d : Fields) → client_from_dict (g d) ≡ f (client_from_dict d))
    → (o : Option Document) → client_of (map_fields g o) ≡ map_client f (client_of o)
client_of-map_fields g f h none = refl
client_of-map_fields g f h (some r) = rw (h r.fields)

client_of-if :
    (c : Bool) (x y : Option Document)
    → client_of (if c then x else y) ≡ (if c then client_of x else client_of y)
client_of-if true x y = refl
client_of-if false x y = refl

from_dict-mqtt :
    (v : Value) (d : Fields)
    → client_from_dict (update d (field "mqtt_connection" v end))
      ≡ record (client_from_dict d) { mqtt_connection = v }
unfolding client_from_dict
from_dict-mqtt v d = simp lookup-update_one

from_dict-xmpp :
    (v : Value) (d : Fields)
    → client_from_dict (update d (field "xmpp_connection" v end))
      ≡ record (client_from_dict d) { xmpp_connection = v }
unfolding client_from_dict
from_dict-xmpp v d = simp lookup-update_one

userid-new :
    (name userid realm resource : String)
    → lookup "userid" (client_as_dict (new_client name userid realm resource)) ≡ some (str userid)
unfolding lookup client_as_dict
userid-new name userid realm resource = refl

mqtt_key : ◌≢◌ {A = String} "mqtt_connection" "userid"
mqtt_key = ground (arith, eq_iff "mqtt_connection" "userid")

xmpp_key : ◌≢◌ {A = String} "xmpp_connection" "userid"
xmpp_key = ground (arith, eq_iff "xmpp_connection" "userid")

-- Both flags, written one after the other.
both_flags :
    (same b c : Bool) (o p : Option VacBotClient)
    → (if same
        then map_client
            (λ v. record v { xmpp_connection = bool c })
            (map_client (λ v. record v { mqtt_connection = bool b }) o)
        else (if same then map_client (λ v. record v { mqtt_connection = bool b }) o else p))
      ≡ (if same
          then map_client (λ v. record v { mqtt_connection = bool b; xmpp_connection = bool c }) o
          else p)
both_flags true b c none p = refl
both_flags true b c (some v) p = refl
both_flags false b c o p = refl

module _ ⦃db : TinyDb⦄ ⦃laws : Documented db⦄ where
  -- Under the user identifier that `add` is given there is then the client that was there before,
  -- or else the new one; under any other identifier the same is found as before.
  pub get-add-client :
      (name : Option String) (userid realm resource j : String) (t : db.Table)
      → get j (add name userid realm resource t) ≡ (
          if userid == j
          then some (get_or (get userid t) (new_client (get_or name "") userid realm resource))
          else get j t)
  unfolding get add
  get-add-client name userid realm resource j t =
      elim (Option-cases (get_record (eq "userid" (str userid)) t)) [
        | inl absent ↦
            rw (is_found-get_record "userid" userid t, absent)
              (rw (
                get_record-new "userid" userid j
                    (client_as_dict (new_client (get_or name "") userid realm resource)) t
                    (userid-new (get_or name "") userid realm resource) absent,
                client_of-if (userid == j),
                client_from_dict-client_as_dict (new_client (get_or name "") userid realm resource),
              ))
        | inr (r, present) ↦
            rw (is_found-get_record "userid" userid t, present)
              (elim (Bool-cases (userid == j)) [
                | inl e ↦ rw e (let p : userid ≡ j = (eq_iff userid j).0 e in rw (← p) (rw present))
                | inr e ↦ rw e
              ])
      ]

  get_after_mqtt :
      (userid j : String) (b : Bool) (t : db.Table)
      → get j (set_mqtt (str userid) b t) ≡ (
          if userid == j
          then map_client (λ v. record v { mqtt_connection = bool b }) (get userid t)
          else get j t)
  unfolding get set_mqtt
  get_after_mqtt userid j b t =
      rw
        (
          get_record-write "userid" "mqtt_connection" userid j (bool b) t mqtt_key,
          client_of-if (userid == j),
        )
        (rw (
          client_of-map_fields (λ d. update d (field "mqtt_connection" (bool b) end))
            (λ v. record v { mqtt_connection = bool b }) (from_dict-mqtt (bool b))
            (get_record (eq "userid" (str userid)) t)))

  get_after_xmpp :
      (userid j : String) (b : Bool) (t : db.Table)
      → get j (set_xmpp (str userid) b t) ≡ (
          if userid == j
          then map_client (λ v. record v { xmpp_connection = bool b }) (get userid t)
          else get j t)
  unfolding get set_xmpp
  get_after_xmpp userid j b t =
      rw
        (
          get_record-write "userid" "xmpp_connection" userid j (bool b) t xmpp_key,
          client_of-if (userid == j),
        )
        (rw (
          client_of-map_fields (λ d. update d (field "xmpp_connection" (bool b) end))
            (λ v. record v { xmpp_connection = bool b }) (from_dict-xmpp (bool b))
            (get_record (eq "userid" (str userid)) t)))

  -- `set_mqtt` and then `set_xmpp` write the two flags of the client that is found under its
  -- identifier, and of that client no other field. What is found under any other identifier is the
  -- same, and where nothing was found under this one, nothing is found afterwards.
  pub get-set_xmpp-set_mqtt :
      (userid j : String) (b c : Bool) (t : db.Table)
      → get j (set_xmpp (str userid) c (set_mqtt (str userid) b t)) ≡ (
          if userid == j
          then map_client
              (λ v. record v { mqtt_connection = bool b; xmpp_connection = bool c })
              (get userid t)
          else get j t)
  get-set_xmpp-set_mqtt userid j b c t =
      rw
        (
          get_after_xmpp userid j c (set_mqtt (str userid) b t),
          get_after_mqtt userid userid b t,
          get_after_mqtt userid j b t,
          ==_self userid,
        )
        (both_flags (userid == j) b c (get userid t) (get j t))
