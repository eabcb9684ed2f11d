-- ===== src/Examples/Service.antt =====
-- The authentication service at concrete tables.
use bumper.Db.Tokens.{
  login_by_it_token, add_auth_code, verify_auth_code, get_first_token, revoke_user_expired,
  of_token, verify, token_validity,
}
use bumper.Value.{truthy, str, lookup, value_eq, nil, lookup_or}
use bumper.Web.Codes.{get_new_auth, get_auth_code_v2, generate_auth_code}
use bumper.Web.Response.{success_v2}
use bumper.Base.{◌≡◌, refl, true, some, [], ◌∷◌, false, none, ltb, ◌+◌}
use bumper.Models.{new_user, user_as_dict, new_token, token_to_db, token_from_dict, user_from_dict}
use bumper.Db.Tiny.{text_lt}
use bumper.Db.Repo.{get_record, get_first, upsert_record}
use bumper.Db.Users
use bumper.Db.Users.Laws.{AllHold}
use bumper.Web.Auth.Laws.{auth_any-verify}
use bumper.Examples.Memory.{moments_read, memory, memory_laws, moments, letters_of}
use bumper.Web.Auth.{auth_any, uid_or_default, login_success, World, Env, revoke_expired}
use bumper.Web.Codes.Laws.{success, get_auth_code_v2-accepted}

abbrev env : Env
env = record {
  now = 10;
  now_millis = 10;
  loaded_millis = 0;
  dt = moments;
  uuid = λ n. "c9";
  digest = λ s. s;
}

abbrev world : World
world = record {
  users = record { doc_id = 1; fields = user_as_dict (new_user "u1") } ∷ [];
  bots = [];
  tokens = record { doc_id = 1; fields = token_to_db moments (new_token "u1" "k1" 50) } ∷ [];
  drawn = 0;
}

answered : (get_auth_code_v2 env (some "u1") world).0 ≡ some (success (str "c9"))
unfolding get_auth_code_v2 Users.get_by_id get_record lookup user_as_dict value_eq revoke_expired
    get_first_token get_first revoke_user_expired token_to_db text_lt letters_of token_from_dict
    generate_auth_code add_auth_code upsert_record
answered = refl

get_auth_code_v2-accepted_example :
    verify_auth_code "u1" "c9" (get_auth_code_v2 env (some "u1") world).1.tokens ≡ true
get_auth_code_v2-accepted_example = get_auth_code_v2-accepted env "u1" "c9" world answered

user_known : Users.get_by_id (uid_or_default env (some "u1")) world.users ≡ some (new_user "u1")
unfolding Users.get_by_id get_record lookup user_as_dict user_from_dict value_eq
user_known = refl

lists_hold : AllHold world.users
unfolding lookup_or user_as_dict lookup
lists_hold = (record { devices = (nil, refl); bots = (nil, refl); homeids = (nil, refl) }, tt)

token_new : memory.contains (of_token "u1" "c9") world.tokens ≡ false
unfolding token_to_db lookup value_eq
token_new = refl

auth_any-verify_example :
    (let r = auth_any env (some "u1") none "dev" "global_app" "us" false world in
      (r.0 ≡ some (login_success env "global_app" "us" (new_user "u1") "c9"))
      × (verify moments 11 "u1" "c9" r.1.tokens ≡ some (ltb 11 (10 + token_validity))))
auth_any-verify_example =
    auth_any-verify env (some "u1") "u1" "dev" "global_app" "us" (new_user "u1") world 11 user_known
      refl lists_hold token_new (moments_read (10 + token_validity))

-- A token that ended at the moment 5, with an IoT token and a code.
abbrev ended : World
ended = record world {
  tokens =
      record {
        doc_id = 1;
        fields =
            token_to_db moments
              (record (new_token "u1" "k1" 5) { it_token = str "i"; auth_code = str "c" });
      }
      ∷ [];
}

-- The code of the ended token is answered, but the token is revoked on the way, so the code is
-- not accepted.
code_of_ended_token :
    ((get_new_auth env (some "i") ended).0 ≡ some (success_v2 (str "c") none "authCode" "result"))
    × (verify_auth_code "u1" "c" (get_new_auth env (some "i") ended).1.tokens ≡ false)
unfolding get_new_auth get_first lookup value_eq revoke_expired revoke_user_expired token_to_db
    text_lt letters_of token_from_dict verify_auth_code login_by_it_token truthy
code_of_ended_token = (refl, refl)
