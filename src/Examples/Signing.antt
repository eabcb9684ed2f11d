-- ===== src/Examples/Signing.antt =====
-- A signer of a single token, and what its refresh leads back to.
use bumper.Base.{Bool, true, false, ◌&&◌, none, some, ◌==◌, nat_eq, if◌then◌else◌}
use bumper.Value.{Value, null, num, pos, str, Fields, end, field}
use bumper.Models.{Token, new_token}
use bumper.Web.Oauth.{Jwt, payload_of, claims}
use bumper.Examples.Memory.{memory}

abbrev same_value : Value → Value → Bool
same_value v w = elim v [
  | null ↦ elim w [ null ↦ true | _ ↦ false ]
  | str a ↦ elim w [ str b ↦ a == b | _ ↦ false ]
  | num n ↦ elim n [
    | pos a ↦ elim w [ num m ↦ elim m [ pos b ↦ nat_eq a b | _ ↦ false ] | _ ↦ false ]
    | _ ↦ false
  ]
  | _ ↦ false
]

unfoldable same : Fields → Fields → Bool
same end e = elim e [ end ↦ true | _ ↦ false ]
same (field j v d) e = elim e [ field k w c ↦ (j == k) && (same_value v w && same d c) | _ ↦ false ]

abbrev token : Token
token = new_token "u1" "k1" 5

-- The one payload that is signed: that of a refresh token for the code `c1`, made at the start.
abbrev refresh_payload : Fields
refresh_payload = payload_of 0 (claims token none (str "c1")) "r"

abbrev signer : Jwt
signer = record {
  encode = λ payload h. if same payload refresh_payload then some "t" else none;
  decode = λ text. some refresh_payload;
}
