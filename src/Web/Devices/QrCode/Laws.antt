-- ===== src/Web/Devices/QrCode/Laws.antt =====
-- What a second scan of a robot's code finds.
use bumper.Base.{
  if◌then◌else◌, String, ◌≡◌, refl, true, false, Option, none, some, List, [], ◌∷◌, Bool-cases,
  Option-cases, ◌∙◌, ap, inl, inr, or_raise, ◌>>=◌,
}
use bumper.Value.{Value, str, Fields, lookup_or, value_eq}
use bumper.Web.Devices.{get, first_robot, get_robot, is_robot, get_product_category, product_of}
use bumper.Web.Devices.QrCode.Renaming.{Unnamed, rewrite_robot-Unnames}
use bumper.Web.Devices.QrCode.{
  rewrite_robot, changed, change_first, product_name, decode_qr_code, with_robot, guided,
}

-- The groups without the first robot of the name.
unfoldable pub others : Value → List Fields → List Fields
others name [] = []
others name (robot ∷ robots) =
    let rest = others name robots in
    if value_eq (get "groupName" robot) name then robots else robot ∷ rest

-- Two lists of robots that a scan at this name does not tell apart.
abbrev Same : Value → Value → List Fields → List Fields → Type 0
Same mid name rs ss =
    (first_robot "groupName" name rs ≡ first_robot "groupName" name ss)
    × ((change_first (rewrite_robot mid) "groupName" name rs).0
        ≡ (change_first (rewrite_robot mid) "groupName" name ss).0)

changed-some :
    (o : Option (Unit {0})) (d robot : Fields)
    → ◌≡◌ {A = Option (Option Fields)} (some (changed o d)) (some (some robot))
    → o ≡ some tt
changed-some none d robot h = cc
changed-some (some tt) d robot h = refl

Unnamed-value : (n : String) (d : Fields) → Unnamed d → value_eq (get "groupName" d) (str n) ≡ false
unfolding value_eq lookup_or
Unnamed-value n d h = rw h refl

-- After the robot of the name was rewritten the next one stands in its place.
change_first-Same :
    (mid : Value) (n : String) (robots : List Fields) (robot : Fields)
    → (change_first (rewrite_robot mid) "groupName" (str n) robots).0 ≡ some (some robot)
    → Same mid
        (str n)
        (change_first (rewrite_robot mid) "groupName" (str n) robots).1
        (others (str n) robots)
unfolding change_first first_robot others
change_first-Same mid n [] robot h = cc
change_first-Same mid n (r ∷ rs) robot h =
    elim (Bool-cases (value_eq (get "groupName" r) (str n))) [
      | inl e ↦
          let hit =
            changed-some (rewrite_robot mid r).0 (rewrite_robot mid r).1 robot (rw e at h) in
          rw (e, Unnamed-value n (rewrite_robot mid r).1 (rewrite_robot-Unnames mid r tt hit))
            (refl, refl)
      | inr e ↦ rw (e, e) (change_first-Same mid n rs robot (rw e at h))
    ]

-- Where no robot has the name nothing is taken out.
change_first-none :
    (mid : Value) (name : Value) (robots : List Fields)
    → (change_first (rewrite_robot mid) "groupName" name robots).0 ≡ none
    → Same mid name
        (change_first (rewrite_robot mid) "groupName" name robots).1
        (others name robots)
unfolding change_first first_robot others
change_first-none mid name [] h = (refl, refl)
change_first-none mid name (r ∷ rs) h = elim (Bool-cases (value_eq (get "groupName" r) name)) [
  | inl e ↦ cc (rw e at h)
  | inr e ↦ rw (e, e) (change_first-none mid name rs (rw e at h))
]

with_robot-robots :
    (sn category mid : Value) (n : String) (robots : List Fields) (v : Value)
    → let r =
        with_robot sn category (change_first (rewrite_robot mid) "groupName" (str n) robots) in
      (r.0 ≡ some v → Same mid (str n) r.1 (others (str n) robots))
with_robot-robots sn category mid n robots v h =
    let changes = change_first (rewrite_robot mid) "groupName" (str n) robots in
    elim (Option-cases changes.0) [
      | inl e ↦ rw e (change_first-none mid (str n) robots e)
      | inr (o, e) ↦ elim (Option-cases o) [
        | inl none_left ↦ cc (rw (e ∙ ap some none_left) at h)
        | inr (robot, some_left) ↦
            let hit = e ∙ ap some some_left in rw hit (change_first-Same mid n robots robot hit)
      ]
    ]

-- The scan from where the name of the product is read: what it leaves of the robots.
decode_named :
    (sn mid : Value) (n : String) (robots : List Fields) (o : Option Fields) (c : Option Value)
    (v : Value)
    → is_robot o ≡ true
    → let r = (or_raise c >>= λ category. guided sn mid (str n) category o) robots in
      (r.0 ≡ some v → Same mid (str n) r.1 (others (str n) robots))
decode_named sn mid n robots none c v found h = cc
decode_named sn mid n robots (some robot) none v found h = cc
decode_named sn mid n robots (some robot) (some c) v found h =
    rw found (with_robot-robots sn c mid n robots v (rw found at h))

decode_qr_code-robots :
    (products robots : List Fields) (sn mid v : Value) (botprod : Fields) (n : String)
    → product_of mid products ≡ some (some botprod)
    → product_name botprod ≡ some (str n)
    → is_robot (get_robot "groupName" (str n) robots) ≡ true
    → (decode_qr_code products sn mid robots).0 ≡ some v
    → Same mid (str n) (decode_qr_code products sn mid robots).1 (others (str n) robots)
unfolding decode_qr_code
decode_qr_code-robots products robots sn mid v botprod n known named found h =
    rw (known, named)
      (decode_named sn mid n robots (get_robot "groupName" (str n) robots)
        (get_product_category (str n) (get_robot "groupName" (str n) robots)) v found
        (rw (known, named) at h))

with_robot-first :
    (sn category : Value) (o : Option (Option Fields)) (rs ss : List Fields)
    → (with_robot sn category (o, rs)).0 ≡ (with_robot sn category (o, ss)).0
with_robot-first sn category none rs ss = refl
with_robot-first sn category (some none) rs ss = refl
with_robot-first sn category (some (some robot)) rs ss = refl

guided-Same :
    (sn mid name : Value) (c : Option Value) (o : Option Fields) (rs ss : List Fields)
    → Same mid name rs ss
    → ((or_raise c >>= λ category. guided sn mid name category o) rs).0
      ≡ ((or_raise c >>= λ category. guided sn mid name category o) ss).0
guided-Same sn mid name none o rs ss h = refl
guided-Same sn mid name (some c) none rs ss h = refl
guided-Same sn mid name (some c) (some robot) rs ss (p, q) =
    elim (Bool-cases (is_robot (some robot))) [
      | inl e ↦ rw e (
          ap
            (λ o. (with_robot sn c (o, (change_first (rewrite_robot mid) "groupName" name rs).1)).0)
            q
          ∙ with_robot-first sn c (change_first (rewrite_robot mid) "groupName" name ss).0
              (change_first (rewrite_robot mid) "groupName" name rs).1
              (change_first (rewrite_robot mid) "groupName" name ss).1)
      | inr e ↦ rw e refl
    ]

get_robot-first_robot :
    (name : Value) (rs ss : List Fields)
    → first_robot "groupName" name rs ≡ first_robot "groupName" name ss
    → get_robot "groupName" name rs ≡ get_robot "groupName" name ss
unfolding get_robot
get_robot-first_robot name rs ss h = rw h refl

-- A scan answers the same on robots that it does not tell apart.
decode_qr_code-Same :
    (products rs ss : List Fields) (sn mid : Value) (botprod : Fields) (n : String)
    → product_of mid products ≡ some (some botprod)
    → product_name botprod ≡ some (str n)
    → Same mid (str n) rs ss
    → (decode_qr_code products sn mid rs).0 ≡ (decode_qr_code products sn mid ss).0
unfolding decode_qr_code
decode_qr_code-Same products rs ss sn mid botprod n known named h =
    rw (known, named, get_robot-first_robot (str n) rs ss h.0)
      (guided-Same sn mid (str n) (get_product_category (str n) (get_robot "groupName" (str n) ss))
        (get_robot "groupName" (str n) ss) rs ss h)

-- The first scan of a product, where it answers with a robot of the groups as its guide, uses that
-- robot up: the next scan of the same product answers as if the groups had never had it, with the
-- next robot of the name where there is one.
pub decode_qr_code-again :
    (products robots : List Fields) (sn mid v : Value) (botprod : Fields) (n : String)
    → product_of mid products ≡ some (some botprod)
    → product_name botprod ≡ some (str n)
    → is_robot (get_robot "groupName" (str n) robots) ≡ true
    → (decode_qr_code products sn mid robots).0 ≡ some v
    → (decode_qr_code products sn mid (decode_qr_code products sn mid robots).1).0
      ≡ (decode_qr_code products sn mid (others (str n) robots)).0
decode_qr_code-again products robots sn mid v botprod n known named found h =
    decode_qr_code-Same products (decode_qr_code products sn mid robots).1 (others (str n) robots)
      sn mid botprod n known named
      (decode_qr_code-robots products robots sn mid v botprod n known named found h)
