-- ===== src/Mqtt/Command/Laws.antt =====
-- The topic of a command can be taken apart again.
use bumper.Base.{String, ◌≡◌, refl, false, [], ◌∷◌}
use bumper.Text.{split, append, concat, contains_char}
use bumper.Text.Laws.{split-append, split-single}
use bumper.Value.{Json, shown}
use bumper.Mqtt.Command.{Command, create_topic}

append_nil : (s : String) → append s "" ≡ s
unfolding append
append_nil String.[] = refl
append_nil (String.◌∷◌ c s) = rw (append_nil s)

-- No part of the topic holds a slash.
pub record HasNoSlash (json : Json) (c : Command) : Type 0 where
  pub name : contains_char "/" (shown json c.cmd_name) ≡ false
  pub did : contains_char "/" (shown json c.did) ≡ false
  pub to_type : contains_char "/" (shown json c.to_type) ≡ false
  pub to_res : contains_char "/" (shown json c.to_res) ≡ false
  pub request_id : contains_char "/" c.request_id ≡ false
  pub payload_type : contains_char "/" (shown json c.payload_type) ≡ false

-- Where no part of it holds a slash, the topic of a command splits into twelve pieces: the robot
-- finds the helper bot, itself and the request's identifier at the places at which the broker and
-- the helper bot look for them.
pub split-create_topic :
    (json : Json) (c : Command)
    → HasNoSlash json c
    → split "/" (create_topic json c)
      ≡ "iot"
        ∷ "p2p"
        ∷ shown json c.cmd_name
        ∷ "helperbot"
        ∷ "bumper"
        ∷ "helperbot"
        ∷ shown json c.did
        ∷ shown json c.to_type
        ∷ shown json c.to_res
        ∷ "q"
        ∷ c.request_id
        ∷ shown json c.payload_type
        ∷ []
unfolding create_topic concat append split
split-create_topic json c h = rw (
  append_nil (shown json c.payload_type),
  split-append "/" (shown json c.cmd_name) _ h.name,
  split-append "/" (shown json c.did) _ h.did,
  split-append "/" (shown json c.to_type) _ h.to_type,
  split-append "/" (shown json c.to_res) _ h.to_res,
  split-append "/" c.request_id _ h.request_id,
  split-single "/" (shown json c.payload_type) h.payload_type,
)
