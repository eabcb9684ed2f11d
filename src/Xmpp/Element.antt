-- ===== src/Xmpp/Element.antt =====
-- XML elements as `xml.etree.ElementTree` gives them: a tag of the form `{namespace}name`,
-- attributes, text, and children.
use bumper.Base.{String, Option, none, some, List, [], ◌∷◌, ◌++◌, ◌==◌, if◌then◌else◌, is_some}
use bumper.Text.{split, split_once, starts_with, drop_chars}

mutual
  pub data Element : Type 0 where
    element : String → List (String × String) → Option String → Children → Element

  pub data Children : Type 0 where
    leaf : Children
    child : Element → Children → Children

abbrev pub tag : Element → String
tag (element t a x c) = t

abbrev pub attrib : Element → List (String × String)
attrib (element t a x c) = a

abbrev pub text : Element → Option String
text (element t a x c) = x

abbrev pub children : Element → Children
children (element t a x c) = c

-- `xml[0]`: none is the `IndexError`.
abbrev pub head : Children → Option Element
head leaf = none
head (child e es) = some e

abbrev pub find_attr : String → List (String × String) → Option String
find_attr k [] = none
find_attr k ((j, v) ∷ as') = if j == k then some v else find_attr k as'

-- `xml.get(key)`.
abbrev pub attr : String → Element → Option String
attr k e = find_attr k (attrib e)

-- `if "from" not in xml.attrib: xml.attrib["from"] = jid`.
unfoldable pub set_from : String → Element → Element
set_from jid (element t a x c) =
    if is_some (find_attr "from" a)
    then element t a x c
    else element t (a ++ ("from", jid) ∷ []) x c

-- How an f-string shows a value that may be missing.
abbrev pub shown : Option String → String
shown none = "None"
shown (some s) = s

abbrev behind : Option (String × String) → String
behind none = ""
behind (some (_, b)) = b

-- `_tag_strip_uri`: what follows the namespace in braces.
unfoldable pub strip_uri : String → String
strip_uri t = if starts_with "{" t then behind (split_once "}" (drop_chars 1 t)) else t

abbrev last_piece : List String → String
last_piece [] = ""
last_piece (p ∷ ps) = elim ps [ [] ↦ p | ◌∷◌ _ _ ↦ last_piece ps ]

-- `item.tag.split("}")[-1]`.
unfoldable pub item_tag : Element → String
item_tag e = last_piece (split "}" (tag e))

abbrev first_of : List String → String
first_of [] = ""
first_of (p ∷ ps) = p

-- `item.tag.split("}")[0][1:]`.
unfoldable pub item_namespace : Element → String
item_namespace e = drop_chars 1 (first_of (split "}" (tag e)))
