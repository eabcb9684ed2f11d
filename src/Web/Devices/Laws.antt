-- ===== src/Web/Devices/Laws.antt =====
-- Which devices are listed.
use bumper.Base.{Bool, true, false, ◌&&◌, Option, none, some, List, [], ◌∷◌, if◌then◌else◌}
use bumper.Value.{Value, Fields, truthy}
use bumper.Models.{VacBotDevice}
use bumper.Web.Devices.{product_of}

-- The bots that have a product: the list is made of those.
abbrev known_product : Option (Option Fields) → Bool
known_product none = false
known_product (some none) = false
known_product (some (some botprod)) = true

abbrev pub known_dids : List Fields → List VacBotDevice → List (Option Value)
known_dids products [] = []
known_dids products (b ∷ bs) =
    if truthy b.class_id && known_product (product_of b.class_id products)
    then some b.did ∷ known_dids products bs
    else known_dids products bs

abbrev prepend : Option Fields → List Fields → List Fields
prepend none ds = ds
prepend (some d) ds = d ∷ ds
