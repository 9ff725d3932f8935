-- ===== src/Json/Laws.antt =====
-- Laws of the operations on dynamic values.
use compliance_engine.Common.{◌≡◌, refl, List, [], ◌∷◌, ap}
use compliance_engine.Json.{Json, items, item_list}

pub item_list-items : (xs : List Json) → item_list (items xs) ≡ xs
item_list-items [] = refl
item_list-items (x ∷ xs) = ap (λ l. x ∷ l) (item_list-items xs)
