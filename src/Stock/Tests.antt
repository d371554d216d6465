-- ===== src/Stock/Tests.antt =====
-- The properties of stock on the shelf of the small shop.
use store_evix.Common.{◌≡◌, refl, ◌&&◌, none, some, List, [], ◌∷◌, arith, if◌then◌else◌, ltb}
use store_evix.Models.Catalog.{Stock}
use store_evix.Models.Order.{OrderItem}
use store_evix.Fixtures.{kettle, shirt, red_shirt, shelf, shipped_kettle, shipped_shirts}
use store_evix.Stock.Defs.{Take, taken, take_all, decrement_stock, return_all, at_zero}
use store_evix.Stock.Rows.{simple, variant, on_hand}
use store_evix.Stock.Demand.{IsPositive, Outcome, take_all-Outcome}
use store_evix.Stock.Return.{returned, occurrences, return_all-take_all, return_all_notifies}

abbrev wanted : List Take
wanted =
    record { product_id = 1; variant_id = none; qty = 1 }
    ∷ record { product_id = 2; variant_id = some 7; qty = 2 }
    ∷ []

wanted-IsPositive : IsPositive wanted
wanted-IsPositive = (omega arith, (omega arith, tt))

take_all-Outcome_example : Outcome shelf wanted (take_all wanted shelf)
take_all-Outcome_example = take_all-Outcome wanted shelf wanted-IsPositive

abbrev given : List OrderItem
given = shipped_kettle ∷ shipped_shirts ∷ []

abbrev after_wanted : Stock
after_wanted = record {
  products = record kettle { qty = 2 } ∷ shirt ∷ [];
  variants = record red_shirt { qty = 3 } ∷ [];
}

wanted_taken : take_all wanted shelf ≡ taken after_wanted
unfolding take_all decrement_stock
wanted_taken = refl

return_all-take_all_example :
    on_hand (return_all given after_wanted).0 (variant 7) ≡ on_hand shelf (variant 7)
return_all-take_all_example =
    return_all-take_all wanted given shelf after_wanted wanted-IsPositive wanted_taken
      ((refl, refl, refl), ((refl, refl, refl), tt)) (variant 7)

return_all_notifies_example :
    occurrences 1 (return_all given shelf).1
    ≡ (if at_zero (on_hand shelf (simple 1)) && ltb 0 (returned (simple 1) given) then 1 else 0)
return_all_notifies_example = return_all_notifies 1 given shelf (omega arith, (omega arith, tt))
