-- ===== src/Cart/Tests.antt =====
-- The properties of carts on the guest's cart of the small shop and a user's.
use store_evix.Common.{ℕ, ◌+◌, ◌≡◌, ◌≢◌, refl, none, List, [], ◌∷◌, arith, if◌then◌else◌}
use store_evix.Models.Cart.{CartItem}
use store_evix.Models.Db.{Db}
use store_evix.Fixtures.{shop_db, kettles, shirts}
use store_evix.Cart.Defs.{
  add_or_increment_item, delete_item, list_raw_items, merge_carts, merge_line, merge_lines,
  get_item,
}
use store_evix.Cart.Quantities.{
  Place, qty_at, same_place, qty_at-add_or_increment_item, qty_at-delete_item,
}
use store_evix.Cart.MergeStep.{IsDistinct}
use store_evix.Cart.Merge.{IsMerged, merge_carts-IsMerged}

abbrev guest_kettles : Place
guest_kettles = record { cart = 4; product = 1; variant = none }

abbrev rows : List CartItem
rows =
    shirts
    ∷ kettles
    ∷ record { id = 3; cart_id = 5; product_id = 1; variant_id = none; qty = 1 }
    ∷ []

qty_at-add_or_increment_item_example :
    qty_at guest_kettles (add_or_increment_item 9 4 1 none 3 rows)
    ≡ qty_at guest_kettles rows + (if same_place guest_kettles guest_kettles then 3 else 0)
qty_at-add_or_increment_item_example =
    qty_at-add_or_increment_item guest_kettles guest_kettles 9 3 rows

qty_at-delete_item_example :
    qty_at guest_kettles (delete_item 4 1 none rows).1
    ≡ (if same_place guest_kettles guest_kettles then 0 else qty_at guest_kettles rows)
qty_at-delete_item_example = qty_at-delete_item guest_kettles guest_kettles rows

abbrev two_carts : Db
two_carts = record shop_db { cart_items = rows }

users_apart : ◌≢◌ {A = ℕ} 5 4
users_apart = λ e. omega (arith, e)

rows-IsDistinct : IsDistinct 5 4 users_apart (list_raw_items 4 rows)
unfolding list_raw_items
rows-IsDistinct = ((refl, tt), (tt, tt))

merged_kettles :
    qty_at (record { cart = 5; product = 1; variant = none }) (merge_carts 5 4 two_carts).cart_items
    ≡ 3
unfolding merge_carts merge_lines merge_line list_raw_items get_item delete_item
merged_kettles = refl

merge_carts-IsMerged_example : IsMerged 5 4 rows (merge_carts 5 4 two_carts).cart_items
merge_carts-IsMerged_example = merge_carts-IsMerged 5 4 two_carts users_apart rows-IsDistinct
