-- ===== src/Cart/Quantities.antt =====
-- How much of a product and variant a cart asks for, under the writes of
-- app/repositories/cart_repo.py and the merge of app/services/cart_service.py.
use store_evix.Common.{
  ℕ, ◌+◌, ◌≡◌, Bool, true, ◌&&◌, Option, List, [], ◌∷◌, ◌++◌, arith, if◌then◌else◌, ◌==◌, opt_eq,
  opt_eq_iff, is_some, inl, inr, Bool-cases,
}
use store_evix.Models.Cart.{CartItem}
use store_evix.Cart.Defs.{
  is_line, get_item, change_line, add_qty, new_item, add_or_increment_item, delete_item,
}

-- A line is for a cart, a product and a variant.
pub record Place : Type 0 where
  pub cart : ℕ
  pub product : ℕ
  pub variant : Option ℕ

abbrev pub is_at : Place → CartItem → Bool
is_at k i = is_line k.cart k.product k.variant i

abbrev pub same_place : Place → Place → Bool
same_place j k = (j.cart == k.cart && j.product == k.product) && opt_eq j.variant k.variant

-- The quantity that the lines at a place ask for together.
abbrev pub qty_at : Place → List CartItem → ℕ
qty_at k [] = 0
qty_at k (i ∷ is) = (if is_at k i then i.qty else 0) + qty_at k is

abbrev pub place_of : CartItem → Place
place_of i = record { cart = i.cart_id; product = i.product_id; variant = i.variant_id }

-- A line at one place is at another exactly when they are the same.
pub at_same : (j k : Place) (i : CartItem) → is_at k i ≡ true → is_at j i ≡ same_place k j
at_same j k i h = ground (arith, opt_eq_iff i.variant_id k.variant)

pub same_iff : (k : Place) → same_place k k ≡ true
same_iff k = ground (arith, opt_eq_iff k.variant k.variant)

pub qty_at-append :
    (k : Place) (is js : List CartItem) → qty_at k (is ++ js) ≡ qty_at k is + qty_at k js
qty_at-append k [] js = omega arith
qty_at-append k (i ∷ is) js = omega (arith, qty_at-append k is js)

pub qty_at-change_line :
    (j k : Place) (n : ℕ) (is : List CartItem)
    → is_some (get_item k.cart k.product k.variant is) ≡ true
    → qty_at j (change_line k.cart k.product k.variant (add_qty n) is)
      ≡ qty_at j is + (if same_place k j then n else 0)
unfolding get_item
qty_at-change_line j k n [] h = cc
qty_at-change_line j k n (i ∷ is) h = ground (arith, at_same j k i, qty_at-change_line j k n is)

-- Adding to a cart raises the quantity at the place of the line by what is added, whether the line
-- is there or not, and changes the quantity at no other place.
pub qty_at-add_or_increment_item :
    (j k : Place) (id n : ℕ) (is : List CartItem)
    → qty_at j (add_or_increment_item id k.cart k.product k.variant n is)
      ≡ qty_at j is + (if same_place k j then n else 0)
unfolding add_or_increment_item
qty_at-add_or_increment_item j k id n is =
    elim (Bool-cases (is_some (get_item k.cart k.product k.variant is))) [
      | inl e ↦ rw e (qty_at-change_line j k n is e)
      | inr e ↦ rw e (
          ground (
            arith,
            qty_at-append j is (new_item id k.cart k.product k.variant n ∷ []),
            at_same j k (new_item id k.cart k.product k.variant n) (same_iff k),
          ))
    ]

-- Removing a line leaves nothing at its place, and changes the quantity at no other.
pub qty_at-delete_item :
    (j k : Place) (is : List CartItem)
    → qty_at j (delete_item k.cart k.product k.variant is).1
      ≡ (if same_place k j then 0 else qty_at j is)
unfolding delete_item
qty_at-delete_item j k [] = ground arith
qty_at-delete_item j k (i ∷ is) = ground (arith, at_same j k i, qty_at-delete_item j k is)
