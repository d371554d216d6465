-- ===== src/Stock/Rows.antt =====
-- One statement on one row: what `decrement_stock` and `increment_stock` do to every quantity.
use store_evix.Common.{
  ℕ, ◌+◌, ◌-◌, ◌≡◌, refl, Bool, false, ◌&&◌, Option, none, some, arith, if◌then◌else◌, ◌==◌,
}
use store_evix.Common.Table.{find, find-modify}
use store_evix.Models.Catalog.{Stock}
use store_evix.Stock.Defs.{
  product_key, variant_key, product_qty, variant_qty, covers, take_product, take_variant,
  give_product, give_variant, decrement_stock, increment_stock, at_zero,
}

-- What stock is counted by: a product without variants, or a variant.
pub data Sku : Type 0 where
  simple variant : ℕ → Sku

abbrev pub sku : ℕ → Option ℕ → Sku
sku product_id none = simple product_id
sku product_id (some variant_id) = variant variant_id

abbrev pub sku_eq : Sku → Sku → Bool
sku_eq (simple a) (simple b) = a == b
sku_eq (simple a) (variant b) = false
sku_eq (variant a) (simple b) = false
sku_eq (variant a) (variant b) = a == b

-- The quantity on hand, if the row is there.
abbrev pub on_hand : Stock → Sku → Option ℕ
on_hand s (simple k) = product_qty (find product_key k s.products)
on_hand s (variant k) = variant_qty (find variant_key k s.variants)

abbrev pub minus : ℕ → Option ℕ → Option ℕ
minus n none = none
minus n (some q) = some (q - n)

abbrev pub plus : ℕ → Option ℕ → Option ℕ
plus n none = none
plus n (some q) = some (q + n)

-- The statement succeeds exactly when the row covers the quantity, and it then lowers that row and
-- no other; when it fails nothing changes.
pub decrement_stock_lem :
    (p n : ℕ) (v : Option ℕ) (s : Stock) (k : Sku)
    → let (done, t) = decrement_stock p n v s in
      (done ≡ covers (on_hand s (sku p v)) n)
      × (on_hand t k ≡ (if done && sku_eq (sku p v) k then minus n (on_hand s k) else on_hand s k))
unfolding decrement_stock
decrement_stock_lem p n none s (simple k) =
    ground (arith, find-modify product_key k p (take_product n) s.products (λ r. refl))
decrement_stock_lem p n none s (variant k) = ground arith
decrement_stock_lem p n (some v) s (simple k) = ground arith
decrement_stock_lem p n (some v) s (variant k) =
    ground (arith, find-modify variant_key k v (take_variant n) s.variants (λ r. refl))

-- A return raises the row of the line and no other.
pub increment_stock_lem :
    (p n : ℕ) (v : Option ℕ) (s : Stock) (k : Sku)
    → let (crossed, t) = increment_stock (some p) n v s in
      (crossed ≡ at_zero (on_hand s (sku p v)))
      × (on_hand t k ≡ (if sku_eq (sku p v) k then plus n (on_hand s k) else on_hand s k))
unfolding increment_stock
increment_stock_lem p n none s (simple k) =
    ground (arith, find-modify product_key k p (give_product n) s.products (λ r. refl))
increment_stock_lem p n none s (variant k) = ground arith
increment_stock_lem p n (some v) s (simple k) = ground arith
increment_stock_lem p n (some v) s (variant k) =
    ground (arith, find-modify variant_key k v (give_variant n) s.variants (λ r. refl))
