-- ===== src/Checkout/Sellable.antt =====
-- What the loop of `_load_cart_lines` (app/services/checkout_service.py) keeps of each cart line.
use store_evix.Common.{
  ℕ, ◌≤◌, ◌<◌, ◌≡◌, refl, ap, ◌∙◌, Bool, true, Option, none, some, List, [], ◌∷◌, String, arith,
  All, select_where, inl, inr, Option-cases,
}
use store_evix.Common.Table.{find, find_key}
use store_evix.Common.Session.{Result, ok, err}
use store_evix.Models.Catalog.{Product, ProductVariant}
use store_evix.Models.Cart.{CartItem}
use store_evix.Models.Db.{Db}
use store_evix.Stock.{product_key, variant_key}
use store_evix.Checkout.Choice.{CheckoutError, PricedLine}
use store_evix.Checkout.Lines.{
  Shop, insert_item, sort_items, CartLine, joined, join_products, LineResult, priced, skipped,
  short_of, price_line, cons_line, price_lines, variant_row,
}

-- The price and the stock that a line of this variant is held to.
abbrev pub IsPricedAs : PricedLine → Option ℕ → Product → Db → Type 0
IsPricedAs l none p db = (l.price ≡ p.price) × (l.qty ≤ p.qty)
IsPricedAs l (some id) p db =
    (v : ProductVariant) × (find variant_key id db.stock.variants ≡ some v)
    × (v.is_active ≡ true)
    × (l.price ≡ v.price)
    × (l.qty ≤ v.qty)

-- A line that may be sold: of an active product, at its current price, within its stock, and of a
-- positive quantity.
abbrev pub IsSellable : Db → PricedLine → Type 0
IsSellable db l =
    (p : Product) × (find product_key l.product_id db.stock.products ≡ some p)
    × (p.is_active ≡ true)
    × (0 < l.qty)
    × IsPricedAs l l.variant_id p db

abbrev pub IsPositiveCart : List CartItem → Type 0
IsPositiveCart = All λ i. 0 < i.qty

pub select-All :
    (p : CartItem → Bool) (is : List CartItem)
    → IsPositiveCart is
    → IsPositiveCart (select_where p is)
select-All p [] h = tt
select-All p (i ∷ is) (h, hs) = ground (arith, select-All p is hs)

insert-All :
    (i : CartItem) (is : List CartItem)
    → 0 < i.qty
    → IsPositiveCart is
    → IsPositiveCart (insert_item i is)
insert-All i [] h hs = (h, tt)
insert-All i (j ∷ js) h (hj, hs) = ground (arith, insert-All i js h hs)

pub sort-All : (is : List CartItem) → IsPositiveCart is → IsPositiveCart (sort_items is)
unfolding sort_items
sort-All [] h = tt
sort-All (i ∷ is) (h, hs) = insert-All i (sort_items is) h (sort-All is hs)

-- A joined line carries a product of the table.
abbrev pub IsJoined : Db → CartLine → Type 0
IsJoined db l =
    (find product_key l.product.id db.stock.products ≡ some l.product) × (0 < l.item.qty)

joined-All :
    (i : CartItem) (lang : String) (db : Db) (o : Option Product) (rest : List CartLine)
    → find product_key i.product_id db.stock.products ≡ o
    → 0 < i.qty
    → All (IsJoined db) rest
    → All (IsJoined db) (joined i lang db o rest)
joined-All i lang db none rest e h hs = hs
joined-All i lang db (some p) rest e h hs = (
  (
    ap (λ k. find product_key k db.stock.products)
          (find_key product_key i.product_id db.stock.products p e)
        ∙ e,
    h,
  ),
  hs,
)

pub join-All :
    (lang : String) (db : Db) (is : List CartItem)
    → IsPositiveCart is
    → All (IsJoined db) (join_products lang db is)
join-All lang db [] h = tt
join-All lang db (i ∷ is) (h, hs) =
    joined-All i lang db (find product_key i.product_id db.stock.products)
      (join_products lang db is) refl h (join-All lang db is hs)

-- A line that is priced may be sold.
abbrev Sold : Db → LineResult → Type 0
Sold db (priced l) = IsSellable db l
Sold db skipped = Unit
Sold db (short_of p) = Unit

variant_row-IsPricedAs :
    (shop : Shop) (lang : String) (db : Db) (l : CartLine) (id : Option ℕ)
    → IsJoined db l
    → let line = record l { item = record l.item { variant_id = id } } in
      Sold db (price_line shop lang line (variant_row id db))
variant_row-IsPricedAs shop lang db l none (e, h) = ground arith
variant_row-IsPricedAs shop lang db l (some id) (e, h) =
    elim (Option-cases (find variant_key id db.stock.variants)) [
      | inl missing ↦ ground arith
      | inr (v, found) ↦ ground arith
    ]

cons-All :
    (db : Db) (r : LineResult) (rest : Result CheckoutError (List PricedLine))
    (ls : List PricedLine)
    → Sold db r
    → ((ms : List PricedLine) → rest ≡ ok ms → All (IsSellable db) ms)
    → cons_line r rest ≡ ok ls
    → All (IsSellable db) ls
cons-All db skipped rest ls h hs e = hs ls e
cons-All db (short_of p) rest ls h hs e = cc
cons-All db (priced l) (err x) ls h hs e = cc
cons-All db (priced l) (ok ms) ls h hs e = ground (arith, hs ms refl)

pub price_lines-All :
    (shop : Shop) (lang : String) (db : Db) (cs : List CartLine) (ls : List PricedLine)
    → All (IsJoined db) cs
    → price_lines shop lang db cs ≡ ok ls
    → All (IsSellable db) ls
unfolding price_lines
price_lines-All shop lang db [] ls h e = ground arith
price_lines-All shop lang db (c ∷ cs) ls (h, hs) e =
    cons-All db _ (price_lines shop lang db cs) ls
      (variant_row-IsPricedAs shop lang db c c.item.variant_id h)
      (λ ms. price_lines-All shop lang db cs ms hs) e
