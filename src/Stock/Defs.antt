-- ===== src/Stock/Defs.antt =====
-- The statements on the two stock tables. One UPDATE is atomic in the database.
use store_evix.Common.{
  ℕ, ◌+◌, ◌-◌, Bool, true, false, Option, none, some, List, [], ◌∷◌, if◌then◌else◌, leb, ◌==◌,
}
use store_evix.Common.Table.{find, modify}
use store_evix.Models.Catalog.{Product, ProductVariant, Stock}
use store_evix.Models.Order.{OrderItem}

abbrev pub product_key : Product → ℕ
product_key p = p.id

abbrev pub variant_key : ProductVariant → ℕ
variant_key v = v.id

-- The quantity of the row with a key, if the row is there.
abbrev pub product_qty : Option Product → Option ℕ
product_qty none = none
product_qty (some p) = some p.qty

abbrev pub variant_qty : Option ProductVariant → Option ℕ
variant_qty none = none
variant_qty (some v) = some v.qty

-- `qty >= n` of an optional row: whether the UPDATE has a row to change.
abbrev pub covers : Option ℕ → ℕ → Bool
covers none n = false
covers (some q) n = leb n q

abbrev pub take_product : ℕ → Product → Product
take_product n p = record p { qty = p.qty - n }

abbrev pub take_variant : ℕ → ProductVariant → ProductVariant
take_variant n v = record v { qty = v.qty - n }

abbrev pub give_product : ℕ → Product → Product
give_product n p = record p { qty = p.qty + n }

abbrev pub give_variant : ℕ → ProductVariant → ProductVariant
give_variant n v = record v { qty = v.qty + n }

-- Whether a row was affected, and the tables afterwards.
unfoldable pub decrement_stock : ℕ → ℕ → Option ℕ → Stock → Bool × Stock
decrement_stock product_id qty (some variant_id) s =
    if covers (variant_qty (find variant_key variant_id s.variants)) qty
    then (true, record s { variants = modify variant_key variant_id (take_variant qty) s.variants })
    else (false, s)
decrement_stock product_id qty none s =
    if covers (product_qty (find product_key product_id s.products)) qty
    then (true, record s { products = modify product_key product_id (take_product qty) s.products })
    else (false, s)

-- A row that was read as empty.
abbrev pub at_zero : Option ℕ → Bool
at_zero none = false
at_zero (some q) = q == 0

-- Whether a row was affected that stood at zero before, and the tables afterwards. A null product
-- id matches no row.
unfoldable pub increment_stock : Option ℕ → ℕ → Option ℕ → Stock → Bool × Stock
increment_stock product_id qty (some variant_id) s = (
  at_zero (variant_qty (find variant_key variant_id s.variants)),
  record s { variants = modify variant_key variant_id (give_variant qty) s.variants },
)
increment_stock (some product_id) qty none s = (
  at_zero (product_qty (find product_key product_id s.products)),
  record s { products = modify product_key product_id (give_product qty) s.products },
)
increment_stock none qty none s = (false, s)

-- What a checkout takes for one line.
pub record Take : Type 0 where
  pub product_id : ℕ
  pub variant_id : Option ℕ
  pub qty : ℕ

pub data Taken : Type 0 where
  taken : Stock → Taken
  out_of_stock : ℕ → Taken

-- The loop before the commit: it stops at the first line that finds too little.
unfoldable pub take_all : List Take → Stock → Taken
unfolding decrement_stock
take_all [] s = taken s
take_all (l ∷ ls) s =
    let (decremented, s') = decrement_stock l.product_id l.qty l.variant_id s in
    let rest = take_all ls s' in if decremented then rest else out_of_stock l.product_id

abbrev pub notified_for : Bool → Option ℕ → Option ℕ → List ℕ → List ℕ
notified_for true none (some product_id) notified = product_id ∷ notified
notified_for crossed variant_id product_id notified = notified

-- The loop of the stock return: the tables afterwards, and the products whose restock notification
-- is enqueued. A line whose product and variant are both gone is skipped.
unfoldable pub return_all : List OrderItem → Stock → Stock × List ℕ
unfolding increment_stock
return_all [] s = (s, [])
return_all (i ∷ is) s =
    let (crossed, s') = increment_stock i.product_id i.qty i.variant_id s in
    let (s'', notified) = return_all is s' in
    (s'', notified_for crossed i.variant_id i.product_id notified)
