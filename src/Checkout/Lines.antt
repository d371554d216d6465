-- ===== src/Checkout/Lines.antt =====
-- A cart as priced lines: `_load_cart_lines` of app/services/checkout_service.py with
-- `get_active_cart` and `list_cart_lines` of app/repositories/order_repo.py, and `normalize_lang` of
-- app/api/lang.py.
use Prim.Native.String.{◌++◌ as str_append}
use store_evix.Common.{
  ℕ, Bool, true, false, not, ◌&&◌, ◌||◌, Option, none, some, List, [], ◌∷◌, String, select_where,
  if◌then◌else◌, ltb, leb, ◌==◌, str_eq,
}
use store_evix.Common.Table.{find}
use store_evix.Common.Session.{Result, ok, err}
use store_evix.Models.Catalog.{Product, ProductTranslation, ProductVariant}
use store_evix.Models.Cart.{Cart, CartItem, CartStatus, draft, converted, abandoned}
use store_evix.Models.Db.{Db}
use store_evix.Stock.{product_key, variant_key}
use store_evix.Order.{truthy}
use store_evix.Checkout.Choice.{
  CheckoutError, empty_cart, out_of_stock, multiple_results_found, Settings, CarrierQuote,
  DeliveryChoice, PricedLine, effective_weight,
}

-- What the carrier tells of a destination, stored on the order.
pub record CarrierSnapshot : Type 0 where
  pub settlement_id : Option String
  pub settlement_name : String
  pub settlement_name_ru : String
  pub division_id : Option String
  pub division_number : String
  pub division_address : String

-- What checkout takes from outside: the settings, the carrier, the localized option labels of
-- variants, and Python's `str.strip` and `str.lower`.
pub record Shop : Type 0 where
  pub settings : Settings
  pub quote : CarrierQuote
  pub destination : DeliveryChoice → Option CarrierSnapshot
  pub option_label : ℕ → String → Option String
  pub strip : String → String
  pub lower : String → String

unfoldable pub normalize_lang : Shop → Option String → String
normalize_lang shop none = "ro"
normalize_lang shop (some lang) =
    let normalized = shop.lower (shop.strip lang) in
    if str_eq normalized "ru" || str_eq normalized "ro" then normalized else "ro"

abbrev pub is_draft : CartStatus → Bool
is_draft draft = true
is_draft converted = false
is_draft abandoned = false

abbrev pub owned_by : Option ℕ → Option ℕ → Bool
owned_by owner none = false
owned_by none (some k) = false
owned_by (some o) (some k) = o == k

-- `scalar_one_or_none`
abbrev pub scalar_one_or_none : {A : Type 0} → List A → Result CheckoutError (Option A)
scalar_one_or_none [] = ok none
scalar_one_or_none (a ∷ []) = ok (some a)
scalar_one_or_none (a ∷ b ∷ _) = err multiple_results_found

unfoldable pub get_active_cart :
    Option ℕ → Option ℕ → List Cart → Result CheckoutError (Option Cart)
get_active_cart (some user) token carts =
    scalar_one_or_none
      (select_where (λ c. owned_by c.user_id (some user) && is_draft c.status) carts)
get_active_cart none (some token) carts =
    scalar_one_or_none
      (select_where (λ c. owned_by c.session_token (some token) && is_draft c.status) carts)
get_active_cart none none carts = ok none

unfoldable pub translation : ℕ → String → List ProductTranslation → Option String
translation product_id lang [] = none
translation product_id lang (t ∷ ts) =
    if t.product_id == product_id && str_eq t.lang lang
    then some t.name
    else translation product_id lang ts

abbrev pub coalesce : Option String → Option String → Option String
coalesce none b = b
coalesce (some a) b = some a

-- The requested language, then the default one.
unfoldable pub localized_name : ℕ → String → Db → Option String
unfolding translation
localized_name product_id lang db =
    coalesce (translation product_id lang db.translations)
      (translation product_id "ro" db.translations)

abbrev pub insert_item : CartItem → List CartItem → List CartItem
insert_item i [] = i ∷ []
insert_item i (j ∷ js) =
    let rest = insert_item i js in if leb i.product_id j.product_id then i ∷ j ∷ js else j ∷ rest

-- `ORDER BY product_id`
unfoldable pub sort_items : List CartItem → List CartItem
sort_items [] = []
sort_items (i ∷ is) = insert_item i (sort_items is)

unfoldable pub cart_rows : ℕ → Db → List CartItem
unfolding sort_items
cart_rows cart_id db = sort_items (select_where (λ i. i.cart_id == cart_id) db.cart_items)

-- A row of the join of a cart line with its product.
pub record CartLine : Type 0 where
  pub item : CartItem
  pub product : Product
  pub name : Option String

abbrev pub joined : CartItem → String → Db → Option Product → List CartLine → List CartLine
joined i lang db none rest = rest
joined i lang db (some p) rest =
    record { item = i; product = p; name = localized_name p.id lang db } ∷ rest

abbrev pub join_products : String → Db → List CartItem → List CartLine
join_products lang db [] = []
join_products lang db (i ∷ is) =
    joined i lang db (find product_key i.product_id db.stock.products) (join_products lang db is)

unfoldable pub list_cart_lines : ℕ → String → Db → List CartLine
unfolding cart_rows localized_name
list_cart_lines cart_id lang db = join_products lang db (cart_rows cart_id db)

abbrev pub text_or : Option String → String → String
text_or none d = d
text_or (some s) d = s

abbrev pub labelled : String → Option String → String
labelled base none = base
labelled base (some label) = str_append base (str_append " (" (str_append label ")"))

-- A line becomes a priced one, is skipped, or is short of stock.
pub data LineResult : Type 0 where
  priced : PricedLine → LineResult
  skipped : LineResult
  short_of : ℕ → LineResult

abbrev pub own_weight : Option ProductVariant → Product → Option ℕ
own_weight none p = p.weight_g
own_weight (some v) p = elim v.weight_g [ none ↦ p.weight_g | some w ↦ some w ]

abbrev pub unit_price : Option ProductVariant → Product → ℕ
unit_price none p = p.price
unit_price (some v) p = v.price

abbrev pub available : Option ProductVariant → Product → ℕ
available none p = p.qty
available (some v) p = v.qty

-- A line that names a variant is stale if the variant is gone or inactive.
abbrev pub is_stale : Option ℕ → Option ProductVariant → Bool
is_stale none v = false
is_stale (some _) none = true
is_stale (some _) (some v) = not v.is_active

abbrev pub variant_row : Option ℕ → Db → Option ProductVariant
variant_row none db = none
variant_row (some id) db = find variant_key id db.stock.variants

abbrev pub label_of : Shop → Option ℕ → String → Option String
label_of shop none lang = none
label_of shop (some id) lang = truthy (shop.option_label id lang)

abbrev pub price_line : Shop → String → CartLine → Option ProductVariant → LineResult
price_line shop lang l v =
    if not l.product.is_active
    then skipped
    else if is_stale l.item.variant_id v
    then skipped
    else if ltb (available v l.product) l.item.qty
    then short_of l.product.id
    else priced (record {
      product_id = l.product.id;
      variant_id = l.item.variant_id;
      name = labelled (text_or l.name l.product.code) (label_of shop l.item.variant_id lang);
      price = unit_price v l.product;
      qty = l.item.qty;
      weight_g = effective_weight shop.settings (own_weight v l.product);
    })

abbrev pub cons_line :
    LineResult → Result CheckoutError (List PricedLine) → Result CheckoutError (List PricedLine)
cons_line skipped rest = rest
cons_line (short_of p) rest = err (out_of_stock p)
cons_line (priced l) (ok ls) = ok (l ∷ ls)
cons_line (priced l) (err e) = err e

-- The loop over the lines, which stops at the first that is short.
unfoldable pub price_lines :
    Shop → String → Db → List CartLine → Result CheckoutError (List PricedLine)
price_lines shop lang db [] = ok []
price_lines shop lang db (l ∷ ls) =
    cons_line (price_line shop lang l (variant_row l.item.variant_id db))
      (price_lines shop lang db ls)

abbrev pub with_cart :
    Cart → Result CheckoutError (List PricedLine) → Result CheckoutError (Cart × List PricedLine)
with_cart cart (err e) = err e
with_cart cart (ok []) = err empty_cart
with_cart cart (ok (l ∷ ls)) = ok (cart, l ∷ ls)

abbrev pub lines_of_cart :
    Shop
    → Option String
    → Db
    → Result CheckoutError (Option Cart)
    → Result CheckoutError (Cart × List PricedLine)
lines_of_cart shop lang db (err e) = err e
lines_of_cart shop lang db (ok none) = err empty_cart
lines_of_cart shop lang db (ok (some cart)) =
    let norm_lang = normalize_lang shop lang in
    with_cart cart (price_lines shop norm_lang db (list_cart_lines cart.id norm_lang db))

unfoldable pub load_cart_lines :
    Shop → Option ℕ → Option ℕ → Option String → Db → Result CheckoutError (Cart × List PricedLine)
unfolding normalize_lang get_active_cart list_cart_lines price_lines
load_cart_lines shop user_id session_token lang db =
    lines_of_cart shop lang db (get_active_cart user_id session_token db.carts)
