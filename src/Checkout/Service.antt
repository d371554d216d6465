-- ===== src/Checkout/Service.antt =====
-- The requests of a customer: `quote`, `checkout` and `quick_buy` of
-- app/services/checkout_service.py, with `get_product_with_name` of app/repositories/order_repo.py.
use store_evix.Common.{
  ℕ, Bool, true, false, not, ◌||◌, Option, none, some, List, [], ◌∷◌, String, if◌then◌else◌, ltb,
  ◌==◌, is_some,
}
use store_evix.Common.Table.{find}
use store_evix.Common.Session.{
  Result, ok, err, Session, pure, raise, gets, lift, or_raise, raise_if, ◌>>=◌, ◌>>◌,
}
use store_evix.Models.Catalog.{Product, ProductVariant}
use store_evix.Models.Order.{
  DeliveryType, pickup, courier, branch, postomat, own, PaymentMethod, cod, card, Order,
  OrderNumber,
}
use store_evix.Models.Db.{Db, Address}
use store_evix.Stock.{product_key, variant_key}
use store_evix.Order.{truthy, get_order_by_number}
use store_evix.Payment.{PaymentError, PaymentAction, Gateway, initiate_card_payment}
use store_evix.Promo.{PromoError, validate_and_compute}
use store_evix.Models.Promo.{PromoCode}
use store_evix.Checkout.Choice.{
  CheckoutError, out_of_stock, product_not_found, promo_refused, delivery_address_forbidden,
  card_refused, order_missing, DeliveryAddress, DeliveryChoice, is_carrier, validate, PricedLine,
  effective_weight, Totals, subtotal_of, quote_from_lines,
}
use store_evix.Checkout.Lines.{
  CarrierSnapshot, Shop, normalize_lang, localized_name, labelled, text_or, unit_price, available,
  label_of, load_cart_lines,
}
use store_evix.Checkout.Place.{
  CheckoutAction, FreshOrder, Recipient, empty_recipient, OrderRequest, blank_snapshot, snapshot_or,
  persist_order,
}

abbrev pub address_key : Address → ℕ
address_key a = a.id

-- `get_address`: the row with the id, if the user owns it.
abbrev pub owned_address : ℕ → Option Address → Option Address
owned_address user_id none = none
owned_address user_id (some a) = if a.user_id == user_id then some a else none

unfoldable pub load_owned_address : Option ℕ → ℕ → Db → Option Address
load_owned_address none address_id db = none
load_owned_address (some user_id) address_id db =
    owned_address user_id (find address_key address_id db.addresses)

abbrev pub saved_recipient : Option Address → Result CheckoutError Recipient
saved_recipient none = err delivery_address_forbidden
saved_recipient (some a) =
    ok (record { name = some a.full_name; city = some a.city; street = some a.street; zip = a.zip })

abbrev pub inline_recipient : Option DeliveryAddress → Recipient
inline_recipient none = empty_recipient
inline_recipient (some a) = record {
  name = some a.full_name;
  city = some a.city;
  street = some a.street;
  zip = a.zip;
}

abbrev pub is_pickup : DeliveryType → Bool
is_pickup pickup = true
is_pickup courier = false
is_pickup branch = false
is_pickup postomat = false

-- `_resolve_delivery_snapshot`: a saved address, where one is named, goes before an inline one.
unfoldable pub resolve_delivery_snapshot :
    Option ℕ
    → DeliveryType
    → Option ℕ
    → Option DeliveryAddress
    → Db
    → Result CheckoutError Recipient
unfolding load_owned_address
resolve_delivery_snapshot user_id kind none address db = ok (inline_recipient address)
resolve_delivery_snapshot user_id kind (some id) address db =
    if is_pickup kind
    then ok (inline_recipient address)
    else saved_recipient (load_owned_address user_id id db)

abbrev pub discount_of : Result PromoError (PromoCode × ℕ) → Result CheckoutError ℕ
discount_of (ok (_, discount)) = ok discount
discount_of (err e) = err (promo_refused e)

abbrev pub discount_for : Option String → ℕ → ℕ → Db → Result CheckoutError ℕ
discount_for none subtotal now db = ok 0
discount_for (some code) subtotal now db = discount_of (validate_and_compute code subtotal now db)

-- `_resolve_discount`: no code, or the empty one, takes nothing off.
unfoldable pub resolve_discount : List PricedLine → Option String → ℕ → Db → Result CheckoutError ℕ
resolve_discount lines promo_code now db =
    discount_for (truthy promo_code) (subtotal_of lines) now db

-- Who asks, and for what; `now` is the clock.
pub record CheckoutRequest : Type 0 where
  pub user_id : Option ℕ
  pub session_token : Option ℕ
  pub email : String
  pub phone : String
  pub choice : DeliveryChoice
  pub promo_code : Option String
  pub payment_method : PaymentMethod
  pub lang : Option String
  pub now : ℕ

-- The saved address is checked for our own logistics only.
abbrev pub recipient_of : CheckoutRequest → Db → Result CheckoutError Recipient
recipient_of q db =
    if is_carrier q.choice.service
    then ok (record { name = q.choice.np_recipient_name; city = none; street = none; zip = none })
    else resolve_delivery_snapshot q.user_id q.choice.delivery_type q.choice.address_id
        q.choice.address db

-- `quote` writes nothing.
unfoldable pub quote : Shop → CheckoutRequest → CheckoutAction Totals
unfolding load_cart_lines resolve_delivery_snapshot resolve_discount quote_from_lines validate
quote shop q = do
  lift (validate shop.settings q.choice)
  loaded ← gets (load_cart_lines shop q.user_id q.session_token q.lang)
  (cart, lines) ← lift loaded
  resolved ← gets (recipient_of q)
  recipient ← lift resolved
  discounted ← gets (resolve_discount lines q.promo_code q.now)
  discount ← lift discounted
  lift (quote_from_lines shop.settings shop.quote lines q.choice discount)

-- The destination as the carrier names it; a failure leaves the ids only.
abbrev pub carrier_snapshot : Shop → DeliveryChoice → Option CarrierSnapshot
carrier_snapshot shop c =
    if is_carrier c.service
    then some (snapshot_or (shop.destination c) (blank_snapshot c))
    else none

-- The coupon is stored only where it took something off.
abbrev pub applied_code : Option String → ℕ → Option String
applied_code code discount = if ltb 0 discount then code else none

abbrev pub order_request : Shop → CheckoutRequest → ℕ → Recipient → ℕ → Totals → OrderRequest
order_request shop q cart_id recipient discount totals = record {
  user_id = q.user_id;
  email = q.email;
  phone = q.phone;
  totals = totals;
  delivery_type = q.choice.delivery_type;
  delivery_address_id = if is_carrier q.choice.service then none else q.choice.address_id;
  recipient = recipient;
  promo_code = applied_code q.promo_code discount;
  cart_id = some cart_id;
  payment_method = q.payment_method;
  choice = some q.choice;
  np_snapshot = carrier_snapshot shop q.choice;
}

-- An action of the payment service inside the checkout.
abbrev pub charged :
    {A : Type 0} → Result PaymentError A × Session Db → Result CheckoutError A × Session Db
charged (ok a, s) = (ok a, s)
charged (err e, s) = (err (card_refused e), s)

abbrev pub of_payment : {A : Type 0} → PaymentAction A → CheckoutAction A
of_payment m s = charged (m s)

abbrev pub pay_for : Gateway → ℕ → Option Order → CheckoutAction String
pay_for gateway payment_id none = raise order_missing
pay_for gateway payment_id (some o) = of_payment (initiate_card_payment gateway payment_id o)

-- `_initiate_card_payment`: the order that was committed is loaded again by its number.
unfoldable pub initiate_order_payment : Gateway → ℕ → OrderNumber → CheckoutAction String
unfolding get_order_by_number initiate_card_payment
initiate_order_payment gateway payment_id number = do
  found ← gets (λ db. get_order_by_number number db.orders)
  pay_for gateway payment_id found

-- An order with the address of its payment page, if it is paid by card.
abbrev pub Placed : Type 0
Placed = Order × Option String

abbrev pub pay_by : Gateway → ℕ → PaymentMethod → Order → CheckoutAction Placed
pay_by gateway payment_id cod o = pure (o, none)
pay_by gateway payment_id card o = do
  page ← initiate_order_payment gateway payment_id o.number
  pure (o, some page)

-- The order is committed before its payment is started, and stays where that fails.
unfoldable pub checkout : Shop → Gateway → ℕ → FreshOrder → CheckoutRequest → CheckoutAction Placed
unfolding load_cart_lines resolve_delivery_snapshot resolve_discount quote_from_lines validate
    persist_order initiate_order_payment
checkout shop gateway payment_id f q = do
  loaded ← gets (load_cart_lines shop q.user_id q.session_token q.lang)
  (cart, lines) ← lift loaded
  lift (validate shop.settings q.choice)
  resolved ← gets (recipient_of q)
  recipient ← lift resolved
  discounted ← gets (resolve_discount lines q.promo_code q.now)
  discount ← lift discounted
  totals ← lift (quote_from_lines shop.settings shop.quote lines q.choice discount)
  order ← persist_order f (order_request shop q cart.id recipient discount totals) lines
  pay_by gateway payment_id q.payment_method order

pub record QuickBuy : Type 0 where
  pub product_id : ℕ
  pub phone : String
  pub name : Option String
  pub email : Option String
  pub qty : ℕ
  pub lang : Option String
  pub variant_id : Option ℕ

-- The variant that is bought: required for a product with variants, refused for any other.
abbrev pub active_variant :
    Product → Option ProductVariant → Result CheckoutError (Option ProductVariant)
active_variant p none = err (product_not_found p.id)
active_variant p (some v) =
    if not (v.product_id == p.id) || not v.is_active
    then err (product_not_found p.id)
    else ok (some v)

abbrev pub required_variant : Product → Option ℕ → Db → Result CheckoutError (Option ProductVariant)
required_variant p none db = err (product_not_found p.id)
required_variant p (some id) db = active_variant p (find variant_key id db.stock.variants)

unfoldable pub resolve_variant :
    Product → Option ℕ → Db → Result CheckoutError (Option ProductVariant)
resolve_variant p variant_id db =
    if p.has_variants
    then required_variant p variant_id db
    else if is_some variant_id
    then err (product_not_found p.id)
    else ok none

abbrev pub if_active : Option Product → Option Product
if_active none = none
if_active (some p) = if p.is_active then some p else none

abbrev pub active_product : ℕ → Db → Option Product
active_product id db = if_active (find product_key id db.stock.products)

abbrev pub id_of : Option ProductVariant → Option ℕ
id_of none = none
id_of (some v) = some v.id

abbrev pub quick_line :
    Shop → QuickBuy → Product → Option ProductVariant → Option String → PricedLine
quick_line shop q p v name = record {
  product_id = p.id;
  variant_id = id_of v;
  name = labelled (text_or name p.code) (label_of shop (id_of v) (normalize_lang shop q.lang));
  price = unit_price v p;
  qty = q.qty;
  weight_g = effective_weight shop.settings none;
}

abbrev pub own_pickup : DeliveryChoice
own_pickup = record {
  service = own;
  delivery_type = pickup;
  address_id = none;
  address = none;
  settlement_id = none;
  division_id = none;
  np_address = none;
  np_recipient_name = none;
}

-- `placeholder` derives an address from the digits of a phone (`_placeholder_email`).
unfoldable pub quick_buy : Shop → (String → String) → FreshOrder → QuickBuy → CheckoutAction Order
unfolding normalize_lang localized_name resolve_variant quote_from_lines persist_order
quick_buy shop placeholder f q = do
  found ← gets (active_product q.product_id)
  product ← or_raise found (product_not_found q.product_id)
  name ← gets (localized_name product.id (normalize_lang shop q.lang))
  resolved ← gets (resolve_variant product q.variant_id)
  variant ← lift resolved
  raise_if (ltb (available variant product) q.qty) (out_of_stock product.id)
  let line = quick_line shop q product variant name
  totals ← lift (quote_from_lines shop.settings shop.quote (line ∷ []) own_pickup 0)
  persist_order f
      (record {
        user_id = none;
        email = text_or (truthy q.email) (placeholder q.phone);
        phone = q.phone;
        totals = totals;
        delivery_type = pickup;
        delivery_address_id = none;
        recipient = record { name = q.name; city = none; street = none; zip = none };
        promo_code = none;
        cart_id = none;
        payment_method = cod;
        choice = none;
        np_snapshot = none;
      })
      (line ∷ [])
