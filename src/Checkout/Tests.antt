-- ===== src/Checkout/Tests.antt =====
-- The properties of checkout on the guest's cart of the small shop.
use store_evix.Common.{◌≡◌, refl, ◌↔◌, true, none, some, List, [], ◌∷◌, arith}
use store_evix.Common.Int.{pos}
use store_evix.Common.Session.{ok, run_request}
use store_evix.Models.Order.{canceled, courier, branch, own, novapost, cod, card}
use store_evix.Stock.{take_all, decrement_stock, return_all, increment_stock}
use store_evix.Models.Db.{Db}
use store_evix.Stock.Rows.{variant, on_hand}
use store_evix.Stock.Demand.{IsPositive}
use store_evix.Order.{
  Surroundings, transition, cancel_waybill_if_any, stock_return, get_items_for_order,
}
use store_evix.Payment.{Gateway}
use store_evix.Checkout.Undo.{IsFresh, transition-persist_order}
use store_evix.Fixtures.{guest_cart, shop_db}
use store_evix.Checkout.Choice.{
  Settings, DeliveryAddress, DeliveryChoice, PricedLine, Totals, validate, quote_from_lines,
}
use store_evix.Checkout.Lines.{
  Shop, normalize_lang, get_active_cart, sort_items, cart_rows, translation, localized_name,
  list_cart_lines, price_lines, load_cart_lines,
}
use store_evix.Checkout.Place.{FreshOrder, OrderRequest, empty_recipient, new_order, persist_order}
use store_evix.Checkout.Service.{CheckoutRequest, quote, checkout}
use store_evix.Checkout.Totals.{Quoted, quote_from_lines-Quoted}
use store_evix.Checkout.Methods.{IsOffered, validate_iff}
use store_evix.Checkout.Sellable.{IsPositiveCart}
use store_evix.Checkout.Loading.{Loaded, load_cart_lines-Loaded}
use store_evix.Checkout.Persist.{takes, Persisted, persist_order-Persisted}
use store_evix.Checkout.Agree.{Agrees, checkout-Agrees}

abbrev settings : Settings
settings = record {
  courier_rate = 5000;
  free_delivery_from = some 50_000;
  novapost_enabled = true;
  novapost_free_delivery_from = none;
  parcel_default_item_weight_g = 500;
}

abbrev shop : Shop
shop = record {
  settings = settings;
  quote = λ c ws. some 7000;
  destination = λ c. none;
  option_label = λ id lang. some "red";
  strip = λ s. s;
  lower = λ s. s;
}

abbrev home : DeliveryAddress
home = record { full_name = "Ana"; city = "Balti"; street = "Dacia 45"; zip = none }

abbrev by_courier : DeliveryChoice
by_courier = record {
  service = own;
  delivery_type = courier;
  address_id = none;
  address = some home;
  settlement_id = none;
  division_id = none;
  np_address = none;
  np_recipient_name = none;
}

abbrev to_branch : DeliveryChoice
to_branch = record by_courier {
  service = novapost;
  delivery_type = branch;
  address = none;
  division_id = some "d2";
  np_recipient_name = some "Ana";
}

abbrev two_kettles : PricedLine
two_kettles = record {
  product_id = 1;
  variant_id = none;
  name = "Ceainic";
  price = 12_550;
  qty = 2;
  weight_g = 900;
}

abbrev one_shirt : PricedLine
one_shirt = record {
  product_id = 2;
  variant_id = some 7;
  name = "SHI (red)";
  price = 20_000;
  qty = 1;
  weight_g = 500;
}

abbrev cart_lines : List PricedLine
cart_lines = two_kettles ∷ one_shirt ∷ []

cart_loads : load_cart_lines shop none (some 77) (some "ru") shop_db ≡ ok (guest_cart, cart_lines)
unfolding load_cart_lines normalize_lang get_active_cart sort_items cart_rows translation
    localized_name list_cart_lines price_lines
cart_loads = refl

shop_db-IsPositiveCart : IsPositiveCart shop_db.cart_items
shop_db-IsPositiveCart = (omega arith, (omega arith, tt))

load_cart_lines-Loaded_example : Loaded none (some 77) shop_db guest_cart cart_lines
load_cart_lines-Loaded_example =
    load_cart_lines-Loaded shop none (some 77) (some "ru") shop_db guest_cart cart_lines
      shop_db-IsPositiveCart cart_loads

quote_from_lines-Quoted_example :
    Quoted settings shop.quote cart_lines to_branch 1300
      (quote_from_lines settings shop.quote cart_lines to_branch 1300)
quote_from_lines-Quoted_example =
    quote_from_lines-Quoted settings shop.quote cart_lines 1300 to_branch

validate_iff_example :
    (validate settings to_branch ≡ ok tt) ↔ IsOffered settings to_branch novapost branch
validate_iff_example = validate_iff settings to_branch

abbrev fresh : FreshOrder
fresh = record { id = 10; number = record { day = 20_260_102; seq = 2 } }

abbrev totals : Totals
totals = record {
  subtotal = 45_100;
  discount_total = 0;
  delivery_cost = 5000;
  total = pos 50_100;
  delivery_type = courier;
  delivery_service = own;
  item_count = 3;
}

abbrev order_of_cart : OrderRequest
order_of_cart = record {
  user_id = none;
  email = "a@b.md";
  phone = "060";
  totals = totals;
  delivery_type = courier;
  delivery_address_id = none;
  recipient = empty_recipient;
  promo_code = none;
  cart_id = some 4;
  payment_method = cod;
  choice = some by_courier;
  np_snapshot = none;
}

cart_lines-IsPositive : IsPositive (takes cart_lines)
cart_lines-IsPositive = (omega arith, (omega arith, tt))

persist_order-Persisted_example :
    Persisted fresh order_of_cart cart_lines shop_db
      (run_request (persist_order fresh order_of_cart cart_lines) shop_db)
persist_order-Persisted_example =
    persist_order-Persisted fresh order_of_cart cart_lines shop_db cart_lines-IsPositive

abbrev asked : CheckoutRequest
asked = record {
  user_id = none;
  session_token = some 77;
  email = "a@b.md";
  phone = "060";
  choice = by_courier;
  promo_code = some "TEN";
  payment_method = cod;
  lang = some "ro";
  now = 50;
}

-- A provider that is down.
abbrev gateway : Gateway
gateway = record {
  enabled = true;
  currency = "MDL";
  create_payment = λ o. none;
  refunds = λ id amount. true;
  verifies = λ c. true;
  upper = λ s. s;
}

abbrev by_card : CheckoutRequest
by_card = record asked { payment_method = card }

checkout-Agrees_example :
    Agrees card shop_db
      (run_request (quote shop by_card) shop_db).0
      (run_request (checkout shop gateway 5 fresh by_card) shop_db)
checkout-Agrees_example =
    checkout-Agrees shop gateway 5 fresh by_card shop_db shop_db-IsPositiveCart

abbrev carrier_on : Surroundings
carrier_on = record {
  integration = true;
  cancels_shipment = λ _. true;
  effect_runs = true;
  lines_before_failure = 0;
}

abbrev placed : Db
placed = (run_request (persist_order fresh order_of_cart cart_lines) shop_db).1

is_placed :
    run_request (persist_order fresh order_of_cart cart_lines) shop_db
    ≡ (ok (new_order fresh order_of_cart), placed)
unfolding persist_order take_all decrement_stock
is_placed = refl

abbrev canceled_cart : Db
canceled_cart =
    (run_request
      (transition carrier_on (new_order fresh order_of_cart) (some canceled) none "admin") placed).1

is_canceled :
    run_request
      (transition carrier_on (new_order fresh order_of_cart) (some canceled) none "admin")
      placed
    ≡ (ok [], canceled_cart)
unfolding persist_order take_all decrement_stock transition cancel_waybill_if_any stock_return
    get_items_for_order return_all increment_stock
is_canceled = refl

new_key-IsFresh : IsFresh 10 shop_db
new_key-IsFresh =
    (((λ e. omega (arith, e)), tt), ((λ e. omega (arith, e)), ((λ e. omega (arith, e)), tt)))

transition-persist_order_example :
    on_hand canceled_cart.stock (variant 7) ≡ on_hand shop_db.stock (variant 7)
transition-persist_order_example =
    transition-persist_order carrier_on fresh order_of_cart cart_lines none "admin" shop_db placed
      (new_order fresh order_of_cart) new_key-IsFresh canceled_cart [] cart_lines-IsPositive
      is_placed refl is_canceled (variant 7)
