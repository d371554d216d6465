-- ===== src/Checkout/Choice.antt =====
-- The delivery selection and the totals of a checkout: `_DeliveryChoice`, `_PricedLine`,
-- `_quote_from_lines` and its helpers in app/services/checkout_service.py.
use store_evix.Common.{
  ℕ, ◌+◌, ◌-◌, ◌*◌, Bool, true, false, not, ◌&&◌, ◌||◌, Option, none, some, List, map, String,
  sum_of, if◌then◌else◌, leb, is_some, ◌==◌,
}
use store_evix.Common.Int.{ℤ, sub_ℕ}
use store_evix.Common.Session.{Result, ok, err}
use store_evix.Models.Order.{
  DeliveryType, pickup, courier, branch, postomat, DeliveryService, own, novapost, NovaPostAddress,
}
use store_evix.Order.{truthy}
use store_evix.Promo.{PromoError}
use store_evix.Payment.{PaymentError}

-- The leaves of the class CheckoutError, the coupon and the payment errors that pass through, the
-- failure of `scalar_one_or_none` when a caller has two draft carts, and that of a payment for an
-- order that is not found.
pub data CheckoutError : Type 0 where
  empty_cart delivery_address_required delivery_address_forbidden : CheckoutError
  invalid_delivery_method carrier_disabled carrier_destination_required : CheckoutError
  carrier_recipient_required delivery_quote_unavailable : CheckoutError
  out_of_stock product_not_found : ℕ → CheckoutError
  promo_refused : PromoError → CheckoutError
  multiple_results_found : CheckoutError
  card_refused : PaymentError → CheckoutError
  order_missing : CheckoutError

-- The settings that checkout reads (app/core/config.py), amounts in cents.
pub record Settings : Type 0 where
  pub courier_rate : ℕ
  pub free_delivery_from : Option ℕ
  pub novapost_enabled : Bool
  pub novapost_free_delivery_from : Option ℕ
  pub parcel_default_item_weight_g : ℕ

pub record DeliveryAddress : Type 0 where
  pub full_name : String
  pub city : String
  pub street : String
  pub zip : Option String

pub record DeliveryChoice : Type 0 where
  pub service : DeliveryService
  pub delivery_type : DeliveryType
  pub address_id : Option ℕ
  pub address : Option DeliveryAddress
  pub settlement_id : Option String
  pub division_id : Option String
  pub np_address : Option NovaPostAddress
  pub np_recipient_name : Option String

abbrev pub is_carrier : DeliveryService → Bool
is_carrier own = false
is_carrier novapost = true

-- `_VALID_METHODS`
abbrev pub valid_method : DeliveryService → DeliveryType → Bool
valid_method own pickup = true
valid_method own courier = true
valid_method novapost branch = true
valid_method novapost postomat = true
valid_method novapost courier = true
valid_method _ _ = false

-- A destination that the carrier can use, by kind of delivery.
abbrev pub has_destination : DeliveryType → DeliveryChoice → Bool
has_destination branch c = is_some (truthy c.division_id)
has_destination postomat c = is_some (truthy c.division_id)
has_destination courier c = is_some (truthy c.settlement_id) && is_some c.np_address
has_destination pickup c = true

unfoldable pub validate : Settings → DeliveryChoice → Result CheckoutError (Unit {0})
validate settings c =
    if not (valid_method c.service c.delivery_type)
    then err invalid_delivery_method
    else if not (is_carrier c.service)
    then ok tt
    else if not settings.novapost_enabled
    then err carrier_disabled
    else if not (has_destination c.delivery_type c)
    then err carrier_destination_required
    else if not (is_some (truthy c.np_recipient_name))
    then err carrier_recipient_required
    else ok tt

pub record PricedLine : Type 0 where
  pub product_id : ℕ
  pub variant_id : Option ℕ
  pub name : String
  pub price : ℕ
  pub qty : ℕ
  pub weight_g : ℕ

-- `weight_g or default`: a missing weight and a weight of 0 take the default.
abbrev pub effective_weight : Settings → Option ℕ → ℕ
effective_weight settings none = settings.parcel_default_item_weight_g
effective_weight settings (some w) = if w == 0 then settings.parcel_default_item_weight_g else w

abbrev pub line_total : PricedLine → ℕ
line_total l = l.price * l.qty

abbrev pub subtotal_of : List PricedLine → ℕ
subtotal_of = sum_of line_total

-- `_delivery_cost`, for our own logistics.
abbrev pub reaches : Option ℕ → ℕ → Bool
reaches none payable = false
reaches (some threshold) payable = leb threshold payable

abbrev pub courier_cost : Settings → ℕ → Bool → Result CheckoutError ℕ
courier_cost settings payable has_address =
    if not has_address
    then err delivery_address_required
    else if reaches settings.free_delivery_from payable
    then ok 0
    else ok settings.courier_rate

unfoldable pub delivery_cost : Settings → ℕ → DeliveryType → Bool → Result CheckoutError ℕ
delivery_cost settings payable pickup has_address = ok 0
delivery_cost settings payable courier has_address = courier_cost settings payable has_address
delivery_cost settings payable branch has_address = courier_cost settings payable has_address
delivery_cost settings payable postomat has_address = courier_cost settings payable has_address

abbrev pub or_else : Option ℕ → Option ℕ → Option ℕ
or_else none other = other
or_else (some t) other = some t

-- `_free_delivery_threshold`
unfoldable pub free_delivery_threshold : Settings → DeliveryService → Option ℕ
free_delivery_threshold settings own = settings.free_delivery_from
free_delivery_threshold settings novapost =
    or_else settings.novapost_free_delivery_from settings.free_delivery_from

-- The carrier's price for the parcel of these weights, in cents; `none` is a NovaPostError, or that
-- Redis is not bound.
abbrev pub CarrierQuote : Type 0
CarrierQuote = DeliveryChoice → List ℕ → Option ℕ

abbrev pub priced_by_carrier : Option ℕ → Result CheckoutError ℕ
priced_by_carrier none = err delivery_quote_unavailable
priced_by_carrier (some cost) = ok cost

-- `_carrier_cost`
unfoldable pub carrier_cost :
    CarrierQuote → List PricedLine → DeliveryChoice → Result CheckoutError ℕ
carrier_cost quote lines c = priced_by_carrier (quote c (map (λ l. l.weight_g * l.qty) lines))

pub record Totals : Type 0 where
  pub subtotal : ℕ
  pub discount_total : ℕ
  pub delivery_cost : ℕ
  pub total : ℤ
  pub delivery_type : DeliveryType
  pub delivery_service : DeliveryService
  pub item_count : ℕ

abbrev pub shipping_cost :
    Settings → CarrierQuote → List PricedLine → DeliveryChoice → ℕ → Result CheckoutError ℕ
shipping_cost settings quote lines c payable =
    if is_carrier c.service
    then (if reaches (free_delivery_threshold settings c.service) payable
        then ok 0
        else carrier_cost quote lines c)
    else delivery_cost settings payable c.delivery_type (is_some c.address_id || is_some c.address)

abbrev pub totals_with : List PricedLine → DeliveryChoice → ℕ → ℕ → Totals
totals_with lines c discount cost = record {
  subtotal = subtotal_of lines;
  discount_total = discount;
  delivery_cost = cost;
  total = sub_ℕ (subtotal_of lines + cost) discount;
  delivery_type = c.delivery_type;
  delivery_service = c.service;
  item_count = sum_of (λ l. l.qty) lines;
}

abbrev pub with_cost :
    Result CheckoutError ℕ → List PricedLine → DeliveryChoice → ℕ → Result CheckoutError Totals
with_cost (ok cost) lines c discount = ok (totals_with lines c discount cost)
with_cost (err e) lines c discount = err e

-- The free-delivery threshold is measured against the subtotal less the discount, and not below 0.
unfoldable pub quote_from_lines :
    Settings → CarrierQuote → List PricedLine → DeliveryChoice → ℕ → Result CheckoutError Totals
unfolding delivery_cost carrier_cost free_delivery_threshold
quote_from_lines settings quote lines c discount =
    with_cost (shipping_cost settings quote lines c (subtotal_of lines - discount)) lines c discount
