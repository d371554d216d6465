-- ===== src/Checkout/Place.antt =====
-- Writing an order: `_persist_order` of app/services/checkout_service.py, with `add_order`,
-- `add_order_item` and `mark_cart_converted` of app/repositories/order_repo.py.
use store_evix.Common.{
  ℕ, ◌*◌, Option, none, some, List, [], ◌∷◌, ◌++◌, map, String, sum_of, if◌then◌else◌, ltb,
}
use store_evix.Common.Table.{modify}
use store_evix.Common.Session.{Action, pure, raise, gets, write, commit, rollback, ◌>>=◌, ◌>>◌}
use store_evix.Models.Order.{
  new, pending, DeliveryType, DeliveryService, own, PaymentMethod, OrderNumber, Order, OrderItem,
  blank, fulfilment, payment, OrderDeliveryNovaPost,
}
use store_evix.Models.Cart.{Cart, converted}
use store_evix.Models.Db.{Db}
use store_evix.Stock.{Take, Taken, taken, out_of_stock as short, take_all}
use store_evix.Order.{add_history}
use store_evix.Checkout.Choice.{
  CheckoutError, out_of_stock, DeliveryChoice, is_carrier, PricedLine, Totals,
}
use store_evix.Checkout.Lines.{CarrierSnapshot}

abbrev pub CheckoutAction : Type 0 → Type 0
CheckoutAction = Action Db CheckoutError

-- The primary key and the number that the sequences hand out to a new order.
pub record FreshOrder : Type 0 where
  pub id : ℕ
  pub number : OrderNumber

-- `(name, city, street, zip)`
pub record Recipient : Type 0 where
  pub name : Option String
  pub city : Option String
  pub street : Option String
  pub zip : Option String

abbrev pub empty_recipient : Recipient
empty_recipient = record { name = none; city = none; street = none; zip = none }

-- Everything that `_persist_order` is called with, besides the lines.
pub record OrderRequest : Type 0 where
  pub user_id : Option ℕ
  pub email : String
  pub phone : String
  pub totals : Totals
  pub delivery_type : DeliveryType
  pub delivery_address_id : Option ℕ
  pub recipient : Recipient
  pub promo_code : Option String
  pub cart_id : Option ℕ
  pub payment_method : PaymentMethod
  pub choice : Option DeliveryChoice
  pub np_snapshot : Option CarrierSnapshot

abbrev pub service_of : Option DeliveryChoice → DeliveryService
service_of none = own
service_of (some c) = c.service

abbrev pub new_order : FreshOrder → OrderRequest → Order
new_order f r = record {
  id = f.id;
  number = f.number;
  user_id = r.user_id;
  email = r.email;
  phone = r.phone;
  status = new;
  payment_status = pending;
  subtotal = r.totals.subtotal;
  discount_total = r.totals.discount_total;
  delivery_cost = r.totals.delivery_cost;
  total = r.totals.total;
  delivery_type = r.delivery_type;
  delivery_service = service_of r.choice;
  delivery_address_id = r.delivery_address_id;
  delivery_name = r.recipient.name;
  delivery_city = r.recipient.city;
  delivery_street = r.recipient.street;
  delivery_zip = r.recipient.zip;
  payment_method = r.payment_method;
  promo_code = r.promo_code;
}

-- A name that was not resolved is stored as the empty text.
abbrev pub blank_snapshot : DeliveryChoice → CarrierSnapshot
blank_snapshot c = record {
  settlement_id = c.settlement_id;
  settlement_name = "";
  settlement_name_ru = "";
  division_id = c.division_id;
  division_number = "";
  division_address = "";
}

abbrev pub no_snapshot : CarrierSnapshot
no_snapshot = record {
  settlement_id = none;
  settlement_name = "";
  settlement_name_ru = "";
  division_id = none;
  division_number = "";
  division_address = "";
}

abbrev pub snapshot_or : Option CarrierSnapshot → CarrierSnapshot → CarrierSnapshot
snapshot_or none d = d
snapshot_or (some s) d = s

-- What the carrier quoted: nothing where a threshold made the delivery free.
abbrev pub calculated : ℕ → Option ℕ
calculated cost = if ltb 0 cost then some cost else none

abbrev pub carrier_row :
    FreshOrder → OrderRequest → DeliveryChoice → List PricedLine → OrderDeliveryNovaPost
carrier_row f r c lines =
    let snap = snapshot_or r.np_snapshot no_snapshot in
    record {
      order_id = f.id;
      settlement_id = snap.settlement_id;
      settlement_name = snap.settlement_name;
      settlement_name_ru = snap.settlement_name_ru;
      division_id = snap.division_id;
      division_number = snap.division_number;
      division_address = snap.division_address;
      address_parts = c.np_address;
      calculated_cost = calculated r.totals.delivery_cost;
      parcel_weight_g = some (sum_of (λ l. l.weight_g * l.qty) lines);
      awb_id = none;
      awb_number = none;
      status_code = "";
      status_text = "";
      status_updated_at = none;
    }

abbrev pub carrier_rows :
    FreshOrder → OrderRequest → Option DeliveryChoice → List PricedLine → List OrderDeliveryNovaPost
carrier_rows f r none lines = []
carrier_rows f r (some c) lines = if is_carrier c.service then carrier_row f r c lines ∷ [] else []

abbrev pub order_item : ℕ → PricedLine → OrderItem
order_item order_id l = record {
  order_id = order_id;
  product_id = some l.product_id;
  variant_id = l.variant_id;
  name_snapshot = l.name;
  price_snapshot = l.price;
  qty = l.qty;
}

abbrev pub cart_key : Cart → ℕ
cart_key c = c.id

abbrev pub mark_cart_converted : Option ℕ → Db → Db
mark_cart_converted none db = db
mark_cart_converted (some cart_id) db = record db {
  carts = modify cart_key cart_id (λ c. record c { status = converted }) db.carts;
}

abbrev pub stage_order : FreshOrder → OrderRequest → List PricedLine → Db → Db
stage_order f r lines db = record db {
  orders = db.orders ++ new_order f r ∷ [];
  carriers = db.carriers ++ carrier_rows f r r.choice lines;
  order_items = db.order_items ++ map (order_item f.id) lines;
}

abbrev pub initial_history : ℕ → Db → Db
initial_history order_id db =
    add_history
      (record {
        order_id = order_id;
        from_status = blank;
        to_status = payment pending;
        changed_by = "system";
      })
      (add_history
        (record {
          order_id = order_id;
          from_status = blank;
          to_status = fulfilment new;
          changed_by = "system";
        })
        db)

abbrev pub take_of : PricedLine → Take
take_of l = record { product_id = l.product_id; variant_id = l.variant_id; qty = l.qty }

abbrev pub finish : Taken → CheckoutAction (Unit {0})
finish (taken stock) = do write (λ db. record db { stock = stock }); commit
finish (short product_id) = do rollback; raise (out_of_stock product_id)

-- The order, its lines, the cart and the audit rows are staged; the stock is taken last, and only
-- then is it all committed. A line that finds too little rolls everything back.
unfoldable pub persist_order : FreshOrder → OrderRequest → List PricedLine → CheckoutAction Order
unfolding take_all
persist_order f r lines = do
  write (stage_order f r lines)
  write (mark_cart_converted r.cart_id)
  write (initial_history f.id)
  before ← gets (λ db. db.stock)
  finish (take_all (map take_of lines) before)
  pure (new_order f r)
