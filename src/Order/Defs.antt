-- ===== src/Order/Defs.antt =====
-- The operations of the order service.
use store_evix.Common.{
  take, ℕ, Bool, true, false, not, ◌&&◌, Option, none, some, List, [], ◌∷◌, ◌++◌, String,
  select_where, if◌then◌else◌, ◌==◌, str_eq,
}
use store_evix.Common.Table.{find, modify}
use store_evix.Common.Session.{Action, pure, gets, or_raise, raise_if, write, commit, ◌>>=◌, ◌>>◌}
use store_evix.Models.Order.{
  OrderStatus, new, confirmed, done, canceled, PaymentStatus, pending, paid, refunded, OrderNumber,
  Order, OrderItem, fulfilment, payment, OrderStatusHistory, OrderDeliveryNovaPost,
}
use store_evix.Models.Db.{Db}
use store_evix.Stock.{return_all}

-- The leaves of the class OrderError.
pub data OrderError : Type 0 where
  illegal_transition waybill_cancel_failed order_not_found : OrderError

-- `STATUS_TRANSITIONS`
abbrev pub status_transition : OrderStatus → OrderStatus → Bool
status_transition new confirmed = true
status_transition new canceled = true
status_transition confirmed done = true
status_transition confirmed canceled = true
status_transition _ _ = false

-- `PAYMENT_TRANSITIONS`
abbrev pub payment_transition : PaymentStatus → PaymentStatus → Bool
payment_transition pending paid = true
payment_transition paid refunded = true
payment_transition _ _ = false

-- `_validate`: no target is always valid.
abbrev pub move_allowed : {A : Type 0} → (A → A → Bool) → A → Option A → Bool
move_allowed table current none = true
move_allowed table current (some target) = table current target

-- `to_status in _STOCK_RETURNING_STATUSES`
abbrev pub returns_stock : Option OrderStatus → Bool
returns_stock (some canceled) = true
returns_stock _ = false

abbrev pub order_key : Order → ℕ
order_key o = o.id

abbrev pub carrier_key : OrderDeliveryNovaPost → ℕ
carrier_key r = r.order_id

-- What the service needs of its surroundings: whether Redis is bound and the integration on, which
-- shipments the carrier agrees to cancel, whether the statements after the commit get through, and
-- how many lines those had given back where they do not.
pub record Surroundings : Type 0 where
  pub integration : Bool
  pub cancels_shipment : String → Bool
  pub effect_runs : Bool
  pub lines_before_failure : ℕ

abbrev pub OrderAction : Type 0 → Type 0
OrderAction = Action Db OrderError

-- Python's truth of a text that may be missing.
abbrev pub truthy : Option String → Option String
truthy none = none
truthy (some s) = if str_eq s "" then none else some s

abbrev pub either_text : Option String → String → String
either_text none t = t
either_text (some s) t = s

unfoldable pub get_items_for_order : ℕ → List OrderItem → List OrderItem
get_items_for_order order_id items = select_where (λ i. i.order_id == order_id) items

abbrev pub get_novapost : ℕ → List OrderDeliveryNovaPost → Option OrderDeliveryNovaPost
get_novapost = find carrier_key

-- The carrier row with its waybill cleared.
abbrev pub clear_waybill : OrderDeliveryNovaPost → OrderDeliveryNovaPost
clear_waybill r = record r {
  awb_id = none;
  awb_number = none;
  status_code = "";
  status_text = "";
  status_updated_at = none;
}

abbrev pub cleared_waybill : ℕ → Db → Db
cleared_waybill order_id db = record db {
  carriers = modify carrier_key order_id clear_waybill db.carriers;
}

-- The waybill of a carrier row: its number, and the id by which the carrier cancels it.
abbrev pub waybill_of : Option OrderDeliveryNovaPost → Option String
waybill_of none = none
waybill_of (some r) = elim (truthy r.awb_number) [
  | none ↦ none
  | some number ↦ some (either_text (truthy r.awb_id) number)
]

abbrev pub cancel_refused : Surroundings → Option String → Bool
cancel_refused env none = false
cancel_refused env (some shipment) = not (env.integration && env.cancels_shipment shipment)

abbrev pub drop_waybill : ℕ → Option String → Db → Db
drop_waybill order_id none db = db
drop_waybill order_id (some shipment) db = cleared_waybill order_id db

unfoldable pub cancel_waybill_if_any : Surroundings → ℕ → OrderAction (Unit {0})
cancel_waybill_if_any env order_id = do
  waybill ← gets (λ db. waybill_of (get_novapost order_id db.carriers))
  raise_if (cancel_refused env waybill) waybill_cancel_failed
  write (drop_waybill order_id waybill)

abbrev pub add_history : OrderStatusHistory → Db → Db
add_history h db = record db { history = db.history ++ h ∷ [] }

abbrev pub set_status : ℕ → OrderStatus → Db → Db
set_status id s db = record db {
  orders = modify order_key id (λ o. record o { status = s }) db.orders;
}

abbrev pub set_payment_status : ℕ → PaymentStatus → Db → Db
set_payment_status id s db = record db {
  orders = modify order_key id (λ o. record o { payment_status = s }) db.orders;
}

-- The audit row and the new value of one axis, where one is asked for.
abbrev pub move_status : Order → Option OrderStatus → String → Db → Db
move_status o none by db = db
move_status o (some s) by db = set_status o.id s (
    add_history
      (record {
        order_id = o.id;
        from_status = fulfilment o.status;
        to_status = fulfilment s;
        changed_by = by;
      })
      db)

abbrev pub move_payment : Order → Option PaymentStatus → String → Db → Db
move_payment o none by db = db
move_payment o (some s) by db = set_payment_status o.id s (
    add_history
      (record {
        order_id = o.id;
        from_status = payment o.payment_status;
        to_status = payment s;
        changed_by = by;
      })
      db)

-- What the stock return leaves, when its statements get through and when they do not.
abbrev pub given_back : Bool → ℕ → Db → Db
given_back true id db = record db {
  stock = (return_all (get_items_for_order id db.order_items) db.stock).0;
}
given_back false id db = db

-- The tasks that are enqueued are not taken back by a failure: those of the lines before it stay.
abbrev pub notices : Bool → ℕ → ℕ → Db → List ℕ
notices true reached id db = (return_all (get_items_for_order id db.order_items) db.stock).1
notices false reached id db =
    (return_all (take reached (get_items_for_order id db.order_items)) db.stock).1

-- `_make_stock_return`: the lines' quantities go back, and the products that came back from zero
-- are notified for. Its exceptions are swallowed: what it wrote is then not committed.
unfoldable pub stock_return : Surroundings → ℕ → OrderAction (List ℕ)
stock_return env order_id = do
  notified ← gets (notices env.effect_runs env.lines_before_failure order_id)
  write (given_back env.effect_runs order_id)
  commit
  pure notified

abbrev pub when : {A : Type 0} → Bool → OrderAction A → A → OrderAction A
when true m a = m
when false m a = pure a

-- `transition`, on an order that was loaded from the session. The result is the list of products
-- whose restock notification is enqueued.
unfoldable pub transition :
    Surroundings → Order → Option OrderStatus → Option PaymentStatus → String → OrderAction (List ℕ)
transition env order to_status to_payment_status changed_by = do
  raise_if (not (move_allowed status_transition order.status to_status)) illegal_transition
  raise_if (not (move_allowed payment_transition order.payment_status to_payment_status))
      illegal_transition
  when (returns_stock to_status) (cancel_waybill_if_any env order.id) tt
  write (move_status order to_status changed_by)
  write (move_payment order to_payment_status changed_by)
  commit
  when (returns_stock to_status) (stock_return env order.id) []

abbrev pub number_eq : OrderNumber → OrderNumber → Bool
number_eq a b = a.day == b.day && a.seq == b.seq

unfoldable pub get_order_by_number : OrderNumber → List Order → Option Order
get_order_by_number n [] = none
get_order_by_number n (o ∷ os) = if number_eq o.number n then some o else get_order_by_number n os

-- `AdminOrderService.transition`: the row is loaded by number, under a lock.
unfoldable pub admin_transition :
    Surroundings
    → OrderNumber
    → Option OrderStatus
    → Option PaymentStatus
    → String
    → OrderAction (List ℕ)
unfolding transition get_order_by_number
admin_transition env number to_status to_payment_status changed_by = do
  found ← gets (λ db. get_order_by_number number db.orders)
  order ← or_raise found order_not_found
  transition env order to_status to_payment_status changed_by
