-- ===== src/Order/Axes.antt =====
-- The two axes of an order, and its waybill, under the writes of one transition
-- (app/services/order_service.py).
use store_evix.Common.{
  ℕ, ◌≡◌, refl, sym, ◌∙◌, ◌≢◌, true, false, Option, none, some, List, [], ◌∷◌, ◌++◌, append_nil,
  append_assoc, String, arith,
}
use store_evix.Common.Table.{find, modify, find-modify}
use store_evix.Common.Session.{ok, err, Session}
use store_evix.Models.Order.{
  OrderStatus, PaymentStatus, Order, fulfilment, payment, OrderStatusHistory,
}
use store_evix.Models.Db.{Db}
use store_evix.Order.Defs.{
  waybill_cancel_failed, status_transition, payment_transition, move_allowed, order_key,
  carrier_key, Surroundings, get_novapost, clear_waybill, waybill_of, drop_waybill, move_status,
  move_payment, cancel_refused, cancel_waybill_if_any,
}

-- The value of an axis after a request.
abbrev pub target_or : {A : Type 0} → Option A → A → A
target_or none old = old
target_or (some value) old = value

abbrev pub moved : Option OrderStatus → Option PaymentStatus → Order → Order
moved s p o = record o {
  status = target_or s o.status;
  payment_status = target_or p o.payment_status;
}

abbrev pub IsLegal : Order → Option OrderStatus → Option PaymentStatus → Type 0
IsLegal o s p =
    (move_allowed status_transition o.status s ≡ true)
    × (move_allowed payment_transition o.payment_status p ≡ true)

abbrev pub waybill : Order → Db → Option String
waybill o db = waybill_of (get_novapost o.id db.carriers)

pub find-set_axis :
    (f : Order → Order) (j k : ℕ) (os : List Order)
    → ((r : Order) → (f r).id ≡ r.id)
    → k ≢ j
    → find order_key j (modify order_key k f os) ≡ find order_key j os
find-set_axis f j k os keep h = ground (arith, find-modify order_key j k f os keep)

pub rows_after :
    (o : Order) (s : Option OrderStatus) (p : Option PaymentStatus) (by : String) (db : Db)
    → find order_key o.id db.orders ≡ some o
    → find order_key o.id (move_payment o p by (move_status o s by db)).orders ≡ some (moved s p o)
rows_after o none none by db e = e
rows_after o (some s) none by db e =
    ground
      (arith, find-modify order_key o.id o.id (λ r. record r { status = s }) db.orders (λ r. refl))
rows_after o none (some p) by db e = ground (
  arith,
  find-modify order_key o.id o.id (λ r. record r { payment_status = p }) db.orders (λ r. refl),
)
rows_after o (some s) (some p) by db e = ground (
  arith,
  find-modify order_key o.id o.id (λ r. record r { status = s }) db.orders (λ r. refl),
  find-modify order_key o.id o.id (λ r. record r { payment_status = p })
      (modify order_key o.id (λ r. record r { status = s }) db.orders) (λ r. refl),
)

pub others_after :
    (o : Order) (s : Option OrderStatus) (p : Option PaymentStatus) (by : String) (db : Db) (j : ℕ)
    → o.id ≢ j
    → find order_key j (move_payment o p by (move_status o s by db)).orders
      ≡ find order_key j db.orders
others_after o none none by db j h = refl
others_after o (some s) none by db j h =
    find-set_axis (λ r. record r { status = s }) j o.id db.orders (λ r. refl) h
others_after o none (some p) by db j h =
    find-set_axis (λ r. record r { payment_status = p }) j o.id db.orders (λ r. refl) h
others_after o (some s) (some p) by db j h =
    find-set_axis (λ r. record r { payment_status = p }) j o.id
      (modify order_key o.id (λ r. record r { status = s }) db.orders) (λ r. refl) h
    ∙ find-set_axis (λ r. record r { status = s }) j o.id db.orders (λ r. refl) h

pub carriers_after :
    (o : Order) (s : Option OrderStatus) (p : Option PaymentStatus) (by : String) (db : Db)
    → (move_payment o p by (move_status o s by db)).carriers ≡ db.carriers
carriers_after o none none by db = refl
carriers_after o none (some p) by db = refl
carriers_after o (some s) none by db = refl
carriers_after o (some s) (some p) by db = refl

waybill-drop_case :
    (id : ℕ) (db : Db) (w : Option String)
    → waybill_of (get_novapost id db.carriers) ≡ w
    → waybill_of (get_novapost id (drop_waybill id w db).carriers) ≡ none
waybill-drop_case id db none e = e
waybill-drop_case id db (some w) e =
    ground (arith, find-modify carrier_key id id clear_waybill db.carriers (λ r. refl))

pub waybill-drop :
    (id : ℕ) (db : Db)
    → waybill_of
        (get_novapost id (drop_waybill id (waybill_of (get_novapost id db.carriers)) db).carriers)
      ≡ none
waybill-drop id db = waybill-drop_case id db (waybill_of (get_novapost id db.carriers)) refl

pub orders-drop : (id : ℕ) (w : Option String) (db : Db) → (drop_waybill id w db).orders ≡ db.orders
orders-drop id none db = refl
orders-drop id (some w) db = refl

pub cancel_waybill_refused :
    (env : Surroundings) (id : ℕ) (t : Session Db)
    → cancel_refused env (waybill_of (get_novapost id t.work.carriers)) ≡ true
    → cancel_waybill_if_any env id t ≡ (err waybill_cancel_failed, t)
unfolding cancel_waybill_if_any
cancel_waybill_refused env id t c = ground arith

pub cancel_waybill_dropped :
    (env : Surroundings) (id : ℕ) (t : Session Db)
    → cancel_refused env (waybill_of (get_novapost id t.work.carriers)) ≡ false
    → cancel_waybill_if_any env id t ≡ (
      ok tt,
      record t { work = drop_waybill id (waybill_of (get_novapost id t.work.carriers)) t.work },
    )
unfolding cancel_waybill_if_any
cancel_waybill_dropped env id t c = ground arith

abbrev pub start : Db → Session Db
start db = record { work = db; committed = db }

-- The audit rows of the moves that are asked for, the one of the status first.
abbrev pub status_trail : Order → Option OrderStatus → String → List OrderStatusHistory
status_trail o none by = []
status_trail o (some s) by =
    record {
      order_id = o.id;
      from_status = fulfilment o.status;
      to_status = fulfilment s;
      changed_by = by;
    }
    ∷ []

abbrev pub payment_trail : Order → Option PaymentStatus → String → List OrderStatusHistory
payment_trail o none by = []
payment_trail o (some p) by =
    record {
      order_id = o.id;
      from_status = payment o.payment_status;
      to_status = payment p;
      changed_by = by;
    }
    ∷ []

abbrev pub trail :
    Order → Option OrderStatus → Option PaymentStatus → String → List OrderStatusHistory
trail o s p by = status_trail o s by ++ payment_trail o p by

-- What a transition does to the stock, the lines and the audit trail, whatever waybill is dropped.
abbrev pub IsWritten : Order → Option OrderStatus → Option PaymentStatus → String → Db → Db → Type 0
IsWritten o s p by db db' =
    (db'.stock ≡ db.stock)
    × (db'.order_items ≡ db.order_items)
    × (db'.history ≡ db.history ++ trail o s p by)

pub after-IsWritten :
    (o : Order) (by : String) (db : Db) (s : Option OrderStatus) (p : Option PaymentStatus)
    (w : Option String)
    → IsWritten o s p by db (move_payment o p by (move_status o s by (drop_waybill o.id w db)))
after-IsWritten o by db none none none = (refl, refl, sym (append_nil db.history))
after-IsWritten o by db none none (some w) = (refl, refl, sym (append_nil db.history))
after-IsWritten o by db none (some p) none = (refl, refl, refl)
after-IsWritten o by db none (some p) (some w) = (refl, refl, refl)
after-IsWritten o by db (some s) none none = (refl, refl, refl)
after-IsWritten o by db (some s) none (some w) = (refl, refl, refl)
after-IsWritten o by db (some s) (some p) none = (refl, refl, append_assoc db.history _ _)
after-IsWritten o by db (some s) (some p) (some w) = (refl, refl, append_assoc db.history _ _)
