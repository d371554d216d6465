-- ===== src/Payment/Settling.antt =====
-- How one payment is settled: `_apply_paid` and `_apply_failed` of
-- app/services/payment/payment_service.py.
use store_evix.Common.{
  ℕ, ◌≡◌, refl, ap, Bool, true, false, Option, none, some, List, [], ◌∷◌, String, arith, is_some,
}
use store_evix.Common.Table.{modify}
use store_evix.Common.Session.{Result, ok, err, run_request}
use store_evix.Models.Order.{
  OrderStatus, new, confirmed, done, canceled, PaymentStatus, paid, refunded, Order,
}
use store_evix.Models.Payment.{PaymentState, Payment}
use store_evix.Models.Db.{Db}
use store_evix.Order.{
  waybill_cancel_failed, Surroundings, transition, get_novapost, waybill_of, cancel_waybill_if_any,
  stock_return,
}
use store_evix.Payment.Defs.{
  PaymentError, order_refused, payment_key, is_terminal, get_by_pay_id, set_payment, mark,
  apply_paid, apply_failed, is_open,
}

-- The payment with this id has reached a final state.
abbrev pub IsSettled : String → List Payment → Type 0
IsSettled id payments =
    (p : Payment) × (get_by_pay_id id payments ≡ some p) × (is_terminal p.status ≡ true)

abbrev pub HasWaybill : Order → Db → Type 0
HasWaybill o db = is_some (waybill_of (get_novapost o.id db.carriers)) ≡ true

-- Settling one order: the payment is final afterwards, or the order has a waybill, which cannot be
-- canceled here, and nothing is changed.
abbrev pub Settles : String → Order → Db → Result PaymentError Bool × Db → Type 0
Settles id o db (ok true, db') = IsSettled id db'.payments
Settles id o db (ok false, db') = ⊥
Settles id o db (err (order_refused waybill_cancel_failed), db') = (db' ≡ db) × HasWaybill o db
Settles id o db (err _, db') = ⊥

pub get_by_pay_id-modify :
    (id : String) (k : ℕ) (s : PaymentState) (ps : List Payment) (p : Payment)
    → get_by_pay_id id ps ≡ some p
    → p.id ≡ k
    → get_by_pay_id id (modify payment_key k (mark s) ps) ≡ some (mark s p)
unfolding get_by_pay_id
get_by_pay_id-modify id k s [] p e same = cc
get_by_pay_id-modify id k s (q ∷ ps) p e same = ground (arith, get_by_pay_id-modify id k s ps p)

module _ (id : String) (env : Surroundings) (p : Payment) (db : Db)
    (found : get_by_pay_id id db.payments ≡ some p) where
  abbrev marked : PaymentState → Db
  marked s = set_payment p.id (mark s) db

  settled : (s : PaymentState) → is_terminal s ≡ true → IsSettled id (marked s).payments
  settled s final = (mark s p, get_by_pay_id-modify id p.id s db.payments p found refl, final)

  pub apply_paid-Settles :
      (x : PaymentStatus) (o : Order)
      → let o' = record o { payment_status = x } in
        Settles id o' db (run_request (apply_paid env o' p) db)
  unfolding apply_paid transition
  apply_paid-Settles PaymentStatus.pending o = settled PaymentState.ok refl
  apply_paid-Settles paid o = settled PaymentState.ok refl
  apply_paid-Settles refunded o = settled PaymentState.ok refl

  -- The failed payment of an open order whose waybill row reads `w`.
  abbrev pub Canceled : OrderStatus → Order → Bool → Option String → Type 0
  Canceled x o runs w =
      waybill_of (get_novapost o.id db.carriers) ≡ w
      → let o' = record o { status = x } in
        Settles id o' db (run_request (apply_failed (record env { effect_runs = runs }) o' p) db)

  -- A waybill stops the cancel, whatever it is.
  Canceled-new-waybill : (o : Order) (runs : Bool) (w : String) → Canceled new o runs (some w)
  unfolding apply_failed transition cancel_waybill_if_any
  Canceled-new-waybill o runs w e = rw e (refl, ap is_some e)

  Canceled-confirmed-waybill :
      (o : Order) (runs : Bool) (w : String) → Canceled confirmed o runs (some w)
  unfolding apply_failed transition cancel_waybill_if_any
  Canceled-confirmed-waybill o runs w e = rw e (refl, ap is_some e)

  Canceled-new : (o : Order) (runs : Bool) → Canceled new o runs none
  unfolding apply_failed transition cancel_waybill_if_any stock_return
  Canceled-new o true e = rw e (settled PaymentState.failed refl)
  Canceled-new o false e = rw e (settled PaymentState.failed refl)

  Canceled-confirmed : (o : Order) (runs : Bool) → Canceled confirmed o runs none
  unfolding apply_failed transition cancel_waybill_if_any stock_return
  Canceled-confirmed o true e = rw e (settled PaymentState.failed refl)
  Canceled-confirmed o false e = rw e (settled PaymentState.failed refl)

  pub apply_failed-Canceled :
      (x : OrderStatus) (o : Order) (runs : Bool) (w : Option String) → Canceled x o runs w
  unfolding apply_failed
  apply_failed-Canceled new o runs none = Canceled-new o runs
  apply_failed-Canceled new o runs (some w) = Canceled-new-waybill o runs w
  apply_failed-Canceled confirmed o runs none = Canceled-confirmed o runs
  apply_failed-Canceled confirmed o runs (some w) = Canceled-confirmed-waybill o runs w
  apply_failed-Canceled done o runs w = λ e. settled PaymentState.failed refl
  apply_failed-Canceled canceled o runs w = λ e. settled PaymentState.failed refl

-- An open order with a waybill.
pub stuck_run :
    (env : Surroundings) (p : Payment) (o : Order) (db : Db) (x : OrderStatus) (w : String)
    → is_open x ≡ true
    → waybill_of (get_novapost o.id db.carriers) ≡ some w
    → run_request (apply_failed env (record o { status = x }) p) db
      ≡ (err (order_refused waybill_cancel_failed), db)
unfolding apply_failed transition cancel_waybill_if_any
stuck_run env p o db new w h e = rw e refl
stuck_run env p o db confirmed w h e = rw e refl
stuck_run env p o db done w h e = cc
stuck_run env p o db canceled w h e = cc
