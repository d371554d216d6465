-- ===== src/Payment/Effects.antt =====
-- What an accepted callback has done to the payment, the order, its audit trail and the stock
-- (app/services/payment/payment_service.py).
use mathlib.Core.Path.{subst}
use store_evix.Common.{
  ◌≡◌, refl, sym, ap, ◌∙◌, inl, inr, Bool, true, false, none, some, [], ◌∷◌, ◌++◌, String, str_eq,
  select_where, ◌==◌, Bool-cases,
}
use store_evix.Common.Table.{find, find_key}
use store_evix.Common.Session.{Result, ok, run_request}
use store_evix.Models.Order.{
  OrderStatus, new, confirmed, done, canceled, PaymentStatus, paid, refunded, Order, fulfilment,
  payment,
}
use store_evix.Models.Payment.{PaymentState, Payment}
use store_evix.Models.Db.{Db}
use store_evix.Stock.Rows.{Sku, on_hand, plus}
use store_evix.Stock.Return.{returned, return_all-returned}
use store_evix.Order.{
  Surroundings, transition, get_novapost, waybill_of, cancel_waybill_if_any, move_status,
  move_payment, given_back, stock_return, order_key, get_items_for_order,
}
use store_evix.Order.Axes.{rows_after}
use store_evix.Payment.Defs.{
  PaymentError, Callback, Gateway, get_by_pay_id, set_payment, mark, apply_paid, apply_failed,
  is_open, handle_callback,
}
use store_evix.Payment.Settling.{get_by_pay_id-modify}
use store_evix.Payment.Callback.{IsDue, due_run}

-- A payment that came through: it is ok, its order paid, with an audit row, and the stock is as it was.
pub record CameThrough (id : String) (p : Payment) (o : Order) (db : Db) (db' : Db) : Type 0 where
  pub settled : get_by_pay_id id db'.payments ≡ some (record p { status = PaymentState.ok })
  pub order : find order_key o.id db'.orders ≡ some (record o { payment_status = paid })
  pub history :
      db'.history
      ≡ db.history
        ++ record {
          order_id = o.id;
          from_status = payment o.payment_status;
          to_status = payment paid;
          changed_by = "maib";
        }
          ∷ []
  pub stock : db'.stock ≡ db.stock

-- One that failed: the order is canceled, with an audit row, and its lines are back in stock.
pub record FellThrough (id : String) (p : Payment) (o : Order) (db : Db) (db' : Db) : Type 0 where
  pub settled : get_by_pay_id id db'.payments ≡ some (record p { status = PaymentState.failed })
  pub order : find order_key o.id db'.orders ≡ some (record o { status = canceled })
  pub history :
      db'.history
      ≡ db.history
        ++ record {
          order_id = o.id;
          from_status = fulfilment o.status;
          to_status = fulfilment canceled;
          changed_by = "maib";
        }
          ∷ []
  pub stock :
      (k : Sku)
      → on_hand db'.stock k
        ≡ plus
            (returned k (select_where (λ i. i.order_id == o.id) db.order_items))
            (on_hand db.stock k)

abbrev pub Settlement : Bool → String → Payment → Order → Db → Db → Type 0
Settlement true = CameThrough
Settlement false = FellThrough

paid_run :
    (env : Surroundings) (p : Payment) (o : Order) (db : Db) (x : PaymentStatus)
    → x ≡ PaymentStatus.pending
    → let o' = record o { payment_status = x } in
      run_request (apply_paid env o' p) db
      ≡ (ok true, move_payment o' (some paid) "maib" (set_payment p.id (mark PaymentState.ok) db))
unfolding apply_paid transition
paid_run env p o db PaymentStatus.pending e = refl
paid_run env p o db paid e = cc
paid_run env p o db refunded e = cc

failed_run :
    (env : Surroundings) (p : Payment) (o : Order) (db : Db) (x : OrderStatus) (runs : Bool)
    → is_open x ≡ true
    → runs ≡ true
    → waybill_of (get_novapost o.id db.carriers) ≡ none
    → let o' = record o { status = x } in
      run_request (apply_failed (record env { effect_runs = runs }) o' p) db ≡ (
        ok true,
        given_back true o.id (
            move_status o' (some canceled) "maib" (set_payment p.id (mark PaymentState.failed) db)),
      )
unfolding apply_failed transition cancel_waybill_if_any stock_return
failed_run env p o db new true h r w = rw w refl
failed_run env p o db confirmed true h r w = rw w refl
failed_run env p o db done true h r w = cc
failed_run env p o db canceled true h r w = cc
failed_run env p o db x false h r w = cc

module _ (gateway : Gateway) (env : Surroundings) (c : Callback) (db : Db) (id : String)
    (p : Payment) (o : Order) (due : IsDue gateway c db id p o) where
  abbrev marked : PaymentState → Db
  marked s = set_payment p.id (mark s) db

  there : find order_key o.id db.orders ≡ some o
  there =
      subst (λ k. find order_key k db.orders ≡ some o)
        (sym (find_key order_key p.order_id db.orders o due.4)) due.4

  came_through : CameThrough id p o db (move_payment o (some paid) "maib" (marked PaymentState.ok))
  came_through = record {
    settled = get_by_pay_id-modify id p.id PaymentState.ok db.payments p due.2 refl;
    order = rows_after o none (some paid) "maib" (marked PaymentState.ok) there;
    history = refl;
    stock = refl;
  }

  fell_through :
      FellThrough id p o db
        (given_back true o.id (move_status o (some canceled) "maib" (marked PaymentState.failed)))
  unfolding get_items_for_order
  fell_through = record {
    settled = get_by_pay_id-modify id p.id PaymentState.failed db.payments p due.2 refl;
    order = rows_after o (some canceled) none "maib" (marked PaymentState.failed) there;
    history = refl;
    stock = return_all-returned (select_where (λ i. i.order_id == o.id) db.order_items) db.stock;
  }

  run_ok :
      str_eq (gateway.upper c.status) "OK" ≡ true
      → o.payment_status ≡ PaymentStatus.pending
      → run_request (handle_callback gateway env c) db
        ≡ (ok true, move_payment o (some paid) "maib" (marked PaymentState.ok))
  run_ok says unpaid =
      due_run gateway env c db id p o due ∙ rw says (paid_run env p o db o.payment_status unpaid)

  run_failed :
      str_eq (gateway.upper c.status) "OK" ≡ false
      → is_open o.status ≡ true
      → waybill_of (get_novapost o.id db.carriers) ≡ none
      → env.effect_runs ≡ true
      → run_request (handle_callback gateway env c) db ≡ (
        ok true,
        given_back true o.id (move_status o (some canceled) "maib" (marked PaymentState.failed)),
      )
  run_failed says is_still_open no_waybill runs =
      due_run gateway env c db id p o due
      ∙ rw says (failed_run env p o db o.status env.effect_runs is_still_open runs no_waybill)

  -- A callback that is due, for an open order that is not paid and has no waybill, where the statements
  -- after the commit get through, is accepted. With the status OK its payment is then ok and the order
  -- paid; with any other the payment is failed, the order canceled and every quantity of its lines back
  -- in stock. Either has its audit row.
  pub handle_callback-Settlement :
      o.payment_status ≡ PaymentStatus.pending
      → is_open o.status ≡ true
      → waybill_of (get_novapost o.id db.carriers) ≡ none
      → env.effect_runs ≡ true
      → ((run_request (handle_callback gateway env c) db).0 ≡ ok true)
        × Settlement
            (str_eq (gateway.upper c.status) "OK")
            id
            p
            o
            db
            (run_request (handle_callback gateway env c) db).1
  handle_callback-Settlement unpaid is_still_open no_waybill runs =
      elim (Bool-cases (str_eq (gateway.upper c.status) "OK")) [
        | inl says ↦
            let run = run_ok says unpaid in
            (
              ap (λ x. x.0) run,
              rw says (
                  subst (λ (x : Result PaymentError Bool × Db). CameThrough id p o db x.1) (sym run)
                    came_through),
            )
        | inr says ↦
            let run = run_failed says is_still_open no_waybill runs in
            (
              ap (λ x. x.0) run,
              rw says (
                  subst (λ (x : Result PaymentError Bool × Db). FellThrough id p o db x.1) (sym run)
                    fell_through),
            )
      ]
