-- ===== src/Order/Machine.antt =====
-- What a requested transition does, on every branch (`OrderService.transition` of
-- app/services/order_service.py).
use store_evix.Common.{
  take, ◌&&◌, ◌++◌, if◌then◌else◌, [], ℕ, ◌≡◌, refl, ◌∙◌, ap, ◌≢◌, inl, inr, Bool, true, false,
  Option, none, some, List, String, Bool-cases,
}
use store_evix.Common.Table.{find}
use store_evix.Common.Session.{
  Result, ok, err, Session, run_request, bind_ok, bind_err, write, commit, ◌>>◌,
}
use store_evix.Models.Order.{OrderStatus, new, confirmed, done, canceled, PaymentStatus, Order}
use store_evix.Models.Catalog.{Stock}
use store_evix.Models.Db.{Db}
use store_evix.Order.Defs.{
  OrderError, OrderAction, illegal_transition, waybill_cancel_failed, order_not_found,
  status_transition, payment_transition, move_allowed, returns_stock, order_key, Surroundings,
  get_novapost, waybill_of, drop_waybill, move_status, move_payment, cancel_refused,
  cancel_waybill_if_any, given_back, stock_return, transition,
}
use store_evix.Stock.{return_all}
use store_evix.Order.Defs.{get_items_for_order, notices}
use store_evix.Order.Axes.{
  moved, IsLegal, waybill, rows_after, others_after, carriers_after, waybill-drop, orders-drop,
  cancel_waybill_refused, cancel_waybill_dropped, start, after-IsWritten, IsWritten, trail,
}

-- Whether the lines go back: on a cancel whose statements after the commit get through.
abbrev pub gives_back : Surroundings → Option OrderStatus → Bool
gives_back env s = returns_stock s && env.effect_runs

abbrev pub returned_lines : Order → Db → Stock × List ℕ
returned_lines o db = return_all (get_items_for_order o.id db.order_items) db.stock

-- The products that are notified for: of all lines, or of those before a failure.
abbrev pub noticed : Surroundings → Bool → Bool → Order → Db → List ℕ
noticed env true canceling o db = (returned_lines o db).1
noticed env false true o db =
    (return_all (take env.lines_before_failure (get_items_for_order o.id db.order_items))
      db.stock).1
noticed env false false o db = []

-- A transition that went through: both moves are in the tables, the order's row has exactly its
-- requested axes moved, no other order changed, each move has its audit row, a cancel has left no
-- waybill and given the order's lines back to stock, and nothing else has changed the stock.
pub record Moved (env : Surroundings) (o : Order) (s : Option OrderStatus)
    (p : Option PaymentStatus) (by : String) (db : Db) (notified : List ℕ) (db' : Db) : Type 0 where
  pub legal : IsLegal o s p
  pub row : find order_key o.id db'.orders ≡ some (moved s p o)
  pub others : (j : ℕ) → o.id ≢ j → find order_key j db'.orders ≡ find order_key j db.orders
  pub history : db'.history ≡ db.history ++ trail o s p by
  pub no_waybill : returns_stock s ≡ true → waybill o db' ≡ none
  pub stock : db'.stock ≡ (if gives_back env s then (returned_lines o db).0 else db.stock)
  pub notices : notified ≡ noticed env (gives_back env s) (returns_stock s) o db

abbrev pub Verdict :
    Surroundings
    → Order
    → Option OrderStatus
    → Option PaymentStatus
    → String
    → Db
    → Result OrderError (List ℕ) × Db
    → Type 0
Verdict env o s p by db (ok notified, db') = Moved env o s p by db notified db'
Verdict env o s p by db (err illegal_transition, db') = (db' ≡ db) × ¬ IsLegal o s p
Verdict env o s p by db (err waybill_cancel_failed, db') =
    (db' ≡ db) × (returns_stock s ≡ true) × (cancel_refused env (waybill o db) ≡ true)
Verdict env o s p by db (err order_not_found, _) = ⊥

module _ (env : Surroundings) (o : Order) (p : Option PaymentStatus) (by : String) (db : Db)
    (e : find order_key o.id db.orders ≡ some o) where
  plain_Moved :
      (s : Option OrderStatus)
      → returns_stock s ≡ false
      → IsLegal o s p
      → Moved env o s p by db [] (move_payment o p by (move_status o s by db))
  plain_Moved s q legal = record {
    legal = legal;
    row = rows_after o s p by db e;
    others = others_after o s p by db;
    history = (after-IsWritten o by db s p none).2;
    no_waybill = λ r. cc;
    stock = rw q (after-IsWritten o by db s p none).0;
    notices = rw q refl;
  }

  transition_plain :
      (s : Option OrderStatus)
      → returns_stock s ≡ false
      → Verdict env o s p by db (run_request (transition env o s p by) db)
  unfolding transition
  transition_plain s q = elim (Bool-cases (move_allowed status_transition o.status s)) [
    | inr a ↦ rw a (refl, λ l. cc (l.0))
    | inl a ↦ elim (Bool-cases (move_allowed payment_transition o.payment_status p)) [
      | inr b ↦ rw (a, b) (refl, λ l. cc (l.1))
      | inl b ↦ rw (a, b, q) (plain_Moved s q (a, b))
    ]
  ]

  abbrev dropped : Db
  dropped = drop_waybill o.id (waybill o db) db

  -- The tables at the commit of a cancel.
  abbrev canceled_db : Db
  canceled_db = move_payment o p by (move_status o (some canceled) by dropped)

  canceled-IsWritten : IsWritten o (some canceled) p by db canceled_db
  canceled-IsWritten = after-IsWritten o by db (some canceled) p (waybill o db)

  -- The stock return reads the lines and the stock, which the commit has left alone.
  same_lines :
      return_all (get_items_for_order o.id canceled_db.order_items) canceled_db.stock
      ≡ returned_lines o db
  same_lines =
      ap (λ is. return_all (get_items_for_order o.id is) canceled_db.stock) canceled-IsWritten.1
      ∙ ap (return_all (get_items_for_order o.id db.order_items)) canceled-IsWritten.0

  same_first : notices false env.lines_before_failure o.id canceled_db ≡ noticed env false true o db
  same_first =
      ap
        (λ is.
          (return_all (take env.lines_before_failure (get_items_for_order o.id is))
            canceled_db.stock).1)
        canceled-IsWritten.1
      ∙ ap
          (λ s.
            (return_all (take env.lines_before_failure (get_items_for_order o.id db.order_items))
              s).1)
          canceled-IsWritten.0

  same_orders : dropped.orders ≡ db.orders
  same_orders = orders-drop o.id (waybill o db) db

  canceled_row : find order_key o.id canceled_db.orders ≡ some (moved (some canceled) p o)
  canceled_row =
      rows_after o (some canceled) p by dropped (ap (find order_key o.id) same_orders ∙ e)

  canceled_others :
      (j : ℕ) → o.id ≢ j → find order_key j canceled_db.orders ≡ find order_key j db.orders
  canceled_others j h =
      others_after o (some canceled) p by dropped j h ∙ ap (find order_key j) same_orders

  canceled_waybill : waybill o canceled_db ≡ none
  canceled_waybill =
      ap (λ rs. waybill_of (get_novapost o.id rs)) (carriers_after o (some canceled) p by dropped)
      ∙ waybill-drop o.id db

  cancel_Moved :
      (runs : Bool)
      → IsLegal o (some canceled) p
      → Moved
          (record env { effect_runs = runs })
          o
          (some canceled)
          p
          by
          db
          (notices runs env.lines_before_failure o.id canceled_db)
          (given_back runs o.id canceled_db)
  cancel_Moved true legal = record {
    legal = legal;
    row = canceled_row;
    others = canceled_others;
    history = canceled-IsWritten.2;
    no_waybill = λ _. canceled_waybill;
    stock = ap (λ x. x.0) same_lines;
    notices = ap (λ x. x.1) same_lines;
  }
  cancel_Moved false legal = record {
    legal = legal;
    row = canceled_row;
    others = canceled_others;
    history = canceled-IsWritten.2;
    no_waybill = λ _. canceled_waybill;
    stock = canceled-IsWritten.0;
    notices = same_first;
  }

  -- The part of a cancel that follows the two checks.
  abbrev cancel_rest : OrderAction (List ℕ)
  cancel_rest = do
    write (move_status o (some canceled) by)
    write (move_payment o p by)
    commit
    stock_return env o.id

  cancel_run :
      IsLegal o (some canceled) p
      → transition env o (some canceled) p by (start db)
        ≡ (cancel_waybill_if_any env o.id >> cancel_rest) (start db)
  unfolding transition
  cancel_run (a, b) = rw (a, b) refl

  transition_cancel :
      Verdict env o (some canceled) p by db (run_request (transition env o (some canceled) p by) db)
  transition_cancel = elim (Bool-cases (status_transition o.status canceled)) [
    | inr a ↦ unfold transition in rw a (refl, λ l. cc (l.0))
    | inl a ↦ elim (Bool-cases (move_allowed payment_transition o.payment_status p)) [
      | inr b ↦ unfold transition in rw (a, b) (refl, λ l. cc (l.1))
      | inl b ↦ elim (Bool-cases (cancel_refused env (waybill o db))) [
        | inl c ↦ rw (cancel_run (a, b)) (
            rw
              (bind_err (cancel_waybill_if_any env o.id) (λ _. cancel_rest) (start db) (start db)
                waybill_cancel_failed (cancel_waybill_refused env o.id (start db) c))
              (refl, refl, c))
        | inr c ↦ rw (cancel_run (a, b)) (
            rw
              (bind_ok (cancel_waybill_if_any env o.id) (λ _. cancel_rest) (start db) canceling tt
                (cancel_waybill_dropped env o.id (start db) c))
              (unfold stock_return in cancel_Moved env.effect_runs (a, b)))
      ]
    ]
  ]
    where
      canceling : Session Db
      canceling = record { work = dropped; committed = db }

-- A request goes through, or it raises and leaves the database as it was. Through: both moves are
-- in their tables, the order's row has exactly the requested axes moved and no other order is
-- changed, each move has its audit row, a cancel leaves no waybill and, where the statements after
-- the commit get through, gives the lines back, and the stock is otherwise as before. It raises
-- because a move is outside its table, or because a cancel meets a waybill that cannot be canceled.
pub transition-Verdict :
    (env : Surroundings) (o : Order) (s : Option OrderStatus) (p : Option PaymentStatus)
    (by : String) (db : Db)
    → find order_key o.id db.orders ≡ some o
    → Verdict env o s p by db (run_request (transition env o s p by) db)
unfolding transition
transition-Verdict env o none p by db e = transition_plain env o p by db e none refl
transition-Verdict env o (some new) p by db e = transition_plain env o p by db e (some new) refl
transition-Verdict env o (some confirmed) p by db e =
    transition_plain env o p by db e (some confirmed) refl
transition-Verdict env o (some done) p by db e = transition_plain env o p by db e (some done) refl
transition-Verdict env o (some canceled) p by db e = transition_cancel env o p by db e
