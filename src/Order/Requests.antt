-- ===== src/Order/Requests.antt =====
-- What sequences of requested transitions can make of an order (app/services/order_service.py).
use mathlib.Core.Path.{subst}
use store_evix.Common.{
  ℕ, ◌≡◌, refl, ◌∙◌, ap, Bool, true, false, Option, none, some, List, [], ◌∷◌, String, arith,
}
use store_evix.Common.Table.{find, find_key}
use store_evix.Common.Session.{Result, ok, err, run_request}
use store_evix.Models.Order.{OrderStatus, new, confirmed, done, canceled, PaymentStatus, Order}
use store_evix.Models.Db.{Db}
use store_evix.Order.Defs.{
  OrderError, illegal_transition, waybill_cancel_failed, order_not_found, status_transition,
  payment_transition, move_allowed, order_key, Surroundings, transition,
}
use store_evix.Order.Axes.{target_or, moved}
use store_evix.Order.Machine.{Verdict, transition-Verdict}

-- A chain of moves of one axis along its table.
pub data Reaches {A : Type 0} (table : A → A → Bool) : A → A → Type 0 where
  here : {a : A} → Reaches table a a
  move : {a b c : A} → table a b ≡ true → Reaches table b c → Reaches table a c

Reaches-target :
    {A : Type 0} (table : A → A → Bool) (a : A) (t : Option A)
    → move_allowed table a t ≡ true
    → Reaches table a (target_or t a)
Reaches-target table a none h = here
Reaches-target table a (some b) h = move h here

Reaches-trans :
    {A : Type 0} {table : A → A → Bool} {a b c : A}
    → Reaches table a b
    → Reaches table b c
    → Reaches table a c
Reaches-trans here q = q
Reaches-trans (move h p) q = move h (Reaches-trans p q)

-- One request on an order by whoever sends it, in the surroundings that it meets.
pub record Request : Type 0 where
  pub env : Surroundings
  pub to_status : Option OrderStatus
  pub to_payment_status : Option PaymentStatus
  pub changed_by : String

abbrev pub handle : ℕ → Request → Db → Option Order → Db
handle id q db none = db
handle id q db (some o) =
    (run_request (transition q.env o q.to_status q.to_payment_status q.changed_by) db).1

-- Requests on one order, each on the row as the one before has left it.
unfoldable pub handle_all : ℕ → List Request → Db → Db
handle_all id [] db = db
handle_all id (q ∷ qs) db = handle_all id qs (handle id q db (find order_key id db.orders))

-- The row is still there, and each axis has gone along its table.
abbrev pub Progress : ℕ → Order → Db → Type 0
Progress id o db =
    (o' : Order) × (find order_key id db.orders ≡ some o')
    × Reaches status_transition o.status o'.status
    × Reaches payment_transition o.payment_status o'.payment_status

Verdict-Progress :
    (env : Surroundings) (o : Order) (s : Option OrderStatus) (p : Option PaymentStatus)
    (by : String) (db : Db) (r : Result OrderError (List ℕ) × Db)
    → find order_key o.id db.orders ≡ some o
    → Verdict env o s p by db r
    → Progress o.id o r.1
Verdict-Progress env o s p by db (ok _, db') e v = (
  moved s p o,
  v.row,
  Reaches-target status_transition o.status s v.legal.0,
  Reaches-target payment_transition o.payment_status p v.legal.1,
)
Verdict-Progress env o s p by db (err illegal_transition, db') e v =
    (o, ap (λ d. find order_key o.id d.orders) v.0 ∙ e, here, here)
Verdict-Progress env o s p by db (err waybill_cancel_failed, db') e v =
    (o, ap (λ d. find order_key o.id d.orders) v.0 ∙ e, here, here)
Verdict-Progress env o s p by db (err order_not_found, db') e v = absurd v

handle-Progress :
    (id : ℕ) (q : Request) (o : Order) (db : Db)
    → find order_key id db.orders ≡ some o
    → Progress id o (handle id q db (some o))
handle-Progress id q o db e =
    subst (λ k. find order_key k db.orders ≡ some o → Progress k o (handle k q db (some o)))
      (find_key order_key id db.orders o e)
      (λ found.
        Verdict-Progress q.env o q.to_status q.to_payment_status q.changed_by db
          (run_request (transition q.env o q.to_status q.to_payment_status q.changed_by) db) found
          (transition-Verdict q.env o q.to_status q.to_payment_status q.changed_by db found))
      e

-- Whatever requests an order meets, whoever sends them and however the carrier answers, its row
-- stays, and its status and payment status only ever move along their tables.
pub handle_all-Progress :
    (id : ℕ) (qs : List Request) (o : Order) (db : Db)
    → find order_key id db.orders ≡ some o
    → Progress id o (handle_all id qs db)
unfolding handle_all
handle_all-Progress id [] o db e = (o, e, here, here)
handle_all-Progress id (q ∷ qs) o db e =
    let (o1, found, s1, p1) = handle-Progress id q o db e in
    let (o2, found2, s2, p2) = handle_all-Progress id qs o1 (handle id q db (some o)) found in
    rw (e, handle_all) (o2, found2, Reaches-trans s1 s2, Reaches-trans p1 p2)

abbrev pub is_final : OrderStatus → Bool
is_final new = false
is_final confirmed = false
is_final done = true
is_final canceled = true

Reaches-is_final : {s t : OrderStatus} → Reaches status_transition s t → is_final s ≡ true → t ≡ s
Reaches-is_final here h = refl
Reaches-is_final (move {a = a} {b = b} e p) h = absurd (leaves a b e h)
  where
    leaves : (a b : OrderStatus) → status_transition a b ≡ true → is_final a ≡ true → ⊥
    leaves a b e h = ground arith

-- An order that is there, done or canceled, keeps its status, whatever is requested of it.
pub handle_all_final :
    (id : ℕ) (qs : List Request) (o : Order) (db : Db)
    → find order_key id db.orders ≡ some o
    → is_final o.status ≡ true
    → (o' : Order) × (find order_key id (handle_all id qs db).orders ≡ some o')
      × (o'.status ≡ o.status)
handle_all_final id qs o db e h =
    let (o', found, s, _) = handle_all-Progress id qs o db e in (o', found, Reaches-is_final s h)
