-- ===== src/Checkout/Paying.antt =====
-- A checkout after its order is committed: `_initiate_card_payment` of
-- app/services/checkout_service.py.
use store_evix.Common.{
  ℕ, ◌≡◌, refl, sym, ap, ◌∙◌, true, inl, inr, Option, none, some, List, [], ◌∷◌, ◌++◌, ==_iff,
  String, is_some, Bool-cases, Option-cases, arith,
}
use store_evix.Common.Session.{Result, ok, err, Session, continue}
use store_evix.Models.Order.{PaymentMethod, cod, card, Order}
use store_evix.Models.Db.{Db}
use store_evix.Order.{get_order_by_number}
use store_evix.Payment.{PaymentError, Gateway, initiate_card_payment}
use store_evix.Stock.{Taken, taken, out_of_stock as short, take_all}
use store_evix.Checkout.Choice.{CheckoutError, out_of_stock, card_refused, PricedLine, Totals}
use store_evix.Checkout.Place.{FreshOrder, OrderRequest, new_order, finish, persist_order}
use store_evix.Checkout.Service.{Placed, charged, initiate_order_payment, pay_by}
use store_evix.Checkout.Persist.{takes, staged, Persisted}

-- The order shows the totals of the quote.
abbrev pub Shows : Totals → Order → Type 0
Shows t o =
    (o.subtotal ≡ t.subtotal)
    × (o.discount_total ≡ t.discount_total)
    × (o.delivery_cost ≡ t.delivery_cost)
    × (o.total ≡ t.total)

-- There is a payment page for a card, and none for cash.
abbrev pub HasPage : PaymentMethod → Option String → Type 0
HasPage cod page = page ≡ none
HasPage card page = is_some page ≡ true

-- What becomes of a request that is quoted at `t`.
abbrev pub Places : PaymentMethod → Totals → Db → Result CheckoutError Placed × Db → Type 0
Places m t db (ok (o, page), db') = Shows t o × (db'.orders ≡ db.orders ++ o ∷ []) × HasPage m page
Places m t db (err (out_of_stock _), db') = db' ≡ db
Places m t db (err (card_refused _), db') =
    (m ≡ card) × ((o : Order) × Shows t o × (db'.orders ≡ db.orders ++ o ∷ []))
Places m t db (err _, db') = ⊥

-- A persisted order leaves nothing open in the session, and neither does a refused one.
pub persist_order_closed :
    (f : FreshOrder) (r : OrderRequest) (lines : List PricedLine) (s : Session Db)
    → (persist_order f r lines s).1.work ≡ (persist_order f r lines s).1.committed
unfolding persist_order
persist_order_closed f r lines s =
    go (take_all (takes lines) (staged f r lines s.work).stock)
      (record s { work = staged f r lines s.work })
  where
    go :
        (t : Taken) (z : Session Db)
        → let (a, z') = finish t z in
          (continue a (λ _ y. (ok (new_order f r), y)) z').1.work
          ≡ (continue a (λ _ y. (ok (new_order f r), y)) z').1.committed
    go (taken stock) z = refl
    go (short p) z = refl

-- An order is found by its number, where it is there.
get_order_by_number_there :
    (os : List Order) (o : Order) → is_some (get_order_by_number o.number (os ++ o ∷ [])) ≡ true
unfolding get_order_by_number
get_order_by_number_there [] o =
    ground
      (arith, (==_iff o.number.day o.number.day).1 refl, (==_iff o.number.seq o.number.seq).1 refl)
get_order_by_number_there (p ∷ os) o = ground (arith, get_order_by_number_there os o)

-- Starting a payment writes no order.
initiate_card_payment-orders :
    (gateway : Gateway) (id : ℕ) (o : Order) (s : Session Db)
    → s.work ≡ s.committed
    → (initiate_card_payment gateway id o s).1.committed.orders ≡ s.committed.orders
unfolding initiate_card_payment
initiate_card_payment-orders gateway id o s closed = elim (Bool-cases gateway.enabled) [
  | inr off ↦ rw off refl
  | inl on ↦ elim (Option-cases (gateway.create_payment o)) [
    | inl failed ↦ rw (on, failed) (ap (λ d. d.orders) closed)
    | inr (page, given) ↦ rw (on, given) (ap (λ d. d.orders) closed)
  ]
]

module _ (t : Totals) (db : Db) (o : Order) (shows : Shows t o) where
  -- The payment of an order that is committed.
  paid-Places :
      (x : Result PaymentError String × Session Db)
      → x.1.committed.orders ≡ db.orders ++ o ∷ []
      → let y = charged x in
        let z = continue {B = Placed} y.0 (λ page s. (ok (o, some page), s)) y.1 in
        Places card t db (z.0, z.1.committed)
  paid-Places (ok page, s) there = (shows, there, refl)
  paid-Places (err e, s) there = (refl, (o, shows, there))

  pay_by-Places :
      (gateway : Gateway) (id : ℕ) (m : PaymentMethod) (s : Session Db)
      → s.work ≡ s.committed
      → s.committed.orders ≡ db.orders ++ o ∷ []
      → let z = pay_by gateway id m o s in Places m t db (z.0, z.1.committed)
  unfolding initiate_order_payment
  pay_by-Places gateway id cod s closed there = (shows, there, refl)
  pay_by-Places gateway id card s closed there =
      elim (Option-cases (get_order_by_number o.number s.work.orders)) [
        | inl gone ↦ cc (
          get_order_by_number_there db.orders o,
          ap is_some gone,
          ap (λ d. is_some (get_order_by_number o.number d.orders)) closed,
          ap (λ os. is_some (get_order_by_number o.number os)) there,
        )
        | inr (p, found) ↦ rw found (
            paid-Places (initiate_card_payment gateway id p s)
              (initiate_card_payment-orders gateway id p s closed ∙ there))
      ]

-- An order is persisted, or refused, and then paid for.
pub Persisted-Places :
    (gateway : Gateway) (id : ℕ) (m : PaymentMethod) (t : Totals) (f : FreshOrder)
    (r : OrderRequest) (lines : List PricedLine) (db : Db)
    → r.totals ≡ t
    → (x : Result CheckoutError Order × Session Db) → x.1.work ≡ x.1.committed
    → Persisted f r lines db (x.0, x.1.committed)
    → let z = continue x.0 (pay_by gateway id m) x.1 in Places m t db (z.0, z.1.committed)
Persisted-Places gateway id m t f r lines db same (ok o, s) closed (e, w) =
    pay_by-Places t db o (rw (e, same) (refl, refl, refl, refl)) gateway id m s closed
      (w.orders ∙ ap (λ p. db.orders ++ p ∷ []) (sym e))
Persisted-Places gateway id m t f r lines db same (err (out_of_stock p), s) closed (e, w) = e
Persisted-Places gateway id m t f r lines db same (err e, s) closed h = absurd h
