-- ===== src/Checkout/Agree.antt =====
-- `quote` against `checkout` (app/services/checkout_service.py), on one database.
use store_evix.Common.{arith, ℕ, ◌≡◌, refl, inl, inr, List}
use store_evix.Common.Session.{Result, ok, err, run_request, Result-cases, ◌>>=◌}
use store_evix.Models.Order.{PaymentMethod}
use store_evix.Models.Cart.{Cart}
use store_evix.Models.Db.{Db}
use store_evix.Payment.{Gateway}
use store_evix.Checkout.Choice.{CheckoutError, PricedLine, Totals, validate, quote_from_lines}
use store_evix.Checkout.Lines.{Shop, load_cart_lines}
use store_evix.Checkout.Place.{FreshOrder, OrderRequest, persist_order, Recipient}
use store_evix.Checkout.Service.{
  CheckoutRequest, recipient_of, resolve_discount, order_request, quote, Placed, pay_by, checkout,
}
use store_evix.Checkout.Sellable.{IsPositiveCart}
use store_evix.Checkout.Loading.{loaded-IsPositive}
use store_evix.Checkout.Persist.{takes, persist_order-Persisted}
use store_evix.Checkout.Paying.{Places, persist_order_closed, Persisted-Places}
use store_evix.Stock.Demand.{IsPositive}

-- How the answer to a quote and the answer to a checkout go together.
abbrev pub Agrees :
    PaymentMethod → Db → Result CheckoutError Totals → Result CheckoutError Placed × Db → Type 0
Agrees m db (ok t) x = Places m t db x
Agrees m db (err e) (ok _, db') = ⊥
Agrees m db (err e) (err e', db') = db' ≡ db

module _ (shop : Shop) (gateway : Gateway) (id : ℕ) (f : FreshOrder) (q : CheckoutRequest)
    (db : Db) where
  abbrev Goal : Type 0
  Goal =
      Agrees q.payment_method db (run_request (quote shop q) db).0
        (run_request (checkout shop gateway id f q) db)

  agree_unloaded :
      (e : CheckoutError) → load_cart_lines shop q.user_id q.session_token q.lang db ≡ err e → Goal
  unfolding quote checkout
  agree_unloaded e l = elim (Result-cases (validate shop.settings q.choice)) [
    | inl (tt, v) ↦ ground (arith, l, v)
    | inr (e', v) ↦ ground (arith, l, v)
  ]

  module _ (cart : Cart) (lines : List PricedLine)
      (l : load_cart_lines shop q.user_id q.session_token q.lang db ≡ ok (cart, lines))
      (positive : IsPositive (takes lines)) where
    module _ (v : validate shop.settings q.choice ≡ ok tt) (to : Recipient)
        (a : recipient_of q db ≡ ok to) (discount : ℕ)
        (d : resolve_discount lines q.promo_code q.now db ≡ ok discount) where
      quote_priced :
          (r : Result CheckoutError Totals)
          → quote_from_lines shop.settings shop.quote lines q.choice discount ≡ r
          → (run_request (quote shop q) db).0 ≡ r
      unfolding quote
      quote_priced r t = ground (arith, l, v, a, d, t)

      abbrev request : Totals → OrderRequest
      request t = order_request shop q cart.id to discount t

      checkout_priced :
          (t : Totals)
          → quote_from_lines shop.settings shop.quote lines q.choice discount ≡ ok t
          → run_request (checkout shop gateway id f q) db
            ≡ run_request
                (persist_order f (request t) lines >>= pay_by gateway id q.payment_method)
                db
      unfolding checkout
      checkout_priced t e = ground (arith, l, v, a, d, e)

      checkout_unpriced :
          (x : CheckoutError)
          → quote_from_lines shop.settings shop.quote lines q.choice discount ≡ err x
          → run_request (checkout shop gateway id f q) db ≡ (err x, db)
      unfolding checkout
      checkout_unpriced x e = ground (arith, l, v, a, d, e)

      agree_priced : Goal
      agree_priced =
          elim (Result-cases (quote_from_lines shop.settings shop.quote lines q.choice discount)) [
            | inr (e, t) ↦ rw (quote_priced (err e) t, checkout_unpriced e t) refl
            | inl (t, e) ↦
                rw (quote_priced (ok t) e, checkout_priced t e)
                  (Persisted-Places gateway id q.payment_method t f (request t) lines db refl _
                    (persist_order_closed f (request t) lines
                      (record { work = db; committed = db }))
                    (persist_order-Persisted f (request t) lines db positive))
          ]

    agree_loaded : Goal
    unfolding quote checkout
    agree_loaded = elim (Result-cases (validate shop.settings q.choice)) [
      | inr (e, v) ↦ ground (arith, l, v)
      | inl (tt, v) ↦ elim (Result-cases (recipient_of q db)) [
        | inr (e, a) ↦ ground (arith, l, v, a)
        | inl (to, a) ↦ elim (Result-cases (resolve_discount lines q.promo_code q.now db)) [
          | inr (e, d) ↦ ground (arith, l, v, a, d)
          | inl (discount, d) ↦ agree_priced v to a discount d
        ]
      ]
    ]

  -- On one database, where cart lines have positive quantities: an order is placed only where the
  -- same request is quoted; it then shows exactly the quoted totals, is in the database, and has a
  -- payment page exactly where it is paid by card. A request that is quoted fails only for want of
  -- stock, and then the database is as it was, or because the payment by card cannot be started, and
  -- then the order is in the database all the same. One that is not quoted changes nothing.
  pub checkout-Agrees :
      IsPositiveCart db.cart_items
      → Agrees q.payment_method db
          (run_request (quote shop q) db).0
          (run_request (checkout shop gateway id f q) db)
  checkout-Agrees h =
      elim (Result-cases (load_cart_lines shop q.user_id q.session_token q.lang db)) [
        | inr (e, l) ↦ agree_unloaded e l
        | inl ((cart, lines), l) ↦
            agree_loaded cart lines l
              (loaded-IsPositive shop q.user_id q.session_token q.lang db cart lines h l)
      ]
