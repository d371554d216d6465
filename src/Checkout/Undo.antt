-- ===== src/Checkout/Undo.antt =====
-- Placing an order and canceling it: `_persist_order` of app/services/checkout_service.py and then
-- `transition` of app/services/order_service.py.
use mathlib.Core.Path.{subst}
use store_evix.Common.{
  ℕ, ◌≡◌, ◌≢◌, refl, sym, ap, ◌∙◌, true, Option, none, some, List, [], ◌∷◌, ◌++◌, map, String,
  arith, All, select_where, select_where-append, ◌==◌,
}
use store_evix.Common.Table.{find, find-append}
use store_evix.Common.Session.{ok, run_request}
use store_evix.Models.Order.{canceled, PaymentStatus, Order, OrderItem}
use store_evix.Models.Db.{Db}
use store_evix.Stock.{return_all}
use store_evix.Stock.Rows.{Sku, on_hand, plus}
use store_evix.Stock.Demand.{IsPositive}
use store_evix.Stock.Return.{AreLinesOf, returned-demand, return_all-returned}
use store_evix.Order.{Surroundings, order_key, get_items_for_order, transition}
use store_evix.Order.Machine.{Moved, Verdict, transition-Verdict}
use store_evix.Checkout.Choice.{PricedLine}
use store_evix.Checkout.Place.{FreshOrder, OrderRequest, new_order, order_item, persist_order}
use store_evix.Checkout.Persist.{takes, Written, Persisted, persist_order-Persisted}

-- The key is new to the orders and their lines.
abbrev pub IsFresh : ℕ → Db → Type 0
IsFresh id db = All (λ o. o.id ≢ id) db.orders × All (λ i. i.order_id ≢ id) db.order_items

select-none :
    (id : ℕ) (is : List OrderItem)
    → All (λ i. i.order_id ≢ id) is
    → select_where (λ i. i.order_id == id) is ≡ []
select-none id [] h = refl
select-none id (i ∷ is) (h, hs) = ground (arith, select-none id is hs)

select-order_item :
    (id : ℕ) (ls : List PricedLine)
    → select_where (λ i. i.order_id == id) (map (order_item id) ls) ≡ map (order_item id) ls
select-order_item id [] = refl
select-order_item id (l ∷ ls) = ground (arith, select-order_item id ls)

-- The lines that are read back for a new order are those that were written for it.
items_of_new :
    (id : ℕ) (ls : List PricedLine) (is : List OrderItem)
    → All (λ i. i.order_id ≢ id) is
    → get_items_for_order id (is ++ map (order_item id) ls) ≡ map (order_item id) ls
unfolding get_items_for_order
items_of_new id ls is h =
    select_where-append (λ i. i.order_id == id) is (map (order_item id) ls)
    ∙ ap (λ xs. xs ++ select_where (λ i. i.order_id == id) (map (order_item id) ls))
        (select-none id is h)
    ∙ select-order_item id ls

order_items-AreLinesOf :
    (id : ℕ) (ls : List PricedLine) → AreLinesOf (takes ls) (map (order_item id) ls)
order_items-AreLinesOf id [] = tt
order_items-AreLinesOf id (l ∷ ls) = ((refl, refl, refl), order_items-AreLinesOf id ls)

find-fresh : (id : ℕ) (os : List Order) → All (λ o. o.id ≢ id) os → find order_key id os ≡ none
find-fresh id [] h = refl
find-fresh id (o ∷ os) (h, hs) = ground (arith, find-fresh id os hs)

find-new :
    (o : Order) (os : List Order)
    → All (λ r. r.id ≢ o.id) os
    → find order_key o.id (os ++ o ∷ []) ≡ some o
find-new o os h = ground (arith, find-append order_key o.id os (o ∷ []), find-fresh o.id os h)

module _ (env : Surroundings) (f : FreshOrder) (r : OrderRequest) (lines : List PricedLine)
    (p : Option PaymentStatus) (by : String) (db placed : Db) (o : Order)
    (fresh : IsFresh f.id db) where
  abbrev items : List OrderItem
  items = map (order_item f.id) lines

  -- What the cancel gives back is what the order took.
  given-taken :
      Written f r lines db placed
      → (k : Sku)
      → on_hand (return_all (get_items_for_order f.id placed.order_items) placed.stock).0 k
        ≡ on_hand db.stock k
  given-taken w k =
      ap (λ is. on_hand (return_all is placed.stock).0 k)
        (ap (get_items_for_order f.id) w.items ∙ items_of_new f.id lines db.order_items fresh.1)
      ∙ return_all-returned items placed.stock k
      ∙ ap (λ n. plus n (on_hand placed.stock k))
          (returned-demand k (takes lines) items (order_items-AreLinesOf f.id lines))
      ∙ sym (w.stock k).0

  undone :
      (gone : Db) (notified : List ℕ)
      → Written f r lines db placed
      → env.effect_runs ≡ true
      → Moved env (new_order f r) (some canceled) p by placed notified gone
      → (k : Sku) → on_hand gone.stock k ≡ on_hand db.stock k
  undone gone notified w runs v k = ap (λ s. on_hand s k) (v.stock ∙ rw runs refl) ∙ given-taken w k

  -- An order is placed under a fresh key, with lines of positive quantities, and then canceled,
  -- where the statements after the commit get through: every quantity in stock is as it was before.
  pub transition-persist_order :
      (gone : Db) (notified : List ℕ)
      → IsPositive (takes lines)
      → run_request (persist_order f r lines) db ≡ (ok o, placed)
      → env.effect_runs ≡ true
      → run_request (transition env o (some canceled) p by) placed ≡ (ok notified, gone)
      → (k : Sku) → on_hand gone.stock k ≡ on_hand db.stock k
  transition-persist_order gone notified positive is_placed runs is_canceled =
      let (same, w) =
        subst (Persisted f r lines db) is_placed (persist_order-Persisted f r lines db positive) in
      let there : find order_key f.id placed.orders ≡ some (new_order f r) =
        ap (find order_key f.id) w.orders ∙ find-new (new_order f r) db.orders fresh.0 in
      undone gone notified w runs (
        subst (Verdict env (new_order f r) (some canceled) p by placed)
          (ap (λ x. run_request (transition env x (some canceled) p by) placed) (sym same)
            ∙ is_canceled)
          (transition-Verdict env (new_order f r) (some canceled) p by placed there))
