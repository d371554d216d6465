-- ===== src/Checkout/Persist.antt =====
-- What `_persist_order` of app/services/checkout_service.py leaves in the database, on every branch.
use mathlib.Core.Path.{subst}
use store_evix.Common.{
  sym, ℕ, ◌+◌, ◌*◌, ◌≤◌, ◌<◌, ◌≡◌, ◌≢◌, refl, ap, ◌∙◌, Option, none, some, List, [], ◌∷◌, ◌++◌, map,
  sum_of, append_assoc, arith,
}
use store_evix.Common.Table.{find, find-modify}
use store_evix.Common.Session.{Result, ok, err, run_request, continue}
use store_evix.Models.Catalog.{Stock}
use store_evix.Models.Order.{
  Order, OrderItem, OrderDeliveryNovaPost, new, pending, DeliveryService, own, novapost, blank,
  fulfilment, payment,
}
use store_evix.Models.Cart.{Cart, converted}
use store_evix.Models.Db.{Db}
use store_evix.Stock.{Take, Taken, taken, out_of_stock as short, take_all}
use store_evix.Stock.Rows.{Sku, on_hand, plus}
use store_evix.Stock.Demand.{demand, stock_of, IsPositive, Draws, Outcome, take_all-Outcome}
use store_evix.Checkout.Choice.{CheckoutError, out_of_stock, PricedLine, DeliveryChoice}
use store_evix.Checkout.Lines.{CarrierSnapshot}
use store_evix.Checkout.Place.{
  FreshOrder, OrderRequest, new_order, order_item, carrier_row, carrier_rows, cart_key,
  mark_cart_converted, stage_order, initial_history, take_of, finish, persist_order,
}

abbrev pub takes : List PricedLine → List Take
takes lines = map take_of lines

-- The row of an order says what was asked for, as new and unpaid.
pub record IsOrderOf (f : FreshOrder) (r : OrderRequest) (o : Order) : Type 0 where
  pub key : (o.id ≡ f.id) × (o.number ≡ f.number)
  pub buyer : (o.user_id ≡ r.user_id) × (o.email ≡ r.email) × (o.phone ≡ r.phone)
  pub state : (o.status ≡ new) × (o.payment_status ≡ pending)
  pub subtotal : o.subtotal ≡ r.totals.subtotal
  pub discount : o.discount_total ≡ r.totals.discount_total
  pub delivery : o.delivery_cost ≡ r.totals.delivery_cost
  pub total : o.total ≡ r.totals.total
  pub paid_by : o.payment_method ≡ r.payment_method
  pub coupon : o.promo_code ≡ r.promo_code

-- The rows of its lines: the product, the variant, the name, the price and the quantity of each.
abbrev pub AreItems : ℕ → List PricedLine → List OrderItem → Type 0
AreItems id [] [] = Unit
AreItems id [] (_ ∷ _) = ⊥
AreItems id (_ ∷ _) [] = ⊥
AreItems id (l ∷ ls) (i ∷ is) =
    ((i.order_id ≡ id)
      × (i.product_id ≡ some l.product_id)
      × (i.variant_id ≡ l.variant_id)
      × (i.name_snapshot ≡ l.name)
      × (i.price_snapshot ≡ l.price)
      × (i.qty ≡ l.qty))
    × AreItems id ls is

abbrev pub grams : List PricedLine → ℕ
grams [] = 0
grams (l ∷ ls) = l.weight_g * l.qty + grams ls

-- The destination that the carrier named.
abbrev pub GoesTo : Option CarrierSnapshot → OrderDeliveryNovaPost → Type 0
GoesTo none row = (row.settlement_id ≡ none) × (row.division_id ≡ none)
GoesTo (some s) row =
    (row.settlement_id ≡ s.settlement_id)
    × (row.settlement_name ≡ s.settlement_name)
    × (row.division_id ≡ s.division_id)
    × (row.division_address ≡ s.division_address)

pub record IsCarrierRow (f : FreshOrder) (r : OrderRequest) (lines : List PricedLine)
    (c : DeliveryChoice) (row : OrderDeliveryNovaPost) : Type 0 where
  pub order : row.order_id ≡ f.id
  pub destination : GoesTo r.np_snapshot row
  pub address : row.address_parts ≡ c.np_address
  pub weight : row.parcel_weight_g ≡ some (grams lines)
  pub cost : 0 < r.totals.delivery_cost → row.calculated_cost ≡ some r.totals.delivery_cost
  pub free : r.totals.delivery_cost ≡ 0 → row.calculated_cost ≡ none
  pub no_waybill : (row.awb_id ≡ none) × (row.awb_number ≡ none)

-- One row where the carrier delivers, and none otherwise.
abbrev pub CarriedBy :
    FreshOrder
    → OrderRequest
    → List PricedLine
    → DeliveryChoice
    → DeliveryService
    → List OrderDeliveryNovaPost
    → Type 0
CarriedBy f r lines c own rows = rows ≡ []
CarriedBy f r lines c novapost rows =
    (row : OrderDeliveryNovaPost) × (rows ≡ row ∷ []) × IsCarrierRow f r lines c row

abbrev pub Carried :
    FreshOrder
    → OrderRequest
    → List PricedLine
    → Option DeliveryChoice
    → List OrderDeliveryNovaPost
    → Type 0
Carried f r lines none rows = rows ≡ []
Carried f r lines (some c) rows = CarriedBy f r lines c c.service rows

-- The cart that is named is converted, and every other stays.
abbrev pub Converts : Option ℕ → List Cart → List Cart → Type 0
Converts none carts carts' = carts' ≡ carts
Converts (some id) carts carts' =
    ((c : Cart)
      → find cart_key id carts ≡ some c
      → find cart_key id carts' ≡ some (record c { status = converted }))
    × ((k : ℕ) → id ≢ k → find cart_key k carts' ≡ find cart_key k carts)

-- What an order that was written leaves of the database.
pub record Written (f : FreshOrder) (r : OrderRequest) (lines : List PricedLine) (db : Db)
    (db' : Db) : Type 0 where
  pub orders : db'.orders ≡ db.orders ++ new_order f r ∷ []
  pub ordered : IsOrderOf f r (new_order f r)
  pub items : db'.order_items ≡ db.order_items ++ map (order_item f.id) lines
  pub itemized : AreItems f.id lines (map (order_item f.id) lines)
  pub carriers :
      (rows : List OrderDeliveryNovaPost) × (db'.carriers ≡ db.carriers ++ rows)
      × Carried f r lines r.choice rows
  pub carts : Converts r.cart_id db.carts db'.carts
  pub promos : db'.promos ≡ db.promos
  pub history :
      db'.history
      ≡ db.history
        ++ (record {
          order_id = f.id;
          from_status = blank;
          to_status = fulfilment new;
          changed_by = "system";
        }
            ∷ record {
              order_id = f.id;
              from_status = blank;
              to_status = payment pending;
              changed_by = "system";
            }
            ∷ [])
  pub stock :
      (k : Sku)
      → (on_hand db.stock k ≡ plus (demand k (takes lines)) (on_hand db'.stock k))
        × (demand k (takes lines) ≤ stock_of (on_hand db.stock k))

-- The order is written and each row of stock gives what the lines ask of it, or a row is short, a
-- line on it is named, and nothing is changed.
abbrev pub Persisted :
    FreshOrder → OrderRequest → List PricedLine → Db → Result CheckoutError Order × Db → Type 0
Persisted f r lines db (ok o, db') = (o ≡ new_order f r) × Written f r lines db db'
Persisted f r lines db (err (out_of_stock p), db') =
    (db' ≡ db)
    × ((k : Sku) × (stock_of (on_hand db.stock k) < demand k (takes lines))
        × Draws p k (takes lines))
Persisted f r lines db (err _, db') = ⊥

abbrev pub staged : FreshOrder → OrderRequest → List PricedLine → Db → Db
staged f r lines db =
    initial_history f.id (mark_cart_converted r.cart_id (stage_order f r lines db))

-- The request from where the stock has been taken or not.
abbrev after_take :
    FreshOrder → OrderRequest → List PricedLine → Db → Taken → Result CheckoutError Order × Db
after_take f r lines db t =
    run_request
      (λ s.
        let (a, s') = finish t (record s { work = staged f r lines db }) in
        continue a (λ _ z. (ok (new_order f r), z)) s')
      db

itemized_by : (id : ℕ) (ls : List PricedLine) → AreItems id ls (map (order_item id) ls)
itemized_by id [] = tt
itemized_by id (l ∷ ls) = ((refl, refl, refl, refl, refl, refl), itemized_by id ls)

grams_sum : (ls : List PricedLine) → sum_of (λ l. l.weight_g * l.qty) ls ≡ grams ls
grams_sum [] = refl
grams_sum (l ∷ ls) = ap (λ n. l.weight_g * l.qty + n) (grams_sum ls)

converts : (id : Option ℕ) (db : Db) → Converts id db.carts (mark_cart_converted id db).carts
converts none db = refl
converts (some id) db = (
  λ c found. ground (
    arith,
    find-modify cart_key id id (λ r. record r { status = converted }) db.carts (λ r. refl),
  ),
  λ k other. ground (
    arith,
    find-modify cart_key k id (λ r. record r { status = converted }) db.carts (λ r. refl),
  ),
)

module _ (f : FreshOrder) (r : OrderRequest) (lines : List PricedLine) where
  goes_to :
      (snap : Option CarrierSnapshot) (c : DeliveryChoice)
      → GoesTo snap (carrier_row f (record r { np_snapshot = snap }) c lines)
  goes_to none c = (refl, refl)
  goes_to (some s) c = (refl, refl, refl, refl)

  carried_by :
      (c : DeliveryChoice) (s : DeliveryService)
      → CarriedBy f r lines c s (carrier_rows f r (some (record c { service = s })) lines)
  carried_by c own = refl
  carried_by c novapost = (
    carrier_row f r c lines,
    refl,
    record {
      order = refl;
      destination = goes_to r.np_snapshot c;
      address = refl;
      weight = ap (λ n. some n) (grams_sum lines);
      cost = λ h. ground arith;
      free = λ h. ground arith;
      no_waybill = (refl, refl);
    },
  )

  carried : (o : Option DeliveryChoice) → Carried f r lines o (carrier_rows f r o lines)
  carried none = refl
  carried (some c) = carried_by c c.service

  module _ (db : Db) (t : Stock) (h : Outcome db.stock (takes lines) (taken t)) where
    -- Marking the cart touches no other table.
    abbrev of_cart : Option ℕ → Db
    of_cart cart =
        record (initial_history f.id (mark_cart_converted cart (stage_order f r lines db))) {
          stock = t;
        }

    other_tables :
        (cart : Option ℕ)
        → ((of_cart cart).orders ≡ db.orders ++ new_order f r ∷ [])
          × ((of_cart cart).order_items ≡ db.order_items ++ map (order_item f.id) lines)
          × ((of_cart cart).carriers ≡ db.carriers ++ carrier_rows f r r.choice lines)
          × ((of_cart cart).promos ≡ db.promos)
          × ((of_cart cart).history ≡ (initial_history f.id db).history)
          × ((of_cart cart).carts ≡ (mark_cart_converted cart db).carts)
    other_tables none = (refl, refl, refl, refl, refl, refl)
    other_tables (some c) = (refl, refl, refl, refl, refl, refl)

    written : Written f r lines db (record (staged f r lines db) { stock = t })
    written =
        let (orders, items, carriers, promos, history, carts) = other_tables r.cart_id in
        record {
          orders = orders;
          ordered = record {
            key = (refl, refl);
            buyer = (refl, refl, refl);
            state = (refl, refl);
            subtotal = refl;
            discount = refl;
            delivery = refl;
            total = refl;
            paid_by = refl;
            coupon = refl;
          };
          items = items;
          itemized = itemized_by f.id lines;
          carriers = (carrier_rows f r r.choice lines, carriers, carried r.choice);
          carts = subst (Converts r.cart_id db.carts) (sym carts) (converts r.cart_id db);
          promos = promos;
          history = history ∙ append_assoc db.history _ _;
          stock = h;
        }

after_take-Persisted :
    (f : FreshOrder) (r : OrderRequest) (lines : List PricedLine) (db : Db) (t : Taken)
    → Outcome db.stock (takes lines) t
    → Persisted f r lines db (after_take f r lines db t)
after_take-Persisted f r lines db (taken t) h = (refl, written f r lines db t h)
after_take-Persisted f r lines db (short p) h = (refl, h)

staged_stock :
    (f : FreshOrder) (r : OrderRequest) (lines : List PricedLine) (db : Db) (cart : Option ℕ)
    → (initial_history f.id (mark_cart_converted cart (stage_order f r lines db))).stock ≡ db.stock
staged_stock f r lines db none = refl
staged_stock f r lines db (some c) = refl

run_persist :
    (f : FreshOrder) (r : OrderRequest) (lines : List PricedLine) (db : Db)
    → run_request (persist_order f r lines) db
      ≡ after_take f r lines db (take_all (takes lines) db.stock)
unfolding persist_order
run_persist f r lines db =
    ap (λ s. after_take f r lines db (take_all (takes lines) s))
      (staged_stock f r lines db r.cart_id)

-- Lines of positive quantities are placed together or not at all. Placed: the order stands in the
-- database as new and unpaid, with the buyer, the totals and the coupon of the request; each line
-- with its price; a row for the carrier exactly where it delivers, with the destination, the weight and
-- the cost; the named cart is converted and no other; both audit rows are written; and every row of
-- stock has lost exactly what the lines ask of it, which it had. Refused: for want of stock only, with a product
-- named that has a line on a row which is asked for more than it has, and the database is as before.
pub persist_order-Persisted :
    (f : FreshOrder) (r : OrderRequest) (lines : List PricedLine) (db : Db)
    → IsPositive (takes lines)
    → Persisted f r lines db (run_request (persist_order f r lines) db)
persist_order-Persisted f r lines db h =
    subst (Persisted f r lines db) (sym (run_persist f r lines db)) (
      after_take-Persisted f r lines db (take_all (takes lines) db.stock)
        (take_all-Outcome (takes lines) db.stock h))
