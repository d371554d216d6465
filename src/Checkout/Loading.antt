-- ===== src/Checkout/Loading.antt =====
-- What `_load_cart_lines` of app/services/checkout_service.py promises of the lines that it returns.
use store_evix.Common.{
  ℕ, ◌≡◌, ◌≢◌, refl, ap, sym, Bool, true, ◌&&◌, Option, none, some, List, [], ◌∷◌, String, arith,
  All, select_where, ◌==◌, map,
}
use store_evix.Common.Session.{Result, ok, err}
use store_evix.Models.Cart.{Cart, CartStatus, draft, converted, abandoned}
use store_evix.Models.Db.{Db}
use store_evix.Stock.Demand.{IsPositive}
use store_evix.Checkout.Choice.{CheckoutError, PricedLine}
use store_evix.Checkout.Lines.{
  Shop, is_draft, owned_by, scalar_one_or_none, get_active_cart, cart_rows, list_cart_lines,
  price_lines, with_cart, lines_of_cart, load_cart_lines, normalize_lang,
}
use store_evix.Checkout.Place.{take_of}
use store_evix.Checkout.Sellable.{
  IsSellable, IsPositiveCart, IsJoined, select-All, sort-All, join-All, price_lines-All,
}

-- The caller's own cart: the user's if there is one, the guest's otherwise; in either case a draft.
abbrev pub IsCartOf : Option ℕ → Option ℕ → Cart → Type 0
IsCartOf (some user) token c = (c.user_id ≡ some user) × (c.status ≡ draft)
IsCartOf none (some token) c = (c.session_token ≡ some token) × (c.status ≡ draft)
IsCartOf none none c = ⊥

selected-test :
    (p : Cart → Bool) (cs rest : List Cart) (c : Cart) → select_where p cs ≡ c ∷ rest → p c ≡ true
selected-test p [] rest c e = cc
selected-test p (d ∷ cs) rest c e = ground (arith, selected-test p cs rest c)

only_one : (cs : List Cart) (c : Cart) → scalar_one_or_none cs ≡ ok (some c) → cs ≡ c ∷ []
only_one [] c e = cc
only_one (d ∷ []) c e = cc
only_one (d ∷ f ∷ cs) c e = cc

owned_draft :
    (c : Cart) (k : ℕ) (o : Option ℕ)
    → (owned_by o (some k) && is_draft c.status) ≡ true
    → (o ≡ some k) × (c.status ≡ draft)
owned_draft c k none e = cc
owned_draft c k (some j) e = ground (arith, draft_of c.status)
  where
    draft_of : (s : CartStatus) → is_draft s ≡ true → s ≡ draft
    draft_of draft e = refl
    draft_of converted e = cc
    draft_of abandoned e = cc

get_active_cart-IsCartOf :
    (user token : Option ℕ) (cs : List Cart) (c : Cart)
    → get_active_cart user token cs ≡ ok (some c)
    → IsCartOf user token c
unfolding get_active_cart
get_active_cart-IsCartOf (some user) token cs c e =
    owned_draft c user c.user_id (selected-test _ cs [] c (only_one _ c e))
get_active_cart-IsCartOf none (some token) cs c e =
    owned_draft c token c.session_token (selected-test _ cs [] c (only_one _ c e))
get_active_cart-IsCartOf none none cs c e = cc

abbrev pub Loaded : Option ℕ → Option ℕ → Db → Cart → List PricedLine → Type 0
Loaded user token db cart lines =
    IsCartOf user token cart × (lines ≢ []) × All (IsSellable db) lines

loaded_of_cart :
    (shop : Shop) (lang : String) (db : Db) (c cart : Cart)
    (r : Result CheckoutError (List PricedLine)) (lines : List PricedLine)
    → with_cart c r ≡ ok (cart, lines)
    → (cart ≡ c) × (r ≡ ok lines) × (lines ≢ [])
loaded_of_cart shop lang db c cart (err e) lines h = cc
loaded_of_cart shop lang db c cart (ok []) lines h = cc
loaded_of_cart shop lang db c cart (ok (l ∷ ls)) lines h = ground arith

rows-All :
    (id : ℕ) (lang : String) (db : Db)
    → IsPositiveCart db.cart_items
    → All (IsJoined db) (list_cart_lines id lang db)
unfolding list_cart_lines cart_rows
rows-All id lang db h =
    join-All lang db _ (sort-All _ (select-All (λ i. i.cart_id == id) db.cart_items h))

lines_of-Loaded :
    (shop : Shop) (user token : Option ℕ) (lang : Option String) (db : Db) (cart : Cart)
    (lines : List PricedLine) (r : Result CheckoutError (Option Cart))
    → ((c : Cart) → r ≡ ok (some c) → IsCartOf user token c)
    → IsPositiveCart db.cart_items
    → lines_of_cart shop lang db r ≡ ok (cart, lines)
    → Loaded user token db cart lines
lines_of-Loaded shop user token lang db cart lines (err e) own h eq = cc
lines_of-Loaded shop user token lang db cart lines (ok none) own h eq = cc
lines_of-Loaded shop user token lang db cart lines (ok (some c)) own h eq =
    let norm = normalize_lang shop lang in
    let (same, is_priced, full) =
      loaded_of_cart shop norm db c cart (price_lines shop norm db (list_cart_lines c.id norm db))
        lines eq in
    (
      own cart (ap (λ x. ok (some x)) (sym same)),
      full,
      price_lines-All shop norm db (list_cart_lines c.id norm db) lines (rows-All c.id norm db h)
          is_priced,
    )

-- Where the lines of the carts have positive quantities: a cart that loads is the caller's own
-- draft, it has at least one line, and every line is of an active product (and variant, if it names
-- one), at its current price, and asks for no more than is in stock.
pub load_cart_lines-Loaded :
    (shop : Shop) (user token : Option ℕ) (lang : Option String) (db : Db) (cart : Cart)
    (lines : List PricedLine)
    → IsPositiveCart db.cart_items
    → load_cart_lines shop user token lang db ≡ ok (cart, lines)
    → Loaded user token db cart lines
unfolding load_cart_lines
load_cart_lines-Loaded shop user token lang db cart lines h e =
    lines_of-Loaded shop user token lang db cart lines (get_active_cart user token db.carts)
      (get_active_cart-IsCartOf user token db.carts) h e

sellable-IsPositive :
    (db : Db) (lines : List PricedLine) → All (IsSellable db) lines → IsPositive (map take_of lines)
sellable-IsPositive db [] h = tt
sellable-IsPositive db (l ∷ ls) ((p, found, active, positive, held), hs) =
    (positive, sellable-IsPositive db ls hs)

pub loaded-IsPositive :
    (shop : Shop) (user token : Option ℕ) (lang : Option String) (db : Db) (cart : Cart)
    (lines : List PricedLine)
    → IsPositiveCart db.cart_items
    → load_cart_lines shop user token lang db ≡ ok (cart, lines)
    → IsPositive (map take_of lines)
loaded-IsPositive shop user token lang db cart lines h e =
    sellable-IsPositive db lines (load_cart_lines-Loaded shop user token lang db cart lines h e).2
