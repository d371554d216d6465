-- ===== src/Cart/Defs.antt =====
-- The operations of the cart service.
use store_evix.Common.{
  ℕ, ◌+◌, ◌*◌, Bool, false, not, ◌&&◌, ◌||◌, Option, none, some, List, [], ◌∷◌, ◌++◌, String,
  sum_of, select_where, if◌then◌else◌, opt_eq, ◌==◌, is_some,
}
use store_evix.Common.Table.{find, remove}
use store_evix.Common.Session.{
  Result, ok, err, Action, pure, raise, gets, lift, raise_if, write, commit, ◌>>=◌, ◌>>◌,
}
use store_evix.Models.Catalog.{Product, ProductVariant}
use store_evix.Models.Cart.{Cart, CartItem, draft}
use store_evix.Models.Db.{Db}
use store_evix.Stock.{product_key, variant_key}
use store_evix.Checkout.{
  Shop, CartLine, is_draft, owned_by, normalize_lang, list_cart_lines, is_stale, unit_price,
  variant_row, text_or,
}

-- The leaves of the class CartError, and the failure of `scalar_one_or_none` when a caller has two
-- draft carts.
pub data CartError : Type 0 where
  product_not_available item_not_found multiple_results_found : CartError

abbrev pub CartAction : Type 0 → Type 0
CartAction = Action Db CartError

abbrev pub only_cart : List Cart → Result CartError (Option Cart)
only_cart [] = ok none
only_cart (c ∷ []) = ok (some c)
only_cart (c ∷ d ∷ cs) = err multiple_results_found

abbrev pub get_cart_by_user : ℕ → List Cart → Result CartError (Option Cart)
get_cart_by_user user carts =
    only_cart (select_where (λ c. owned_by c.user_id (some user) && is_draft c.status) carts)

abbrev pub get_cart_by_session_token : ℕ → List Cart → Result CartError (Option Cart)
get_cart_by_session_token token carts =
    only_cart (select_where (λ c. owned_by c.session_token (some token) && is_draft c.status) carts)

-- `_get_cart`
unfoldable pub find_cart : Option ℕ → Option ℕ → List Cart → Result CartError (Option Cart)
find_cart (some user) token carts = get_cart_by_user user carts
find_cart none (some token) carts = get_cart_by_session_token token carts
find_cart none none carts = ok none

-- The new cart belongs to the user where there is one, and to the guest otherwise.
abbrev pub new_cart : ℕ → Option ℕ → Option ℕ → Cart
new_cart id (some user) token = record {
  id = id;
  user_id = some user;
  session_token = none;
  status = draft;
}
new_cart id none token = record { id = id; user_id = none; session_token = token; status = draft }

abbrev pub or_create : ℕ → Option ℕ → Option ℕ → Option Cart → CartAction Cart
or_create id user token (some c) = pure c
or_create id user token none = do
  write (λ db. record db { carts = db.carts ++ new_cart id user token ∷ [] })
  pure (new_cart id user token)

unfoldable pub get_or_create_cart : ℕ → Option ℕ → Option ℕ → CartAction Cart
unfolding find_cart
get_or_create_cart id user token = do
  found ← gets (λ db. find_cart user token db.carts)
  cart ← lift found
  or_create id user token cart

-- `_variant_match`, with the cart and the product.
abbrev pub is_line : ℕ → ℕ → Option ℕ → CartItem → Bool
is_line cart_id product_id variant_id i =
    (i.cart_id == cart_id && i.product_id == product_id) && opt_eq i.variant_id variant_id

unfoldable pub get_item : ℕ → ℕ → Option ℕ → List CartItem → Option CartItem
get_item c p v [] = none
get_item c p v (i ∷ is) = let rest = get_item c p v is in if is_line c p v i then some i else rest

-- A write to the row that `get_item` has found.
abbrev pub change_line : ℕ → ℕ → Option ℕ → (CartItem → CartItem) → List CartItem → List CartItem
change_line c p v f [] = []
change_line c p v f (i ∷ is) =
    let rest = change_line c p v f is in if is_line c p v i then f i ∷ is else i ∷ rest

abbrev pub add_qty : ℕ → CartItem → CartItem
add_qty n i = record i { qty = i.qty + n }

abbrev pub set_qty : ℕ → CartItem → CartItem
set_qty n i = record i { qty = n }

abbrev pub new_item : ℕ → ℕ → ℕ → Option ℕ → ℕ → CartItem
new_item id c p v n = record { id = id; cart_id = c; product_id = p; variant_id = v; qty = n }

-- `id` is the key of the new row, where one is inserted.
unfoldable pub add_or_increment_item : ℕ → ℕ → ℕ → Option ℕ → ℕ → List CartItem → List CartItem
unfolding get_item
add_or_increment_item id c p v n is =
    if is_some (get_item c p v is)
    then change_line c p v (add_qty n) is
    else is ++ new_item id c p v n ∷ []

-- Whether there was such a line, and the lines afterwards.
unfoldable pub set_item_qty : ℕ → ℕ → Option ℕ → ℕ → List CartItem → Bool × List CartItem
unfolding get_item
set_item_qty c p v n is = (is_some (get_item c p v is), change_line c p v (set_qty n) is)

unfoldable pub delete_item : ℕ → ℕ → Option ℕ → List CartItem → Bool × List CartItem
unfolding get_item
delete_item c p v is = (is_some (get_item c p v is), select_where (λ i. not (is_line c p v i)) is)

pub record CartItemOut : Type 0 where
  pub product_id : ℕ
  pub variant_id : Option ℕ
  pub name : String
  pub price : ℕ
  pub qty : ℕ
  pub line_total : ℕ

pub record CartOut : Type 0 where
  pub items : List CartItemOut
  pub subtotal : ℕ
  pub item_count : ℕ

abbrev pub shown_line : CartLine → Option ProductVariant → CartItemOut
shown_line l v = record {
  product_id = l.product.id;
  variant_id = l.item.variant_id;
  name = text_or l.name l.product.code;
  price = unit_price v l.product;
  qty = l.item.qty;
  line_total = unit_price v l.product * l.item.qty;
}

abbrev pub is_hidden : CartLine → Option ProductVariant → Bool
is_hidden l v = not l.product.is_active || is_stale l.item.variant_id v

abbrev pub shown_lines : Db → List CartLine → List CartItemOut
shown_lines db [] = []
shown_lines db (l ∷ ls) =
    let v = variant_row l.item.variant_id db in
    let rest = shown_lines db ls in if is_hidden l v then rest else shown_line l v ∷ rest

-- `_render`, without the option labels.
unfoldable pub render : Shop → ℕ → Option String → Db → CartOut
unfolding normalize_lang list_cart_lines
render shop cart_id lang db =
    let lines = shown_lines db (list_cart_lines cart_id (normalize_lang shop lang) db) in
    record {
      items = lines;
      subtotal = sum_of (λ l. l.line_total) lines;
      item_count = sum_of (λ l. l.qty) lines;
    }

-- `_resolve_purchasable`
abbrev pub purchasable_variant : Product → Option ProductVariant → Bool
purchasable_variant p none = false
purchasable_variant p (some v) = v.product_id == p.id && v.is_active

abbrev pub chosen_variant : Option ℕ → Db → Option ProductVariant
chosen_variant none db = none
chosen_variant (some id) db = find variant_key id db.stock.variants

abbrev pub is_purchasable : Option Product → Option ℕ → Db → Bool
is_purchasable none variant_id db = false
is_purchasable (some p) variant_id db =
    p.is_active
    && (if p.has_variants
        then purchasable_variant p (chosen_variant variant_id db)
        else not (is_some variant_id))

unfoldable pub resolve_purchasable : ℕ → Option ℕ → CartAction (Unit {0})
resolve_purchasable product_id variant_id = do
  allowed ←
      gets (λ db. is_purchasable (find product_key product_id db.stock.products) variant_id db)
  raise_if (not allowed) product_not_available

abbrev pub set_items : List CartItem → Db → Db
set_items is db = record db { cart_items = is }

-- The keys that the sequences hand out to a new cart and a new line.
pub record FreshKeys : Type 0 where
  pub cart : ℕ
  pub item : ℕ

unfoldable pub add_item :
    Shop → FreshKeys → Option ℕ → Option ℕ → ℕ → ℕ → Option String → Option ℕ → CartAction CartOut
unfolding resolve_purchasable get_or_create_cart add_or_increment_item render
add_item shop keys user token product_id qty lang variant_id = do
  resolve_purchasable product_id variant_id
  cart ← get_or_create_cart keys.cart user token
  write (λ db.
      set_items (add_or_increment_item keys.item cart.id product_id variant_id qty db.cart_items)
        db)
  rendered ← gets (render shop cart.id lang)
  commit
  pure rendered

-- A change of one line of the caller's cart, which has to be there.
abbrev pub change_found : (Bool × List CartItem) → CartAction (Unit {0})
change_found (found, is) = do raise_if (not found) item_not_found; write (set_items is)

abbrev pub existing : Option Cart → CartAction Cart
existing none = raise item_not_found
existing (some c) = pure c

unfoldable pub update_item :
    Shop → Option ℕ → Option ℕ → ℕ → ℕ → Option String → Option ℕ → CartAction CartOut
unfolding find_cart set_item_qty render
update_item shop user token product_id qty lang variant_id = do
  found ← gets (λ db. find_cart user token db.carts)
  maybe_cart ← lift found
  cart ← existing maybe_cart
  changed ← gets (λ db. set_item_qty cart.id product_id variant_id qty db.cart_items)
  change_found changed
  rendered ← gets (render shop cart.id lang)
  commit
  pure rendered

unfoldable pub remove_item :
    Shop → Option ℕ → Option ℕ → ℕ → Option String → Option ℕ → CartAction CartOut
unfolding find_cart delete_item render
remove_item shop user token product_id lang variant_id = do
  found ← gets (λ db. find_cart user token db.carts)
  maybe_cart ← lift found
  cart ← existing maybe_cart
  changed ← gets (λ db. delete_item cart.id product_id variant_id db.cart_items)
  change_found changed
  rendered ← gets (render shop cart.id lang)
  commit
  pure rendered

-- One guest line: its quantity goes to the user's line for the same product and variant, if the
-- user's cart had one when the merge began, and the line is deleted; else the line itself moves.
unfoldable pub merge_line : ℕ → ℕ → List CartItem → CartItem → List CartItem → List CartItem
unfolding get_item delete_item
merge_line user_cart guest_cart before g is =
    if is_some (get_item user_cart g.product_id g.variant_id before)
    then (delete_item guest_cart g.product_id g.variant_id
        (change_line user_cart g.product_id g.variant_id (add_qty g.qty) is)).1
    else change_line guest_cart g.product_id g.variant_id (λ i. record i { cart_id = user_cart }) is

unfoldable pub merge_lines : ℕ → ℕ → List CartItem → List CartItem → List CartItem → List CartItem
unfolding merge_line
merge_lines user_cart guest_cart before [] is = is
merge_lines user_cart guest_cart before (g ∷ gs) is =
    merge_lines user_cart guest_cart before gs (merge_line user_cart guest_cart before g is)

unfoldable pub list_raw_items : ℕ → List CartItem → List CartItem
list_raw_items c is = select_where (λ i. i.cart_id == c) is

abbrev pub cart_id_of : Cart → ℕ
cart_id_of c = c.id

-- `delete_cart` after the loop.
unfoldable pub merge_carts : ℕ → ℕ → Db → Db
unfolding merge_lines list_raw_items
merge_carts user_cart guest_cart db = record db {
  cart_items =
      merge_lines user_cart guest_cart db.cart_items (list_raw_items guest_cart db.cart_items)
        db.cart_items;
  carts = remove cart_id_of guest_cart db.carts;
}

abbrev pub merge_found : Cart → Option Cart → Db → Db
merge_found user_cart none db = db
merge_found user_cart (some g) db =
    if g.id == user_cart.id then db else merge_carts user_cart.id g.id db

unfoldable pub merge_guest_into_user : Shop → ℕ → ℕ → ℕ → Option String → CartAction CartOut
unfolding get_or_create_cart merge_carts render
merge_guest_into_user shop new_key user token lang = do
  user_cart ← get_or_create_cart new_key (some user) none
  found ← gets (λ db. get_cart_by_session_token token db.carts)
  guest_cart ← lift found
  write (merge_found user_cart guest_cart)
  rendered ← gets (render shop user_cart.id lang)
  commit
  pure rendered
