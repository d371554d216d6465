-- ===== src/Cards/Defs.antt =====
-- Publication and the read model: assert_publishable and rebuild_card of
-- app/services/catalog_service.py, and their reads in app/repositories/catalog_repo.py.
use store_evix.Common.{
  ℕ, min, max, Bool, true, false, not, ◌&&◌, Option, none, some, List, [], ◌∷◌, ◌++◌, map, String,
  select_where, any, sum_of, ltb, ◌==◌, opt_eq, str_eq, if◌then◌else◌, is_some,
}
use store_evix.Common.Table.{find, modify, remove}
use store_evix.Common.Session.{pure, gets, or_raise, raise_if, write, ◌>>=◌, ◌>>◌}
use store_evix.Models.Catalog.{Product, ProductTranslation, ProductVariant}
use store_evix.Models.CatalogDb.{Category, Media, ProductCard, CatalogDb}
use store_evix.Categories.{CatalogAction, not_found, publication, category_id}

abbrev pub product_key : Product → ℕ
product_key p = p.id

abbrev pub translations_of : ℕ → CatalogDb → List ProductTranslation
translations_of id db = select_where (λ t. t.product_id == id) db.translations

abbrev pub sold : ℕ → ProductVariant → Bool
sold id v = (v.product_id == id) && v.is_active

abbrev pub sold_variants : ℕ → CatalogDb → List ProductVariant
sold_variants id db = select_where (sold id) db.variants

abbrev pub media_of : ℕ → CatalogDb → List Media
media_of id db = select_where (λ m. m.product_id == id) db.media

-- SQL's MIN and MAX, which are null on no rows.
abbrev pub least : ℕ → Option ℕ → Option ℕ
least a none = some a
least a (some b) = some (min a b)

abbrev pub greatest : ℕ → Option ℕ → Option ℕ
greatest a none = some a
greatest a (some b) = some (max a b)

abbrev pub min_price : List ProductVariant → Option ℕ
min_price [] = none
min_price (v ∷ vs) = least v.price (min_price vs)

abbrev pub max_price : List ProductVariant → Option ℕ
max_price [] = none
max_price (v ∷ vs) = greatest v.price (max_price vs)

abbrev pub reduced : ℕ → Option ℕ → Bool
reduced price none = false
reduced price (some old) = ltb price old

pub record Aggregate : Type 0 where
  pub v_min : Option ℕ
  pub v_max : Option ℕ
  pub any_stock : Bool
  pub any_sale : Bool
  pub total_qty : ℕ

-- The aggregate of the active variants.
unfoldable pub get_variant_aggregate : List ProductVariant → Aggregate
get_variant_aggregate vs = record {
  v_min = min_price vs;
  v_max = max_price vs;
  any_stock = any (λ v. ltb 0 v.qty) vs;
  any_sale = any (λ v. reduced v.price v.old_price) vs;
  total_qty = sum_of (λ v. v.qty) vs;
}

-- `ORDER BY position, id LIMIT 1`
abbrev pub comes_first : Media → Media → Bool
comes_first a b =
    if ltb a.position b.position then true else (a.position == b.position) && ltb a.id b.id

abbrev pub first_of : Media → Option Media → Option Media
first_of m none = some m
first_of m (some n) = some (if comes_first n m then n else m)

abbrev pub lowest : List Media → Option Media
lowest [] = none
lowest (m ∷ ms) = first_of m (lowest ms)

abbrev pub url_of : Option Media → Option String
url_of none = none
url_of (some m) = some m.url

unfoldable pub get_main_image_url : List Media → Option String
get_main_image_url ms = url_of (lowest ms)

abbrev pub has_language : String → List ProductTranslation → Bool
has_language lang ts = any (λ t. str_eq t.lang lang) ts

-- Both languages, and for a variable product an active variant.
abbrev pub publishable : Product → List ProductTranslation → List ProductVariant → Bool
publishable p ts vs =
    (has_language "ru" ts && has_language "ro" ts)
    && (if p.has_variants then is_some (get_variant_aggregate vs).v_min else true)

unfoldable pub assert_publishable : ℕ → CatalogAction (Unit {0})
assert_publishable id = do
  found ← gets (λ db. find product_key id db.products)
  product ← or_raise found not_found
  fit ← gets (λ db. publishable product (translations_of id db) (sold_variants id db))
  raise_if (not fit) publication

abbrev pub path_or : ℕ → Option Category → List ℕ
path_or id none = id ∷ []
path_or id (some c) = c.path

abbrev pub compute_badge : Bool → Option String
compute_badge has_old_price = if has_old_price then some "sale" else none

-- What the cards of a product are made of, besides the product's row.
pub record Sources : Type 0 where
  pub category : Option Category
  pub translations : List ProductTranslation
  pub variants : List ProductVariant
  pub image : Option String

unfoldable pub sources : Product → CatalogDb → Sources
sources p db = record {
  category = find category_id p.category_id db.categories;
  translations = translations_of p.id db;
  variants = sold_variants p.id db;
  image = get_main_image_url (media_of p.id db);
}

-- The price, the struck-through price, the top of the range, and the flags of a card.
pub record Offer : Type 0 where
  pub price : ℕ
  pub old_price : Option ℕ
  pub price_max : Option ℕ
  pub in_stock : Bool
  pub on_sale : Bool

abbrev pub priced_at : Product → Aggregate → Option ℕ → Offer
priced_at p a none = record {
  price = p.price;
  old_price = none;
  price_max = none;
  in_stock = a.any_stock;
  on_sale = a.any_sale;
}
priced_at p a (some lowest) = record {
  price = lowest;
  old_price = none;
  price_max = if opt_eq a.v_max (some lowest) then none else a.v_max;
  in_stock = a.any_stock;
  on_sale = a.any_sale;
}

unfoldable pub offer : Product → List ProductVariant → Offer
offer p vs =
    if p.has_variants
    then priced_at p (get_variant_aggregate vs) (get_variant_aggregate vs).v_min
    else record {
      price = p.price;
      old_price = p.old_price;
      price_max = none;
      in_stock = ltb 0 p.qty;
      on_sale = is_some p.old_price;
    }

-- The row's own price and stock follow the variants.
abbrev pub aggregated : Aggregate → Option ℕ → Product → Product
aggregated a none p = p
aggregated a (some lowest) p = record p { price = lowest; qty = a.total_qty }

abbrev pub synced : List ProductVariant → Product → Product
synced vs p =
    if p.has_variants
    then aggregated (get_variant_aggregate vs) (get_variant_aggregate vs).v_min p
    else p

unfoldable pub card_row : Product → Sources → ProductTranslation → ProductCard
card_row p src t =
    let o = offer p src.variants in
    record {
      product_id = p.id;
      lang = t.lang;
      category_id = p.category_id;
      name = t.name;
      slug = t.slug;
      price = o.price;
      old_price = o.old_price;
      price_max = o.price_max;
      in_stock = o.in_stock;
      main_image_url = src.image;
      badge = compute_badge o.on_sale;
      path = path_or p.category_id src.category;
      is_active = p.is_active;
      is_featured = p.is_featured;
    }

abbrev pub set_products : List Product → CatalogDb → CatalogDb
set_products ps db = record db { products = ps }

abbrev pub set_cards : List ProductCard → CatalogDb → CatalogDb
set_cards cs db = record db { cards = cs }

unfoldable pub delete_product_cards : ℕ → CatalogDb → CatalogDb
delete_product_cards id db = set_cards (remove (λ c. c.product_id) id db.cards) db

-- The cards of an active product: one for each translation.
abbrev pub write_cards : Product → Sources → CatalogAction (Unit {0})
write_cards p src = do
  write (λ db. set_products (modify product_key p.id (synced src.variants) db.products) db)
  write (λ db. set_cards (db.cards ++ map (card_row p src) src.translations) db)

abbrev pub write_active : Product → Bool → CatalogAction (Unit {0})
write_active p false = pure tt
write_active p true = do assert_publishable p.id; src ← gets (sources p); write_cards p src

unfoldable pub rebuild_card : ℕ → CatalogAction (Unit {0})
unfolding delete_product_cards
rebuild_card id = do
  found ← gets (λ db. find product_key id db.products)
  product ← or_raise found not_found
  write (delete_product_cards id)
  write_active product product.is_active

unfoldable pub rebuild_cards : List ℕ → CatalogAction (Unit {0})
rebuild_cards [] = pure tt
rebuild_cards (id ∷ ids) = do rebuild_card id; rebuild_cards ids
