-- ===== src/Products/Defs.antt =====
-- The product operations of AdminCatalogService, in the order of
-- app/services/admin_catalog_service.py. The stored image files and the queue of the search engine
-- are left out.
use store_evix.Common.{
  ℕ, Bool, not, ◌&&◌, Option, none, some, List, [], ◌∷◌, ◌++◌, map, String, select_where, any,
  contains, ltb, ◌==◌, str_eq, if◌then◌else◌,
}
use store_evix.Common.Table.{find, modify, remove}
use store_evix.Common.Patch.{Patch, unset, assign, patched}
use store_evix.Common.Session.{pure, gets, or_raise, write, commit, ◌>>=◌, ◌>>◌}
use store_evix.Models.Catalog.{Product, ProductTranslation, ProductVariant}
use store_evix.Models.CatalogDb.{ProductVariantValue, CatalogDb}
use store_evix.Categories.{CatalogAction, not_found, get_category}
use store_evix.Cards.{
  product_key, set_products, delete_product_cards, assert_publishable, rebuild_cards,
}

unfoldable pub get_product : ℕ → CatalogAction Product
get_product id = do found ← gets (λ db. find product_key id db.products); or_raise found not_found

pub record ProductTranslationIn : Type 0 where
  pub lang : String
  pub name : String
  pub slug : String

abbrev pub product_translation : ℕ → ProductTranslationIn → ProductTranslation
product_translation id t = record { product_id = id; lang = t.lang; name = t.name; slug = t.slug }

abbrev pub set_translations : List ProductTranslation → CatalogDb → CatalogDb
set_translations ts db = record db { translations = ts }

-- `assert_publishable` for a product that is to be shown.
abbrev pub publish_check : Bool → ℕ → CatalogAction (Unit {0})
publish_check active id = if active then assert_publishable id else pure tt

abbrev pub rebuild_active : Bool → ℕ → CatalogAction (Unit {0})
rebuild_active active id = if active then rebuild_cards (id ∷ []) else pure tt

-- `payload` is the new row, with the primary key that the sequence assigns.
unfoldable pub create_product : Product → List ProductTranslationIn → CatalogAction Product
create_product payload translations = do
  category ← get_category payload.category_id
  write (λ db. set_products (db.products ++ payload ∷ []) db)
  write (λ db.
      set_translations (db.translations ++ map (product_translation payload.id) translations) db)
  publish_check payload.is_active payload.id
  rebuild_active payload.is_active payload.id
  commit
  pure payload

pub record ProductUpdate : Type 0 where
  pub category_id : Patch ℕ
  pub code : Patch String
  pub price : Patch ℕ
  pub old_price : Patch (Option ℕ)
  pub qty : Patch ℕ
  pub weight_g : Patch (Option ℕ)
  pub is_active : Patch Bool
  pub is_featured : Patch Bool
  pub has_variants : Patch Bool

abbrev pub product_changes : ProductUpdate → Product → Product
product_changes u p = record p {
  category_id = patched u.category_id p.category_id;
  code = patched u.code p.code;
  price = patched u.price p.price;
  old_price = patched u.old_price p.old_price;
  qty = patched u.qty p.qty;
  weight_g = patched u.weight_g p.weight_g;
  is_active = patched u.is_active p.is_active;
  is_featured = patched u.is_featured p.is_featured;
  has_variants = patched u.has_variants p.has_variants;
}

abbrev pub category_exists : Patch ℕ → CatalogAction (Unit {0})
category_exists unset = pure tt
category_exists (assign c) = get_category c >>= λ _. pure tt

-- Stock came back: whoever waits for the product is told.
unfoldable pub notify_if_restocked : ℕ → ℕ → Bool
notify_if_restocked old_qty new_qty = (old_qty == 0) && ltb 0 new_qty

abbrev pub stock_of : Option Product → ℕ
stock_of none = 0
stock_of (some p) = p.qty

-- Whether the restock task is queued after the commit.
unfoldable pub update_product : ℕ → ProductUpdate → CatalogAction Bool
unfolding get_product
update_product id u = do
  product ← get_product id
  category_exists u.category_id
  write (λ db. set_products (modify product_key id (product_changes u) db.products) db)
  publish_check (product_changes u product).is_active id
  rebuild_cards (id ∷ [])
  commit
  refreshed ← gets (λ db. find product_key id db.products)
  pure (notify_if_restocked product.qty (stock_of refreshed))

abbrev pub variant_ids : ℕ → List ProductVariant → List ℕ
variant_ids id vs = map (λ v. v.id) (select_where (λ v. v.product_id == id) vs)

abbrev pub without_values : List ℕ → List ProductVariantValue → List ProductVariantValue
without_values ids links = select_where (λ l. not (contains l.variant_id ids)) links

-- The rows of a product in the other tables, then the product.
abbrev pub drop_product : ℕ → CatalogDb → CatalogDb
drop_product id db = record db {
  translations = remove (λ t. t.product_id) id db.translations;
  media = remove (λ m. m.product_id) id db.media;
  product_attributes = remove (λ a. a.product_id) id db.product_attributes;
  variant_values = without_values (variant_ids id db.variants) db.variant_values;
  variation_attributes = remove (λ a. a.product_id) id db.variation_attributes;
  variants = remove (λ v. v.product_id) id db.variants;
  products = remove product_key id db.products;
}

unfoldable pub delete_product : ℕ → CatalogAction (Unit {0})
unfolding get_product delete_product_cards
delete_product id = do
  product ← get_product id
  write (λ db. delete_product_cards id (drop_product id db))
  commit

abbrev pub in_language : ℕ → String → ProductTranslation → Bool
in_language id lang t = (t.product_id == id) && str_eq t.lang lang

abbrev pub retranslate :
    ℕ → ProductTranslationIn → List ProductTranslation → List ProductTranslation
retranslate id p [] = []
retranslate id p (t ∷ ts) =
    (if in_language id p.lang t then product_translation id p else t) ∷ retranslate id p ts

abbrev pub put_translation :
    ℕ → ProductTranslationIn → List ProductTranslation → List ProductTranslation
put_translation id p ts =
    if any (in_language id p.lang) ts
    then retranslate id p ts
    else ts ++ product_translation id p ∷ []

unfoldable pub set_product_translation : ℕ → ProductTranslationIn → CatalogAction (Unit {0})
unfolding get_product
set_product_translation id payload = do
  product ← get_product id
  write (λ db. set_translations (put_translation id payload db.translations) db)
  publish_check product.is_active id
  rebuild_cards (id ∷ [])
  commit
