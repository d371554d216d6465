-- ===== src/Products/Requests.antt =====
-- Requests to the product and variant operations.
use mathlib.Core.Path.{subst}
use store_evix.Common.{ℕ, ◌≡◌, sym, none, List}
use store_evix.Common.Table.{find}
use store_evix.Common.Session.{Result, Session, run_request, pure, bind_pure, ◌>>=◌}
use store_evix.Models.Catalog.{Product}
use store_evix.Models.CatalogDb.{CatalogDb}
use store_evix.Categories.{AdminCatalogError, CatalogAction}
use store_evix.Cards.{product_key}
use store_evix.Cards.Sync.{IsSynced}
use store_evix.Products.Defs.{
  ProductTranslationIn, ProductUpdate, create_product, update_product, delete_product,
  set_product_translation,
}
use store_evix.Products.Variants.{
  VariantCreate, VariantUpdate, set_variation_attributes, create_variant, update_variant,
  delete_variant,
}
use store_evix.Products.Generate.{set_product_attributes, generate_variants}
use store_evix.Products.Generated.{set_product_attributes-IsSynced, generate_variants-IsSynced}
use store_evix.Products.Synced.{
  Committed, create_product-IsSynced, update_product-IsSynced, delete_product-IsSynced,
  set_product_translation-IsSynced,
}
use store_evix.Products.SyncedVariants.{
  IsKeyed, set_variation_attributes-IsSynced, create_variant-IsSynced, update_variant-IsSynced,
  delete_variant-IsSynced,
}

-- The requests; a new product or variant comes with its key, a generation with those of its variants.
pub data ProductRequest : Type 0 where
  create : Product → List ProductTranslationIn → ProductRequest
  update : ℕ → ProductUpdate → ProductRequest
  delete : ℕ → ProductRequest
  translate : ℕ → ProductTranslationIn → ProductRequest
  select_by : ℕ → List ℕ → ProductRequest
  add_variant_of : ℕ → ℕ → VariantCreate → ProductRequest
  change_variant : ℕ → VariantUpdate → ProductRequest
  remove_variant : ℕ → ProductRequest
  set_attributes : ℕ → List ℕ → ProductRequest
  generate : ℕ → (ℕ → ℕ) → ProductRequest

abbrev dropped : {A : Type 0} → CatalogAction A → CatalogAction (Unit {0})
dropped m = m >>= λ _. pure tt

abbrev pub serve : ProductRequest → CatalogAction (Unit {0})
serve (create payload translations) = dropped (create_product payload translations)
serve (update id u) = dropped (update_product id u)
serve (delete id) = delete_product id
serve (translate id payload) = set_product_translation id payload
serve (select_by id attributes) = dropped (set_variation_attributes id attributes)
serve (add_variant_of id variant_id payload) = dropped (create_variant variant_id id payload)
serve (change_variant id u) = update_variant id u
serve (remove_variant id) = delete_variant id
serve (set_attributes id values) = dropped (set_product_attributes id values)
serve (generate id keys) = dropped (generate_variants keys id)

-- The sequence hands out keys that no product has.
abbrev pub IsFresh : ProductRequest → CatalogDb → Type 0
IsFresh (create payload _) db = find product_key payload.id db.products ≡ none
IsFresh _ db = Unit

abbrev pub held_after : {A : Type 0} → Result AdminCatalogError A × CatalogDb → CatalogDb
held_after (_, db) = db

dropped-Committed :
    {A : Type 0} (m : CatalogAction A) (s : Session CatalogDb)
    → Committed (m s)
    → Committed (dropped m s)
dropped-Committed m s h =
    subst (λ (t : Session CatalogDb). IsSynced t.committed) (sym (bind_pure m tt s)) h

-- Where the ids of variants are a key and a new product has a key that none has yet: a request to the
-- products or variants, whether it succeeds or raises, leaves a listing that agrees with the tables of
-- one that did.
pub serve-IsSynced :
    (q : ProductRequest) (db : CatalogDb)
    → IsSynced db
    → IsKeyed db.variants
    → IsFresh q db
    → IsSynced (held_after (run_request (serve q) db))
serve-IsSynced (create payload xs) db agrees keyed fresh =
    dropped-Committed (create_product payload xs) _
      (create_product-IsSynced db agrees payload xs fresh)
serve-IsSynced (update id u) db agrees keyed fresh =
    dropped-Committed (update_product id u) _ (update_product-IsSynced db agrees id u)
serve-IsSynced (delete id) db agrees keyed fresh = delete_product-IsSynced db agrees id
serve-IsSynced (translate id x) db agrees keyed fresh =
    set_product_translation-IsSynced db agrees id x
serve-IsSynced (select_by id attributes) db agrees keyed fresh =
    dropped-Committed (set_variation_attributes id attributes) _
      (set_variation_attributes-IsSynced db agrees id attributes)
serve-IsSynced (add_variant_of id variant_id payload) db agrees keyed fresh =
    dropped-Committed (create_variant variant_id id payload) _
      (create_variant-IsSynced db agrees variant_id id payload)
serve-IsSynced (change_variant id u) db agrees keyed fresh =
    update_variant-IsSynced db agrees id u keyed
serve-IsSynced (remove_variant id) db agrees keyed fresh =
    delete_variant-IsSynced db agrees id keyed
serve-IsSynced (set_attributes id values) db agrees keyed fresh =
    dropped-Committed (set_product_attributes id values) _
      (set_product_attributes-IsSynced id values db agrees)
serve-IsSynced (generate id keys) db agrees keyed fresh =
    dropped-Committed (generate_variants keys id) _ (generate_variants-IsSynced keys id db agrees)
