-- ===== src/Products/Generated.antt =====
-- generate_variants and set_product_attributes leave the listing in agreement with the tables
-- (app/services/admin_catalog_service.py).

use mathlib.Core.Path.{subst}
use store_evix.Common.{
  ℕ, ◌≡◌, refl, sym, ap, ◌∙◌, true, false, not, inl, inr, some, List, [], ◌∷◌, map, ◌==◌,
  if◌then◌else◌, Bool-cases,
}
use store_evix.Common.Table.{find, modify, find_key}
use store_evix.Common.Session.{Result, ok, err, Session, guard_or_raise, guard_raise_if}
use store_evix.Models.Catalog.{Product, ProductVariant}
use store_evix.Models.CatalogDb.{ProductCard, CatalogDb}
use store_evix.Categories.{AdminCatalogError, not_found, invalid}
use store_evix.Cards.{
  translations_of, media_of, get_main_image_url, product_key, set_products, set_cards,
}
use store_evix.Cards.Sync.{IsSynced, IsSyncedBesides, SyncedAt, SyncedAt-SameAt, SameAt, cards_of}
use store_evix.Products.Defs.{get_product}
use store_evix.Products.Variants.{is_empty, unique_ids, variation_attribute_ids, with_variants}
use store_evix.Products.Generate.{
  assigned_values, Filled, fill_product, none_empty, all_known, set_attribute_links,
  set_product_attributes, generate_variants,
}
use store_evix.Products.Synced.{Committed, opened, others_synced, rebuild_cases}
use store_evix.Products.SyncedVariants.{flagged}
use store_evix.Products.Fill.{fill_frame, fill_sold}

-- The values that the request combines: those assigned for each attribute that selects variants.
abbrev pub choices_of : ℕ → CatalogDb → List (List ℕ)
choices_of id db = map (assigned_values id db) (variation_attribute_ids id db.variation_attributes)

module _ (keys : ℕ → ℕ) (id : ℕ) (db : CatalogDb) (agrees : IsSynced db) where
  abbrev pub flagged_after : Filled → CatalogDb
  flagged_after filled =
      if is_empty filled.created
      then filled.db
      else set_products (modify product_key id (with_variants true) filled.db.products) filled.db

  -- The guards, and then the rest.
  pub generate_cases :
      (R : Result AdminCatalogError (List ProductVariant × ℕ) × Session CatalogDb → Type 0)
      → ((e : AdminCatalogError) → R (err e, opened db agrees))
      → ((e : AdminCatalogError) (t : Session CatalogDb) → t.committed ≡ db → R (err e, t))
      → ((p : Product)
          → find product_key id db.products ≡ some p
          → is_empty (choices_of id db) ≡ false
          → IsSyncedBesides id (flagged_after (fill_product id keys p (choices_of id db) db)))
      → ((p : Product) (t : Session CatalogDb) (a : List ProductVariant × ℕ) (cs : List ProductCard)
            (ps : List Product)
          → find product_key id db.products ≡ some p
          → is_empty (choices_of id db) ≡ false
          → IsSynced t.work
          → t.work
            ≡ set_cards cs
                (set_products ps (flagged_after (fill_product id keys p (choices_of id db) db)))
          → R (ok a, record t { committed = t.work }))
      → R (generate_variants keys id (opened db agrees))
  unfolding generate_variants get_product
  generate_cases R guard stop others done =
      guard_or_raise R (opened db agrees) not_found (find product_key id db.products) _
        (guard not_found)
        (λ p found.
          guard_raise_if R (opened db agrees) invalid
            (is_empty (variation_attribute_ids id db.variation_attributes)) _ (guard invalid)
            (λ wanted.
              guard_raise_if R (opened db agrees) invalid (not (none_empty (choices_of id db))) _
                (guard invalid)
                (λ complete.
                  rebuild_cases R id _ _ (others p found (some_choices wanted)) stop
                    (λ t cs ps same now e. done p t _ cs ps found (some_choices wanted) now e))))
    where
      some_choices :
          is_empty (variation_attribute_ids id db.variation_attributes) ≡ false
          → is_empty (choices_of id db) ≡ false
      some_choices h = mapped (variation_attribute_ids id db.variation_attributes) h
        where
          mapped :
              (attributes : List ℕ)
              → is_empty attributes ≡ false
              → is_empty (map (assigned_values id db) attributes) ≡ false
          mapped [] h = h
          mapped (a ∷ attributes) h = refl

  abbrev pub filled_by : Product → Filled
  filled_by p = fill_product id keys p (choices_of id db) db

  pub filled_frame :
      (p : Product)
      → (filled_by p).db ≡ record db {
        variants = (filled_by p).db.variants;
        variant_values = (filled_by p).db.variant_values;
      }
  filled_frame p = fill_frame p keys 0 _ _ _ db

  pub filled_others :
      (p : Product)
      → find product_key id db.products ≡ some p
      → IsSyncedBesides id (flagged_after (filled_by p))
  filled_others p found = others_synced id db _ agrees (λ j other.
      elim (Bool-cases (is_empty (filled_by p).created)) [
        | inl none_new ↦ rw none_new (same_at j other)
        | inr some_new ↦ rw some_new (flagged_same j other)
      ])
    where
      keyed : p.id ≡ id
      keyed = find_key product_key id db.products p found

      same_at : (j : ℕ) → (id == j) ≡ false → SameAt db (filled_by p).db j
      same_at j other = record {
        same_categories = ap (λ d. d.categories) (filled_frame p);
        same_product = ap (λ d. find product_key j d.products) (filled_frame p);
        same_translations = ap (translations_of j) (filled_frame p);
        same_variants =
            fill_sold p keys j 0 _ _ _ db (subst (λ i. (i == j) ≡ false) (sym keyed) other);
        same_image = ap (λ d. get_main_image_url (media_of j d)) (filled_frame p);
        same_cards = ap (λ d. cards_of j d.cards) (filled_frame p);
      }

      flagged_same :
          (j : ℕ)
          → (id == j) ≡ false
          → SameAt db
              (set_products
                (modify product_key id (with_variants true) (filled_by p).db.products)
                (filled_by p).db)
              j
      flagged_same j other = record {
        same_categories = (same_at j other).same_categories;
        same_translations = (same_at j other).same_translations;
        same_variants = (same_at j other).same_variants;
        same_image = (same_at j other).same_image;
        same_cards = (same_at j other).same_cards;
        same_product =
            ap (λ d. find product_key j (modify product_key id (with_variants true) d.products))
              (filled_frame p)
            ∙ flagged db agrees j id true other;
      }

  pub generate_variants-IsSynced : Committed (generate_variants keys id (opened db agrees))
  generate_variants-IsSynced =
      generate_cases Committed (λ e. agrees)
        (λ e t same j. subst (λ d. SyncedAt d j) (sym same) (agrees j))
        (λ p found some_choices. filled_others p found)
        (λ p t a cs ps found some_choices now e. now)

  pub flagged_tables :
      (filled : Filled)
      → ((flagged_after filled).variants ≡ filled.db.variants)
        × ((flagged_after filled).variant_values ≡ filled.db.variant_values)
  flagged_tables filled = elim (Bool-cases (is_empty filled.created)) [
    | inl none_new ↦ rw none_new (refl, refl)
    | inr some_new ↦ rw some_new (refl, refl)
  ]

-- Replacing the assigned values touches no card's source.
pub set_product_attributes-IsSynced :
    (id : ℕ) (values : List ℕ) (db : CatalogDb) (agrees : IsSynced db)
    → Committed (set_product_attributes id values (opened db agrees))
unfolding set_product_attributes get_product
set_product_attributes-IsSynced id values db agrees =
    guard_or_raise Committed (opened db agrees) not_found (find product_key id db.products) _ agrees
      (λ p found.
        guard_raise_if Committed (opened db agrees) not_found
          (not (all_known (unique_ids values) db.attribute_values)) _ agrees
          (λ known j.
            SyncedAt-SameAt db (set_attribute_links id (unique_ids values) db) j
              (record {
                same_categories = refl;
                same_product = refl;
                same_translations = refl;
                same_variants = refl;
                same_image = refl;
                same_cards = refl;
              })
              (agrees j)))
