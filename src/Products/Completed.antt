-- ===== src/Products/Completed.antt =====
-- What generate_variants achieves (app/services/admin_catalog_service.py).

use mathlib.Core.Path.{subst}
use store_evix.Common.{
  ℕ, suc, ◌<◌, ◌≡◌, refl, ap, ◌∙◌, true, false, inl, inr, some, List, All, All-implies, Bool-cases,
  arith,
}
use store_evix.Common.Table.{find, find_key, find-modify}
use store_evix.Common.Session.{Result, ok, err, Session, run_request}
use store_evix.Models.Catalog.{Product, ProductVariant}
use store_evix.Models.CatalogDb.{CatalogDb}
use store_evix.Categories.{AdminCatalogError}
use store_evix.Cards.{product_key}
use store_evix.Cards.Sync.{IsSynced}
use store_evix.Cards.Rebuild.{rebuild_cards_hidden}
use store_evix.Products.Defs.{get_product}
use store_evix.Products.Variants.{is_empty, variation_attribute_ids, with_variants}
use store_evix.Products.Generate.{combinations, Filled, fill_product, none_empty, generate_variants}
use store_evix.Products.Synced.{opened}
use store_evix.Products.Combos.{IsBelow, Has, Has-same}
use store_evix.Products.Fill.{Covers, fill_product-Covers}
use store_evix.Products.Generated.{
  choices_of, flagged_after, generate_cases, filled_by, filled_frame, filled_others, flagged_tables,
}

-- A hidden product with selecting attributes that all have values.
pub record IsReady (id : ℕ) (db : CatalogDb) : Type 0 where
  pub product : Product
  pub exists : find product_key id db.products ≡ some product
  pub off : product.is_active ≡ false
  pub selects : is_empty (variation_attribute_ids id db.variation_attributes) ≡ false
  pub chosen : none_empty (choices_of id db) ≡ true

abbrev Ends :
    {A : Type 0} → (CatalogDb → Type 0) → Result AdminCatalogError A × Session CatalogDb → Type 0
Ends P (ok _, s) = P s.committed
Ends P (err _, s) = Unit

module _ (keys : ℕ → ℕ) (id : ℕ) (db : CatalogDb) (agrees : IsSynced db) where
  flagged_product :
      (p : Product) (filled : Filled)
      → find product_key id filled.db.products ≡ some p
      → p.is_active ≡ false
      → (q : Product) × (find product_key id (flagged_after keys id db agrees filled).products
          ≡ some q)
        × (q.is_active ≡ false)
  flagged_product p filled found off = elim (Bool-cases (is_empty filled.created)) [
    | inl none_new ↦ (p, rw none_new found, off)
    | inr some_new ↦ (
      with_variants true p,
      rw some_new ground (
        arith,
        found,
        find-modify product_key id id (with_variants true) filled.db.products (λ r. refl),
      ),
      off,
    )
  ]

  -- Then nothing stands in the way.
  ready_run :
      IsReady id db
      → (a : List ProductVariant × ℕ) × ((generate_variants keys id (opened db agrees)).0 ≡ ok a)
  unfolding generate_variants get_product
  ready_run r =
      let p = r.product in
      let filled = filled_by keys id db agrees p in
      let here : find product_key id filled.db.products ≡ some p =
        ap (λ d. find product_key id d.products) (filled_frame keys id db agrees p) ∙ r.exists in
      let (q, there, off) = flagged_product p filled here r.off in
      let s : Session CatalogDb = record {
        work = flagged_after keys id db agrees filled;
        committed = db;
      } in
      let rebuilds = rebuild_cards_hidden id s q there off in
      ((filled.created, filled.skipped), rw (r.exists, r.selects, r.chosen, rebuilds) refl)

  -- The combinations of the values that are assigned, with a variant each.
  abbrev pub IsComplete : CatalogDb → Type 0
  IsComplete after = All (Has id after) (combinations (choices_of id db))

  generates_all :
      ((n : ℕ) → keys n < keys (suc n))
      → IsBelow (keys 0) db
      → Ends IsComplete (generate_variants keys id (opened db agrees))
  generates_all rising below =
      generate_cases keys id db agrees (Ends IsComplete) (λ e. tt) (λ e t same. tt)
        (λ p found some_choices. filled_others keys id db agrees p found)
        (λ p t a cs ps found some_choices now e.
          let keyed = find_key product_key id db.products p found in
          let (_, covered) =
            subst
              (λ i.
                Covers p keys rising db (combinations (choices_of id db))
                  (fill_product i keys p (choices_of id db) db).db)
              keyed (fill_product-Covers keys p (choices_of id db) db rising below some_choices) in
          All-implies (Has p.id (filled_by keys id db agrees p).db) (Has id t.work)
            (combinations (choices_of id db))
            (λ c h.
              Has-same id c (filled_by keys id db agrees p).db t.work
                (ap (λ d. d.variants) e
                  ∙ (flagged_tables keys id db agrees (filled_by keys id db agrees p)).0)
                (ap (λ d. d.variant_values) e
                  ∙ (flagged_tables keys id db agrees (filled_by keys id db agrees p)).1)
                (subst (λ i. Has i (filled_by keys id db agrees p).db c) keyed h))
            covered)

-- Where the listing agrees with the tables and the new keys rise above all those in use, generating
-- the variants of a hidden product whose selecting attributes all have values succeeds, and then every
-- combination of the assigned values has a variant in the database.
pub generate_variants-IsComplete :
    (keys : ℕ → ℕ) (id : ℕ) (db : CatalogDb)
    → IsSynced db
    → ((n : ℕ) → keys n < keys (suc n))
    → IsBelow (keys 0) db
    → IsReady id db
    → (a : List ProductVariant × ℕ) × ((run_request (generate_variants keys id) db).0 ≡ ok a)
      × All
          (Has id (run_request (generate_variants keys id) db).1)
          (combinations (choices_of id db))
generate_variants-IsComplete keys id db agrees rising below ready =
    let (a, done) = ready_run keys id db agrees ready in
    (
      a,
      done,
      go a (generate_variants keys id (opened db agrees)) done
          (generates_all keys id db agrees rising below),
    )
  where
    go :
        (a : List ProductVariant × ℕ)
        (x : Result AdminCatalogError (List ProductVariant × ℕ) × Session CatalogDb)
        → x.0 ≡ ok a
        → Ends (IsComplete keys id db agrees) x
        → All (Has id x.1.committed) (combinations (choices_of id db))
    go a (ok _, t) e h = h
    go a (err _, t) e h = ground arith
