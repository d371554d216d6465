-- ===== src/Products/SyncedVariants.antt =====
-- Every variant operation leaves the read model in agreement with its tables.
use mathlib.Core.Option
use store_evix.Common.{
  ℕ, ◌≡◌, refl, Bool, true, false, not, Option, none, some, List, [], ◌∷◌, ◌++◌, map, select_where,
  select_where-append, append_nil, All, ltb, length, ◌==◌, Option-cases, arith,
}
use store_evix.Common.Table.{find, modify, remove, find-modify}
use store_evix.Common.Session.{Session, guard_or_raise, guard_raise_if, ◌>>=◌}
use store_evix.Models.Catalog.{ProductVariant}
use store_evix.Models.CatalogDb.{Media, CatalogDb}
use store_evix.Categories.{CatalogAction, not_found, conflict, invalid}
use store_evix.Cards.{
  product_key, sold, sold_variants, media_of, first_of, lowest, get_main_image_url, set_products,
}
use store_evix.Cards.Sync.{IsSynced, IsSyncedBesides}
use store_evix.Products.Defs.{get_product}
use store_evix.Products.Variants.{
  unique_ids, is_empty, all_exist, variants_of, with_variants, check_attributes,
  set_variation_attributes, variation_attribute_ids, attributes_of, list_eq, sorted, code_taken,
  combo_exists, next_position, VariantCreate, new_variant, add_variant, create_variant,
  variant_id_key, get_variant, VariantUpdate, variant_changes, new_code_taken, set_variants,
  update_variant, unbound, drop_variant, delete_variant,
}
use store_evix.Products.Synced.{Committed, others_synced, rebuild_then, checked_then, opened}

-- The ids are a key of the variants.
abbrev pub IsKeyed : List ProductVariant → Type 0
IsKeyed vs = All (λ v. find variant_id_key v.id vs ≡ some v) vs

-- So a row with a variant's id belongs to its product.
owned :
    (id : ℕ) (v : ProductVariant) (vs rs : List ProductVariant)
    → find variant_id_key id vs ≡ some v
    → All (λ r. find variant_id_key r.id vs ≡ some r) rs
    → All (λ r. r.id ≡ id → r.product_id ≡ v.product_id) rs
owned id v vs [] found keyed = tt
owned id v vs (r ∷ rs) found (own, keyed) = (λ e. cc, owned id v vs rs found keyed)

changed_others :
    (j k id : ℕ) (f : ProductVariant → ProductVariant) (rs : List ProductVariant)
    → (k == j) ≡ false
    → ((r : ProductVariant) → (f r).product_id ≡ r.product_id)
    → All (λ r. r.id ≡ id → r.product_id ≡ k) rs
    → select_where (sold j) (modify variant_id_key id f rs) ≡ select_where (sold j) rs
changed_others j k id f [] other keep owner = refl
changed_others j k id f (r ∷ rs) other keep (own, owner) =
    ground (arith, keep r, changed_others j k id f rs other keep owner)

removed_others :
    (j k id : ℕ) (rs : List ProductVariant)
    → (k == j) ≡ false
    → All (λ r. r.id ≡ id → r.product_id ≡ k) rs
    → select_where (sold j) (remove variant_id_key id rs) ≡ select_where (sold j) rs
removed_others j k id [] other owner = refl
removed_others j k id (r ∷ rs) other (own, owner) =
    ground (arith, removed_others j k id rs other owner)

-- Unbinding a medium from a variant does not change which one comes first.
first_of-unbound :
    (id : ℕ) (m : Media) (o : Option Media)
    → first_of (unbound id m) (Option.map (unbound id) o) ≡ Option.map (unbound id) (first_of m o)
first_of-unbound id m none = refl
first_of-unbound id m (some n) = ground arith

lowest-unbound :
    (id j : ℕ) (ms : List Media)
    → lowest (select_where (λ m. m.product_id == j) (map (unbound id) ms))
      ≡ Option.map (unbound id) (lowest (select_where (λ m. m.product_id == j) ms))
lowest-unbound id j [] = refl
lowest-unbound id j (m ∷ ms) = ground (
  arith,
  lowest-unbound id j ms,
  first_of-unbound id m (lowest (select_where (λ m. m.product_id == j) ms)),
)

image-unbound :
    (id j : ℕ) (ms : List Media)
    → get_main_image_url (select_where (λ m. m.product_id == j) (map (unbound id) ms))
      ≡ get_main_image_url (select_where (λ m. m.product_id == j) ms)
unfolding get_main_image_url
image-unbound id j ms = ground (
  arith,
  lowest-unbound id j ms,
  Option-cases (lowest (select_where (λ m. m.product_id == j) ms)),
)

pub appended_others :
    (j k : ℕ) (vs : List ProductVariant) (v : ProductVariant)
    → v.product_id ≡ k
    → (k == j) ≡ false
    → select_where (sold j) (vs ++ v ∷ []) ≡ select_where (sold j) vs
appended_others j k vs v e other =
    ground (arith, select_where-append (sold j) vs (v ∷ []), append_nil (select_where (sold j) vs))

attributes_then :
    {B : Type 0} (k : ℕ) (unique : List ℕ) (s : Session CatalogDb) (f : Unit {0} → CatalogAction B)
    → IsSynced s.committed
    → Committed (f tt s)
    → Committed ((check_attributes k unique >>= f) s)
attributes_then k [] s f held go =
    guard_raise_if Committed s invalid (ltb 0 (length (variants_of k s.work.variants))) f held
      (λ none_left. go)
attributes_then k (a ∷ attrs) s f held go =
    guard_raise_if Committed s not_found (not (all_exist (a ∷ attrs) s.work.attributes)) f held
      (λ known. go)

module _ (db : CatalogDb) (agrees : IsSynced db) where
  -- The sources of the other products stay when a variant of one is written.
  variants_others :
      (k : ℕ) (d : CatalogDb)
      → d.categories ≡ db.categories
      → d.products ≡ db.products
      → d.translations ≡ db.translations
      → d.cards ≡ db.cards
      → ((j : ℕ) → (k == j) ≡ false → sold_variants j d ≡ sold_variants j db)
      → ((j : ℕ) → get_main_image_url (media_of j d) ≡ get_main_image_url (media_of j db))
      → IsSyncedBesides k d
  variants_others k d cs ps ts cards vs image = others_synced k db d agrees (λ j other. record {
    same_categories = cs;
    same_product = rw ps refl;
    same_translations = rw ts refl;
    same_variants = vs j other;
    same_image = image j;
    same_cards = rw cards refl;
  })

  pub flagged :
      (j k : ℕ) (b : Bool)
      → (k == j) ≡ false
      → find product_key j (modify product_key k (with_variants b) db.products)
        ≡ find product_key j db.products
  flagged j k b other =
      ground (arith, find-modify product_key j k (with_variants b) db.products (λ p. refl))

  pub set_variation_attributes-IsSynced :
      (k : ℕ) (attribute_ids : List ℕ)
      → Committed (set_variation_attributes k attribute_ids (opened db agrees))
  unfolding set_variation_attributes get_product
  set_variation_attributes-IsSynced k attribute_ids =
      guard_or_raise Committed (opened db agrees) not_found (find product_key k db.products) _
        agrees
        (λ p found. attributes_then k (unique_ids attribute_ids) (opened db agrees) _ agrees (
          rebuild_then k _ _
            (others_synced k db _ agrees (λ j other. record {
              same_categories = refl;
              same_product = flagged j k (not (is_empty (unique_ids attribute_ids))) other;
              same_translations = refl;
              same_variants = refl;
              same_image = refl;
              same_cards = refl;
            }))
            agrees (λ t now before. now)))

  pub create_variant-IsSynced :
      (variant_id k : ℕ) (payload : VariantCreate)
      → Committed (create_variant variant_id k payload (opened db agrees))
  unfolding create_variant get_product
  create_variant-IsSynced variant_id k payload =
      guard_or_raise Committed here not_found (find product_key k db.products) _ agrees (λ p found.
        guard_raise_if Committed here invalid (is_empty wanted) _ agrees (λ some_wanted.
          guard_or_raise Committed here not_found (attributes_of values db.attribute_values) _
            agrees
            (λ attributes known.
              guard_raise_if Committed here invalid
                (not (list_eq (sorted attributes) (sorted wanted))) _ agrees
                (λ complete.
                  guard_raise_if Committed here conflict (code_taken payload.code db.variants) _
                    agrees
                    (λ free.
                      guard_raise_if Committed here conflict (combo_exists k values db) _ agrees
                        (λ single.
                          rebuild_then k _ _ added_others agrees (λ t now before. now)))))))
    where
      here : Session CatalogDb
      here = opened db agrees

      values : List ℕ
      values = unique_ids payload.value_ids

      wanted : List ℕ
      wanted = variation_attribute_ids k db.variation_attributes

      variant : ProductVariant
      variant = new_variant variant_id k (next_position (variants_of k db.variants)) payload

      added_others : IsSyncedBesides k (
          set_products
            (modify product_key k (with_variants true) db.products)
            (add_variant variant values db))
      added_others = others_synced k db _ agrees (λ j other. record {
        same_categories = refl;
        same_product = flagged j k true other;
        same_translations = refl;
        same_variants = appended_others j k db.variants variant refl other;
        same_image = refl;
        same_cards = refl;
      })

  pub update_variant-IsSynced :
      (id : ℕ) (u : VariantUpdate)
      → IsKeyed db.variants
      → Committed (update_variant id u (opened db agrees))
  unfolding update_variant get_variant get_product
  update_variant-IsSynced id u keyed =
      guard_or_raise Committed (opened db agrees) not_found (find variant_id_key id db.variants) _
        agrees
        (λ v found.
          guard_raise_if Committed (opened db agrees) conflict (new_code_taken u.code v db.variants)
            _ agrees
            (λ free.
              guard_or_raise Committed (changed v) not_found
                (find product_key v.product_id db.products) _ agrees
                (λ p there. checked_then p.is_active v.product_id (changed v) _ agrees (
                  rebuild_then v.product_id (changed v) _
                    (variants_others v.product_id _ refl refl refl refl
                      (λ j other.
                        changed_others j v.product_id id (variant_changes u) db.variants other
                          (λ r. refl) (owned id v db.variants db.variants found keyed))
                      (λ j. refl))
                    agrees (λ t now before. now)))))
    where
      changed : ProductVariant → Session CatalogDb
      changed v = record {
        work = set_variants (modify variant_id_key id (variant_changes u) db.variants) db;
        committed = db;
      }

  pub delete_variant-IsSynced :
      (id : ℕ) → IsKeyed db.variants → Committed (delete_variant id (opened db agrees))
  unfolding delete_variant get_variant get_product
  delete_variant-IsSynced id keyed =
      guard_or_raise Committed (opened db agrees) not_found (find variant_id_key id db.variants) _
        agrees
        (λ v found.
          guard_or_raise Committed dropped not_found (find product_key v.product_id db.products) _
            agrees
            (λ p there. checked_then p.is_active v.product_id dropped _ agrees (
              rebuild_then v.product_id dropped _
                (variants_others v.product_id _ refl refl refl refl
                  (λ j other.
                    removed_others j v.product_id id db.variants other
                      (owned id v db.variants db.variants found keyed))
                  (λ j. image-unbound id j db.media))
                agrees (λ t now before. now))))
    where
      dropped : Session CatalogDb
      dropped = record { work = drop_variant id db; committed = db }
