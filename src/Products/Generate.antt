-- ===== src/Products/Generate.antt =====
-- set_product_attributes and generate_variants of app/services/admin_catalog_service.py.
use store_evix.Common.{
  ℕ, suc, Bool, true, false, not, ◌&&◌, none, List, [], ◌∷◌, ◌++◌, map, any, select_where, ◌==◌,
  if◌then◌else◌, is_some,
}
use store_evix.Common.Table.{find, modify, remove}
use store_evix.Common.Session.{pure, gets, raise_if, write, commit, ◌>>=◌, ◌>>◌}
use store_evix.Models.Catalog.{Product, ProductVariant}
use store_evix.Models.CatalogDb.{AttributeValue, ProductAttribute, ProductVariantValue, CatalogDb}
use store_evix.Categories.{CatalogAction, not_found, invalid}
use store_evix.Cards.{product_key, set_products, rebuild_cards}
use store_evix.Products.Defs.{get_product}
use store_evix.Products.Variants.{
  unique_ids, value_key, is_empty, variation_attribute_ids, sorted, same_set, values_of,
  variants_of, with_variants, next_position, add_variant,
}

abbrev pub all_known : List ℕ → List AttributeValue → Bool
all_known [] vs = true
all_known (i ∷ is) vs = is_some (find value_key i vs) && all_known is vs

abbrev pub attribute_link : ℕ → ℕ → ProductAttribute
attribute_link id value = record { product_id = id; value_id = value }

abbrev pub set_attribute_links : ℕ → List ℕ → CatalogDb → CatalogDb
set_attribute_links id values db = record db {
  product_attributes =
      remove (λ a. a.product_id) id db.product_attributes ++ map (attribute_link id) values;
}

unfoldable pub set_product_attributes : ℕ → List ℕ → CatalogAction (List ℕ)
unfolding get_product unique_ids
set_product_attributes id value_ids = do
  product ← get_product id
  let values = unique_ids value_ids
  known ← gets (λ db. all_known values db.attribute_values)
  raise_if (not known) not_found
  write (set_attribute_links id values)
  commit
  pure values

abbrev pub is_assigned : ℕ → List ProductAttribute → AttributeValue → Bool
is_assigned id links v = any (λ l. (l.product_id == id) && (l.value_id == v.id)) links

-- The assigned values of one attribute, by id.
unfoldable pub assigned_values : ℕ → CatalogDb → ℕ → List ℕ
unfolding sorted
assigned_values id db attribute = sorted (
    map (λ v. v.id)
      (select_where (λ v. (v.attribute_id == attribute) && is_assigned id db.product_attributes v)
        db.attribute_values))

abbrev pub prefix_all : List ℕ → List (List ℕ) → List (List ℕ)
prefix_all [] cs = []
prefix_all (v ∷ vs) cs = map (λ c. v ∷ c) cs ++ prefix_all vs cs

-- `itertools.product`
unfoldable pub combinations : List (List ℕ) → List (List ℕ)
combinations [] = [] ∷ []
combinations (vs ∷ rest) = prefix_all vs (combinations rest)

abbrev pub combos_of : List ProductVariantValue → List ProductVariant → List (List ℕ)
combos_of links [] = []
combos_of links (v ∷ vs) =
    let rest = combos_of links vs in
    if is_empty (values_of v.id links) then rest else values_of v.id links ∷ rest

abbrev pub is_seen : List ℕ → List (List ℕ) → Bool
is_seen c seen = any (λ d. same_set d c) seen

-- At the product's price, out of stock, active.
abbrev pub filler : Product → ℕ → ℕ → ProductVariant
filler product key position = record {
  id = key;
  product_id = product.id;
  code = none;
  price = product.price;
  old_price = none;
  qty = 0;
  position = position;
  is_active = true;
  weight_g = none;
}

pub record Filled : Type 0 where
  pub db : CatalogDb
  pub created : List ProductVariant
  pub skipped : ℕ

-- The loop over the combinations; `keys` are those that the sequence hands out.
unfoldable pub fill : Product → (ℕ → ℕ) → ℕ → ℕ → List (List ℕ) → List (List ℕ) → CatalogDb → Filled
fill product keys n position seen [] db = record { db = db; created = []; skipped = 0 }
fill product keys n position seen (c ∷ cs) db = elim (is_seen c seen) [
  | true ↦
      let rest = fill product keys n position seen cs db in
      record rest { skipped = suc rest.skipped }
  | false ↦
      let variant = filler product (keys n) position in
      let rest =
        fill product keys (suc n) (suc position) (c ∷ seen) cs (add_variant variant c db) in
      record rest { created = variant ∷ rest.created }
]

-- Every selecting attribute has values.
abbrev pub none_empty : List (List ℕ) → Bool
none_empty [] = true
none_empty (vs ∷ rest) = not (is_empty vs) && none_empty rest

abbrev pub fill_product : ℕ → (ℕ → ℕ) → Product → List (List ℕ) → CatalogDb → Filled
fill_product id keys product choices db =
    let existing = variants_of id db.variants in
    fill product keys 0 (next_position existing) (combos_of db.variant_values existing)
      (combinations choices) db

unfoldable pub generate_variants : (ℕ → ℕ) → ℕ → CatalogAction (List ProductVariant × ℕ)
unfolding get_product
generate_variants keys id = do
  product ← get_product id
  wanted ← gets (λ db. variation_attribute_ids id db.variation_attributes)
  raise_if (is_empty wanted) invalid
  choices ← gets (λ db. map (assigned_values id db) wanted)
  raise_if (not (none_empty choices)) invalid
  filled ← gets (fill_product id keys product choices)
  write (λ _. filled.db)
  write (λ db.
      if is_empty filled.created
      then db
      else set_products (modify product_key id (with_variants true) db.products) db)
  rebuild_cards (id ∷ [])
  commit
  pure (filled.created, filled.skipped)
