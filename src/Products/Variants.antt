-- ===== src/Products/Variants.antt =====
-- The variant operations of AdminCatalogService, in the order of
-- app/services/admin_catalog_service.py.
use store_evix.Common.{
  ℕ, suc, max, Bool, true, false, not, ◌&&◌, Option, none, some, List, [], ◌∷◌, ◌++◌, map, String,
  length, select_where, any, contains, ltb, leb, ◌==◌, opt_eq, str_eq, if◌then◌else◌, is_some,
}
use store_evix.Common.Table.{find, modify, remove}
use store_evix.Common.Patch.{Patch, unset, assign, patched}
use store_evix.Common.Session.{pure, gets, or_raise, raise_if, write, commit, ◌>>=◌, ◌>>◌}
use store_evix.Models.Catalog.{Product, ProductVariant}
use store_evix.Models.CatalogDb.{
  Media, Attribute, AttributeValue, ProductVariationAttribute, ProductVariantValue, CatalogDb,
}
use store_evix.Categories.{CatalogAction, not_found, conflict, invalid}
use store_evix.Cards.{product_key, set_products, rebuild_cards}
use store_evix.Products.Defs.{get_product, publish_check}

-- `list(dict.fromkeys(xs))`: the first of each.
unfoldable pub unique_ids : List ℕ → List ℕ
unique_ids [] = []
unique_ids (x ∷ xs) = x ∷ remove (λ i. i) x (unique_ids xs)

abbrev pub is_empty : {A : Type 0} → List A → Bool
is_empty [] = true
is_empty (_ ∷ _) = false

abbrev pub attribute_key : Attribute → ℕ
attribute_key a = a.id

abbrev pub all_exist : List ℕ → List Attribute → Bool
all_exist [] attrs = true
all_exist (i ∷ is) attrs = is_some (find attribute_key i attrs) && all_exist is attrs

abbrev pub selectors : ℕ → ℕ → List ℕ → List ProductVariationAttribute
selectors id position [] = []
selectors id position (a ∷ attrs) =
    record { product_id = id; attribute_id = a; position = position }
    ∷ selectors id (suc position) attrs

abbrev pub set_variation : ℕ → List ℕ → CatalogDb → CatalogDb
set_variation id attributes db = record db {
  variation_attributes =
      remove (λ a. a.product_id) id db.variation_attributes ++ selectors id 0 attributes;
}

abbrev pub variants_of : ℕ → List ProductVariant → List ProductVariant
variants_of id vs = select_where (λ v. v.product_id == id) vs

abbrev pub with_variants : Bool → Product → Product
with_variants b p = record p { has_variants = b }

-- An empty list is accepted only when no variants remain; a non-empty one names known attributes.
abbrev pub check_attributes : ℕ → List ℕ → CatalogAction (Unit {0})
check_attributes id [] =
    gets (λ db. ltb 0 (length (variants_of id db.variants))) >>= λ left. raise_if left invalid
check_attributes id (a ∷ attrs) =
    gets (λ db. all_exist (a ∷ attrs) db.attributes) >>= λ known. raise_if (not known) not_found

unfoldable pub set_variation_attributes : ℕ → List ℕ → CatalogAction (List ℕ)
unfolding get_product unique_ids
set_variation_attributes id attribute_ids = do
  product ← get_product id
  let unique = unique_ids attribute_ids
  check_attributes id unique
  write (set_variation id unique)
  write (λ db.
      set_products (modify product_key id (with_variants (not (is_empty unique))) db.products) db)
  rebuild_cards (id ∷ [])
  commit
  pure unique

-- The rows of a product are written in the order of their positions, which they are read in.
unfoldable pub variation_attribute_ids : ℕ → List ProductVariationAttribute → List ℕ
variation_attribute_ids id attrs =
    map (λ a. a.attribute_id) (select_where (λ a. a.product_id == id) attrs)

abbrev pub value_key : AttributeValue → ℕ
value_key v = v.id

abbrev pub cons_attribute : Option AttributeValue → Option (List ℕ) → Option (List ℕ)
cons_attribute none rest = none
cons_attribute (some v) none = none
cons_attribute (some v) (some attrs) = some (v.attribute_id ∷ attrs)

-- The attributes of the values, when every value is known.
unfoldable pub attributes_of : List ℕ → List AttributeValue → Option (List ℕ)
attributes_of [] vs = some []
attributes_of (i ∷ is) vs = cons_attribute (find value_key i vs) (attributes_of is vs)

abbrev pub insert : ℕ → List ℕ → List ℕ
insert x [] = x ∷ []
insert x (y ∷ ys) = let rest = insert x ys in if leb x y then x ∷ y ∷ ys else y ∷ rest

unfoldable pub sorted : List ℕ → List ℕ
sorted [] = []
sorted (x ∷ xs) = insert x (sorted xs)

abbrev pub list_eq : List ℕ → List ℕ → Bool
list_eq [] [] = true
list_eq [] (_ ∷ _) = false
list_eq (_ ∷ _) [] = false
list_eq (x ∷ xs) (y ∷ ys) = (x == y) && list_eq xs ys

abbrev pub subset : List ℕ → List ℕ → Bool
subset [] ys = true
subset (x ∷ xs) ys = contains x ys && subset xs ys

-- Equality of Python sets.
abbrev pub same_set : List ℕ → List ℕ → Bool
same_set xs ys = subset xs ys && subset ys xs

unfoldable pub values_of : ℕ → List ProductVariantValue → List ℕ
values_of id links = map (λ l. l.value_id) (select_where (λ l. l.variant_id == id) links)

abbrev pub combines : List ℕ → List ProductVariantValue → ProductVariant → Bool
combines values links v =
    not (is_empty (values_of v.id links)) && same_set (values_of v.id links) values

unfoldable pub combo_exists : ℕ → List ℕ → CatalogDb → Bool
combo_exists id values db = any (combines values db.variant_values) (variants_of id db.variants)

abbrev pub text_same : Option String → Option String → Bool
text_same none none = true
text_same none (some _) = false
text_same (some _) none = false
text_same (some a) (some b) = str_eq a b

abbrev pub has_code : String → ProductVariant → Bool
has_code c v = text_same v.code (some c)

-- `_assert_variant_code_free`: an absent or empty code is always free.
abbrev pub code_taken : Option String → List ProductVariant → Bool
code_taken none vs = false
code_taken (some c) vs = if str_eq c "" then false else any (has_code c) vs

-- `coalesce(max(position), -1) + 1`
abbrev pub next_position : List ProductVariant → ℕ
next_position [] = 0
next_position (v ∷ vs) = max (suc v.position) (next_position vs)

pub record VariantCreate : Type 0 where
  pub value_ids : List ℕ
  pub code : Option String
  pub price : ℕ
  pub old_price : Option ℕ
  pub qty : ℕ
  pub weight_g : Option ℕ
  pub is_active : Bool

abbrev pub new_variant : ℕ → ℕ → ℕ → VariantCreate → ProductVariant
new_variant variant_id id position payload = record {
  id = variant_id;
  product_id = id;
  code = payload.code;
  price = payload.price;
  old_price = payload.old_price;
  qty = payload.qty;
  position = position;
  is_active = payload.is_active;
  weight_g = payload.weight_g;
}

abbrev pub value_link : ℕ → ℕ → ProductVariantValue
value_link variant_id value = record { variant_id = variant_id; value_id = value }

abbrev pub add_variant : ProductVariant → List ℕ → CatalogDb → CatalogDb
add_variant v values db = record db {
  variants = db.variants ++ v ∷ [];
  variant_values = db.variant_values ++ map (value_link v.id) values;
}

unfoldable pub create_variant : ℕ → ℕ → VariantCreate → CatalogAction ProductVariant
unfolding get_product unique_ids attributes_of sorted combo_exists
create_variant variant_id id payload = do
  product ← get_product id
  wanted ← gets (λ db. variation_attribute_ids id db.variation_attributes)
  raise_if (is_empty wanted) invalid
  let values = unique_ids payload.value_ids
  known ← gets (λ db. attributes_of values db.attribute_values)
  attributes ← or_raise known not_found
  raise_if (not (list_eq (sorted attributes) (sorted wanted))) invalid
  taken ← gets (λ db. code_taken payload.code db.variants)
  raise_if taken conflict
  repeated ← gets (combo_exists id values)
  raise_if repeated conflict
  position ← gets (λ db. next_position (variants_of id db.variants))
  let variant = new_variant variant_id id position payload
  write (add_variant variant values)
  write (λ db. set_products (modify product_key id (with_variants true) db.products) db)
  rebuild_cards (id ∷ [])
  commit
  pure variant

abbrev pub variant_id_key : ProductVariant → ℕ
variant_id_key v = v.id

unfoldable pub get_variant : ℕ → CatalogAction ProductVariant
get_variant id = do
  found ← gets (λ db. find variant_id_key id db.variants)
  or_raise found not_found

pub record VariantUpdate : Type 0 where
  pub code : Patch (Option String)
  pub price : Patch ℕ
  pub old_price : Patch (Option ℕ)
  pub qty : Patch ℕ
  pub weight_g : Patch (Option ℕ)
  pub position : Patch ℕ
  pub is_active : Patch Bool

abbrev pub variant_changes : VariantUpdate → ProductVariant → ProductVariant
variant_changes u v = record v {
  code = patched u.code v.code;
  price = patched u.price v.price;
  old_price = patched u.old_price v.old_price;
  qty = patched u.qty v.qty;
  weight_g = patched u.weight_g v.weight_g;
  position = patched u.position v.position;
  is_active = patched u.is_active v.is_active;
}

-- Only a code that differs from the variant's own is looked up.
abbrev pub new_code_taken : Patch (Option String) → ProductVariant → List ProductVariant → Bool
new_code_taken unset v vs = false
new_code_taken (assign c) v vs = if text_same c v.code then false else code_taken c vs

abbrev pub set_variants : List ProductVariant → CatalogDb → CatalogDb
set_variants vs db = record db { variants = vs }

unfoldable pub update_variant : ℕ → VariantUpdate → CatalogAction (Unit {0})
unfolding get_variant get_product
update_variant id u = do
  variant ← get_variant id
  taken ← gets (λ db. new_code_taken u.code variant db.variants)
  raise_if taken conflict
  write (λ db. set_variants (modify variant_id_key id (variant_changes u) db.variants) db)
  product ← get_product variant.product_id
  publish_check product.is_active variant.product_id
  rebuild_cards (variant.product_id ∷ [])
  commit

abbrev pub unbound : ℕ → Media → Media
unbound id m = record m {
  variant_id = if opt_eq m.variant_id (some id) then none else m.variant_id;
}

abbrev pub drop_variant : ℕ → CatalogDb → CatalogDb
drop_variant id db = record db {
  media = map (unbound id) db.media;
  variant_values = remove (λ l. l.variant_id) id db.variant_values;
  variants = remove variant_id_key id db.variants;
}

unfoldable pub delete_variant : ℕ → CatalogAction (Unit {0})
unfolding get_variant get_product
delete_variant id = do
  variant ← get_variant id
  write (drop_variant id)
  product ← get_product variant.product_id
  publish_check product.is_active variant.product_id
  rebuild_cards (variant.product_id ∷ [])
  commit
