-- ===== src/Products/Combos.antt =====
-- What the values of a variant amount to, before and after a variant is added to the tables.
use store_evix.Common.{
  ℕ, ◌<◌, ◌≡◌, refl, ap, ◌∙◌, Bool, true, false, ◌||◌, List, [], ◌∷◌, ◌++◌, map, any, All,
  All-append, All-implies, select_where, select_where-append, append_nil, ◌==◌, arith,
}
use store_evix.Models.Catalog.{ProductVariant}
use store_evix.Models.CatalogDb.{ProductVariantValue, CatalogDb}
use store_evix.Products.Variants.{
  is_empty, subset, same_set, values_of, variants_of, combines, combo_exists, value_link,
  add_variant,
}

subset-weaken : (x : ℕ) (xs ys : List ℕ) → subset xs ys ≡ true → subset xs (x ∷ ys) ≡ true
subset-weaken x [] ys h = refl
subset-weaken x (z ∷ xs) ys h = ground (arith, subset-weaken x xs ys)

subset_self : (xs : List ℕ) → subset xs xs ≡ true
subset_self [] = refl
subset_self (x ∷ xs) = ground (arith, subset_self xs, subset-weaken x xs xs)

pub same_set_self : (xs : List ℕ) → same_set xs xs ≡ true
same_set_self xs = ground (arith, subset_self xs)

-- Keys below one that the sequence hands out next.
abbrev pub VariantsBelow : ℕ → List ProductVariant → Type 0
VariantsBelow k vs = All (λ v. v.id < k) vs

abbrev pub LinksBelow : ℕ → List ProductVariantValue → Type 0
LinksBelow k ls = All (λ l. l.variant_id < k) ls

pub record IsBelow (k : ℕ) (db : CatalogDb) : Type 0 where
  pub variants_below : VariantsBelow k db.variants
  pub links_below : LinksBelow k db.variant_values

none_yet :
    (k : ℕ) (ls : List ProductVariantValue)
    → LinksBelow k ls
    → select_where (λ l. l.variant_id == k) ls ≡ []
none_yet k [] h = refl
none_yet k (l ∷ ls) (below, h) = ground (arith, none_yet k ls h)

all_new : (k : ℕ) (c : List ℕ) → values_of k (map (value_link k) c) ≡ c
unfolding values_of
all_new k [] = refl
all_new k (x ∷ c) = ground (arith, all_new k c)

none_new :
    (id k : ℕ) (c : List ℕ)
    → id < k
    → select_where (λ l. l.variant_id == id) (map (value_link k) c) ≡ []
none_new id k [] h = refl
none_new id k (x ∷ c) h = ground (arith, none_new id k c h)

-- The new variant has the combination, and the older ones keep theirs.
values_of-new :
    (k : ℕ) (c : List ℕ) (ls : List ProductVariantValue)
    → LinksBelow k ls
    → values_of k (ls ++ map (value_link k) c) ≡ c
unfolding values_of
values_of-new k c ls h =
    ap (map (λ l. l.value_id)) (
      select_where-append (λ l. l.variant_id == k) ls (map (value_link k) c)
      ∙ ap (λ r. r ++ select_where (λ l. l.variant_id == k) (map (value_link k) c))
          (none_yet k ls h))
    ∙ all_new k c

values_of-old :
    (id k : ℕ) (c : List ℕ) (ls : List ProductVariantValue)
    → id < k
    → values_of id (ls ++ map (value_link k) c) ≡ values_of id ls
unfolding values_of
values_of-old id k c ls h = ap (map (λ l. l.value_id)) (
    select_where-append (λ l. l.variant_id == id) ls (map (value_link k) c)
    ∙ ap (λ r. select_where (λ l. l.variant_id == id) ls ++ r) (none_new id k c h)
    ∙ append_nil (select_where (λ l. l.variant_id == id) ls))

-- Whether some variant of the product combines the values, along the table.
exists_in : ℕ → List ℕ → List ProductVariantValue → List ProductVariant → Bool
exists_in id d ls vs = any (combines d ls) (variants_of id vs)

exists_in-append :
    (id : ℕ) (d : List ℕ) (ls : List ProductVariantValue) (vs ws : List ProductVariant)
    → exists_in id d ls (vs ++ ws) ≡ (exists_in id d ls vs || exists_in id d ls ws)
unfolding exists_in
exists_in-append id d ls [] ws = refl
exists_in-append id d ls (v ∷ vs) ws = ground (arith, exists_in-append id d ls vs ws)

exists_in-old :
    (id k : ℕ) (d c : List ℕ) (ls : List ProductVariantValue) (vs : List ProductVariant)
    → VariantsBelow k vs
    → exists_in id d (ls ++ map (value_link k) c) vs ≡ exists_in id d ls vs
unfolding exists_in
exists_in-old id k d c ls [] h = refl
exists_in-old id k d c ls (v ∷ vs) (below, h) =
    ground (arith, values_of-old v.id k c ls below, exists_in-old id k d c ls vs h)

unfoldable pub Has : ℕ → CatalogDb → List ℕ → Type 0
Has id db c = combo_exists id c db ≡ true

-- It depends on the tables of variants only.
pub Has-same :
    (id : ℕ) (c : List ℕ) (d d' : CatalogDb)
    → d'.variants ≡ d.variants
    → d'.variant_values ≡ d.variant_values
    → Has id d c
    → Has id d' c
unfolding Has combo_exists
Has-same id c d d' vs ls h = rw (vs, ls) h

pub Has-add :
    (id : ℕ) (v : ProductVariant) (c d : List ℕ) (db : CatalogDb)
    → IsBelow v.id db
    → Has id db d
    → Has id (add_variant v c db) d
unfolding Has combo_exists exists_in
Has-add id v c d db below h = ground (
  arith,
  exists_in-append id d (db.variant_values ++ map (value_link v.id) c) db.variants (v ∷ []),
  exists_in-old id v.id d c db.variant_values db.variants below.variants_below,
)

pub Has-new :
    (id : ℕ) (v : ProductVariant) (c d : List ℕ) (db : CatalogDb)
    → IsBelow v.id db
    → v.product_id ≡ id
    → is_empty c ≡ false
    → same_set c d ≡ true
    → Has id (add_variant v c db) d
unfolding Has combo_exists exists_in
Has-new id v c d db below owner some_values same = ground (
  arith,
  exists_in-append id d (db.variant_values ++ map (value_link v.id) c) db.variants (v ∷ []),
  values_of-new v.id c db.variant_values below.links_below,
)

pub IsBelow-add :
    (v : ProductVariant) (c : List ℕ) (k : ℕ) (db : CatalogDb)
    → v.id < k
    → IsBelow v.id db
    → IsBelow k (add_variant v c db)
IsBelow-add v c k db h below = record {
  variants_below =
      All-append (λ v. v.id < k) db.variants (v ∷ [])
        (All-implies (λ w. w.id < v.id) (λ w. w.id < k) db.variants (λ w e. omega arith)
          below.variants_below)
        (h, tt);
  links_below =
      All-append (λ l. l.variant_id < k) db.variant_values (map (value_link v.id) c)
        (All-implies (λ l. l.variant_id < v.id) (λ l. l.variant_id < k) db.variant_values
          (λ l e. omega arith) below.links_below)
        (linked c);
}
  where
    linked : (c : List ℕ) → All (λ l. l.variant_id < k) (map (value_link v.id) c)
    linked [] = tt
    linked (x ∷ c) = (h, linked c)
