-- ===== src/Products/Fill.antt =====
-- The loop of generate_variants: every combination has a variant at its end, and what was there stays.
use mathlib.Core.Path.{subst}
use store_evix.Common.{
  ℕ, suc, ◌<◌, ◌≡◌, refl, sym, ◌∙◌, true, false, inl, inr, List, [], ◌∷◌, map, any, All, All-append,
  ◌==◌, Bool-cases, arith,
}
use store_evix.Models.Catalog.{Product, ProductVariant}
use store_evix.Models.CatalogDb.{CatalogDb}
use store_evix.Products.Variants.{
  next_position, is_empty, same_set, variants_of, combines, combo_exists, add_variant,
}
use store_evix.Products.Generate.{
  prefix_all, combinations, combos_of, is_seen, filler, Filled, fill, fill_product,
}
use store_evix.Cards.{sold_variants}
use store_evix.Products.SyncedVariants.{appended_others}
use store_evix.Products.Combos.{IsBelow, Has, Has-add, Has-new, IsBelow-add, same_set_self}

module _ (product : Product) (keys : ℕ → ℕ) where
  fill_old :
      (n position : ℕ) (seen cs : List (List ℕ)) (c : List ℕ) (db : CatalogDb)
      → is_seen c seen ≡ true
      → fill product keys n position seen (c ∷ cs) db
        ≡ record (fill product keys n position seen cs db) {
          skipped = suc (fill product keys n position seen cs db).skipped;
        }
  unfolding fill
  fill_old n position seen cs c db e = rw (fill, e) refl

  abbrev filled_next : ℕ → ℕ → List (List ℕ) → List (List ℕ) → List ℕ → CatalogDb → Filled
  filled_next n position seen cs c db =
      fill product keys (suc n) (suc position) (c ∷ seen) cs
        (add_variant (filler product (keys n) position) c db)

  fill_new :
      (n position : ℕ) (seen cs : List (List ℕ)) (c : List ℕ) (db : CatalogDb)
      → is_seen c seen ≡ false
      → fill product keys n position seen (c ∷ cs) db
        ≡ record (filled_next n position seen cs c db) {
          created =
              filler product (keys n) position ∷ (filled_next n position seen cs c db).created;
        }
  unfolding fill
  fill_new n position seen cs c db e = rw (fill, e) refl

  -- Only the tables of variants change.
  pub fill_frame :
      (n position : ℕ) (seen cs : List (List ℕ)) (db : CatalogDb)
      → (fill product keys n position seen cs db).db ≡ record db {
        variants = (fill product keys n position seen cs db).db.variants;
        variant_values = (fill product keys n position seen cs db).db.variant_values;
      }
  unfolding fill
  fill_frame n position seen [] db = refl
  fill_frame n position seen (c ∷ cs) db = elim (Bool-cases (is_seen c seen)) [
    | inl old ↦
        subst
          (λ x. x.db ≡ record db { variants = x.db.variants; variant_values = x.db.variant_values })
          (sym (fill_old n position seen cs c db old)) (fill_frame n position seen cs db)
    | inr new ↦
        subst
          (λ x. x.db ≡ record db { variants = x.db.variants; variant_values = x.db.variant_values })
          (sym (fill_new n position seen cs c db new))
          (fill_frame (suc n) (suc position) (c ∷ seen) cs
            (add_variant (filler product (keys n) position) c db))
  ]

  -- The variants of the other products stay.
  pub fill_sold :
      (j n position : ℕ) (seen cs : List (List ℕ)) (db : CatalogDb)
      → (product.id == j) ≡ false
      → sold_variants j (fill product keys n position seen cs db).db ≡ sold_variants j db
  unfolding fill
  fill_sold j n position seen [] db other = refl
  fill_sold j n position seen (c ∷ cs) db other = elim (Bool-cases (is_seen c seen)) [
    | inl old ↦
        subst (λ x. sold_variants j x.db ≡ sold_variants j db)
          (sym (fill_old n position seen cs c db old)) (fill_sold j n position seen cs db other)
    | inr new ↦
        let v = filler product (keys n) position in
        subst (λ x. sold_variants j x.db ≡ sold_variants j db)
          (sym (fill_new n position seen cs c db new))
          (fill_sold j (suc n) (suc position) (c ∷ seen) cs (add_variant v c db) other
            ∙ appended_others j product.id db.variants v refl other)
  ]

module _ (product : Product) (keys : ℕ → ℕ) (rising : (n : ℕ) → keys n < keys (suc n)) where
  -- What the combinations seen so far stand for.
  abbrev AreThere : CatalogDb → List (List ℕ) → Type 0
  AreThere db seen = (d : List ℕ) → is_seen d seen ≡ true → Has product.id db d

  seen_more :
      (v : ProductVariant) (c : List ℕ) (seen : List (List ℕ)) (db : CatalogDb)
      → IsBelow v.id db
      → v.product_id ≡ product.id
      → is_empty c ≡ false
      → AreThere db seen
      → AreThere (add_variant v c db) (c ∷ seen)
  seen_more v c seen db below owner some_values there d h = elim (Bool-cases (same_set c d)) [
    | inl same ↦ Has-new product.id v c d db below owner some_values same
    | inr other ↦ Has-add product.id v c d db below (there d (ground arith))
  ]

  -- Nothing that is there is lost, and every combination of the list comes to be there.
  abbrev pub Covers : CatalogDb → List (List ℕ) → CatalogDb → Type 0
  Covers db cs result =
      ((d : List ℕ) → Has product.id db d → Has product.id result d)
      × All (λ c. Has product.id result c) cs

  fill-Covers :
      (n position : ℕ) (seen cs : List (List ℕ)) (db : CatalogDb)
      → IsBelow (keys n) db
      → AreThere db seen
      → All (λ c. is_empty c ≡ false) cs
      → Covers db cs (fill product keys n position seen cs db).db
  unfolding fill
  fill-Covers n position seen [] db below there some_values = (λ d h. h, tt)
  fill-Covers n position seen (c ∷ cs) db below there (some_values, others) =
      elim (Bool-cases (is_seen c seen)) [
        | inl old ↦
            let (keeps, all) = fill-Covers n position seen cs db below there others in
            subst (λ x. Covers db (c ∷ cs) x.db)
              (sym (fill_old product keys n position seen cs c db old))
              (keeps, (keeps c (there c old), all))
        | inr new ↦
            let v = filler product (keys n) position in
            let (keeps, all) =
              fill-Covers (suc n) (suc position) (c ∷ seen) cs (add_variant v c db)
                (IsBelow-add v c (keys (suc n)) db (rising n) below)
                (seen_more v c seen db below refl some_values there) others in
            let now = Has-new product.id v c c db below refl some_values (same_set_self c) in
            subst (λ x. Covers db (c ∷ cs) x.db)
              (sym (fill_new product keys n position seen cs c db new))
              (λ d h. keeps d (Has-add product.id v c d db below h), (keeps c now, all))
      ]

-- The combinations that the existing variants have.
combos_of-Has :
    (id : ℕ) (db : CatalogDb) (d : List ℕ)
    → is_seen d (combos_of db.variant_values (variants_of id db.variants)) ≡ combo_exists id d db
unfolding combo_exists
combos_of-Has id db d = along (variants_of id db.variants)
  where
    along :
        (vs : List ProductVariant)
        → is_seen d (combos_of db.variant_values vs) ≡ any (combines d db.variant_values) vs
    along [] = refl
    along (v ∷ vs) = ground (arith, along vs)

prefix_some : (vs : List ℕ) (cs : List (List ℕ)) → All (λ c. is_empty c ≡ false) (prefix_all vs cs)
prefix_some [] cs = tt
prefix_some (v ∷ vs) cs =
    All-append (λ c. is_empty c ≡ false) (map (λ c. v ∷ c) cs) (prefix_all vs cs) (each cs)
      (prefix_some vs cs)
  where
    each : (cs : List (List ℕ)) → All (λ c. is_empty c ≡ false) (map (λ c. v ∷ c) cs)
    each [] = tt
    each (c ∷ cs) = (refl, each cs)

combinations_some :
    (choices : List (List ℕ))
    → is_empty choices ≡ false
    → All (λ c. is_empty c ≡ false) (combinations choices)
unfolding combinations
combinations_some [] h = absurd (ground arith)
combinations_some (vs ∷ rest) h = prefix_some vs (combinations rest)

-- With keys that rise above all those in use, generating gives every combination of the choices a
-- variant, and no variant loses its combination.
pub fill_product-Covers :
    (keys : ℕ → ℕ) (product : Product) (choices : List (List ℕ)) (db : CatalogDb)
    (rising : (n : ℕ) → keys n < keys (suc n))
    → IsBelow (keys 0) db
    → is_empty choices ≡ false
    → Covers product keys rising db
        (combinations choices)
        (fill_product product.id keys product choices db).db
unfolding Has
fill_product-Covers keys product choices db rising below some_choices =
    let existing = variants_of product.id db.variants in
    fill-Covers product keys rising 0 (next_position existing)
      (combos_of db.variant_values existing) (combinations choices) db below
      (λ d h. sym (combos_of-Has product.id db d) ∙ h) (combinations_some choices some_choices)
