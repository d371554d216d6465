-- ===== src/Cards/Sync.antt =====
-- When the read model agrees with the tables that it is made from, and how rebuild_card brings that
-- about (app/services/catalog_service.py).

use mathlib.Core.Path.{subst}
use store_evix.Common.{
  ℕ, ◌≡◌, refl, ap, ◌∙◌, Bool, true, false, inl, inr, Option, none, some, List, [], ◌∷◌, map,
  select_where, ◌==◌, if◌then◌else◌, Option-cases, arith,
}
use store_evix.Common.Table.{find, remove, find_key}
use store_evix.Models.Catalog.{Product, ProductTranslation, ProductVariant}
use store_evix.Models.CatalogDb.{ProductCard, CatalogDb}
use store_evix.Cards.Defs.{
  get_main_image_url, product_key, translations_of, sold_variants, media_of, publishable, Sources,
  sources, offer, get_variant_aggregate, synced, card_row,
}

abbrev pub cards_of : ℕ → List ProductCard → List ProductCard
cards_of k cs = select_where (λ c. c.product_id == k) cs

-- The cards that a product ought to have.
abbrev pub listing : Product → Sources → Bool → List ProductCard
listing p src false = []
listing p src true = map (card_row p src) src.translations

abbrev pub expected : CatalogDb → Option Product → List ProductCard
expected db none = []
expected db (some p) = listing p (sources p db) p.is_active

abbrev pub fit : Product → CatalogDb → Bool
fit p db = publishable p (translations_of p.id db) (sold_variants p.id db)

-- The cards under a key are those of the product, and an active product may be published.
abbrev pub Admitted : CatalogDb → Option Product → Type 0
Admitted db none = Unit
Admitted db (some p) = p.is_active ≡ true → fit p db ≡ true

pub record SyncedAt (db : CatalogDb) (k : ℕ) : Type 0 where
  pub agrees : cards_of k db.cards ≡ expected db (find product_key k db.products)
  pub admitted : Admitted db (find product_key k db.products)

abbrev pub IsSynced : CatalogDb → Type 0
IsSynced db = (k : ℕ) → SyncedAt db k

abbrev pub IsSyncedBesides : ℕ → CatalogDb → Type 0
IsSyncedBesides k db = (j : ℕ) → (k == j) ≡ false → SyncedAt db j

pub cards_of-remove :
    (j k : ℕ) (cs : List ProductCard)
    → cards_of j (remove (λ c. c.product_id) k cs) ≡ (if k == j then [] else cards_of j cs)
cards_of-remove j k [] = ground arith
cards_of-remove j k (c ∷ cs) = ground (arith, cards_of-remove j k cs)

pub cards_of-map :
    (j : ℕ) (p : Product) (src : Sources) (ts : List ProductTranslation)
    → cards_of j (map (card_row p src) ts) ≡ (if p.id == j then map (card_row p src) ts else [])
unfolding card_row
cards_of-map j p src [] = ground arith
cards_of-map j p src (t ∷ ts) = ground (arith, cards_of-map j p src ts)

-- Neither the sources nor the cards of a product look at what the synchronisation writes.
pub synced_frame :
    (vs : List ProductVariant) (p : Product)
    → ((synced vs p).id ≡ p.id)
      × ((synced vs p).category_id ≡ p.category_id)
      × ((synced vs p).is_active ≡ p.is_active)
      × ((synced vs p).has_variants ≡ p.has_variants)
      × ((synced vs p).is_featured ≡ p.is_featured)
synced_frame vs p = ground (arith, Option-cases (get_variant_aggregate vs).v_min)

offer-synced : (vs : List ProductVariant) (p : Product) → offer (synced vs p) vs ≡ offer p vs
unfolding offer
offer-synced vs p = ground (arith, Option-cases (get_variant_aggregate vs).v_min)

pub synced_card :
    (p : Product) (src : Sources) (ts : List ProductTranslation)
    → map (card_row (synced src.variants p) src) ts ≡ map (card_row p src) ts
unfolding card_row
synced_card p src [] = refl
synced_card p src (t ∷ ts) =
    ground (arith, synced_frame src.variants p, offer-synced src.variants p, synced_card p src ts)

-- Two states that agree on all that concerns one product.
pub record SameAt (d d' : CatalogDb) (j : ℕ) : Type 0 where
  pub same_categories : d'.categories ≡ d.categories
  pub same_product : find product_key j d'.products ≡ find product_key j d.products
  pub same_translations : translations_of j d' ≡ translations_of j d
  pub same_variants : sold_variants j d' ≡ sold_variants j d
  pub same_image : get_main_image_url (media_of j d') ≡ get_main_image_url (media_of j d)
  pub same_cards : cards_of j d'.cards ≡ cards_of j d.cards

pub SyncedAt-expected :
    (d : CatalogDb) (j : ℕ) (o : Option Product)
    → find product_key j d.products ≡ o
    → cards_of j d.cards ≡ expected d o
    → Admitted d o
    → SyncedAt d j
SyncedAt-expected d j o e agrees admitted = record {
  agrees = rw e agrees;
  admitted = rw e admitted;
}

pub SyncedAt-SameAt : (d d' : CatalogDb) (j : ℕ) → SameAt d d' j → SyncedAt d j → SyncedAt d' j
unfolding sources
SyncedAt-SameAt d d' j s h = elim (Option-cases (find product_key j d.products)) [
  | inl missing ↦
      SyncedAt-expected d' j none (s.same_product ∙ missing)
        (s.same_cards ∙ h.agrees ∙ ap (expected d) missing) tt
  | inr (p, found) ↦
      let keyed : p.id ≡ j = find_key product_key j d.products p found in
      SyncedAt-expected d' j (some p) (s.same_product ∙ found)
        (s.same_cards ∙ h.agrees ∙ ap (expected d) found ∙ same_expected p keyed)
        (same_admitted p keyed (subst (Admitted d) found h.admitted))
]
  where
    same_sources : (p : Product) → p.id ≡ j → sources p d ≡ sources p d'
    same_sources p e =
        rw (e, s.same_categories, s.same_translations, s.same_variants, s.same_image) refl

    same_expected : (p : Product) → p.id ≡ j → expected d (some p) ≡ expected d' (some p)
    same_expected p e = ap (λ src. listing p src p.is_active) (same_sources p e)

    same_admitted : (p : Product) → p.id ≡ j → Admitted d (some p) → Admitted d' (some p)
    same_admitted p e h = rw (e, s.same_translations, s.same_variants) (rw e at h)
