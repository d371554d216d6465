-- ===== src/Products/Buyable.antt =====
-- What a shopper may rely on after requests to the products: the cards of app/services/catalog_service.py
-- under the operations of app/services/admin_catalog_service.py.
use mathlib.Core.Path.{subst}
use store_evix.Common.{
  ℕ, ◌<◌, ◌≤◌, ◌↔◌, any, ltb, ◌==◌, ==_iff, str_eq, str_eq_iff, ◌≡◌, refl, sym, ap, ◌∙◌, Bool, true,
  false, inl, inr, Option, none, some, List, [], ◌∷◌, map, All, Option-cases, is_some, arith,
  String,
}
use store_evix.Common.Table.{find, find_key}
use store_evix.Common.Session.{run_request}
use store_evix.Models.Catalog.{Product, ProductTranslation, ProductVariant}
use store_evix.Models.CatalogDb.{Category, ProductCard, CatalogDb}
use store_evix.Categories.{category_id}
use store_evix.Cards.{
  product_key, translations_of, sold_variants, has_language, get_variant_aggregate, min_price, sold,
  offer, path_or, sources, card_row,
}
use store_evix.Cards.Sync.{
  IsSynced, SyncedAt, SyncedAt-expected, cards_of, expected, listing, fit, Admitted,
}
use store_evix.Products.SyncedVariants.{IsKeyed}
use store_evix.Products.Requests.{ProductRequest, serve, IsFresh, held_after, serve-IsSynced}
use store_evix.Products.Selected.{
  Exists, Exists-select_where, select_where-Exists, All-select_where, any-Exists, any_iff,
  min_price-Exists, min_price-least,
}

abbrev pub IsOnSale : ℕ → ProductVariant → Type 0
IsOnSale k v = (v.product_id ≡ k) × (v.is_active ≡ true)

-- A simple product is sold at its own price, and is in stock if it has a piece. A product with variants
-- is sold at the price of the cheapest that is on sale, and is in stock if one of them has a piece.
abbrev pub Sells : Bool → CatalogDb → ℕ → Product → ℕ → Bool → Type 0
Sells false db k p price in_stock = (price ≡ p.price) × ((in_stock ≡ true) ↔ (0 < p.qty))
Sells true db k p price in_stock =
    Exists (λ v. IsOnSale k v × (v.price ≡ price)) db.variants
    × All (λ v. IsOnSale k v → price ≤ v.price) db.variants
    × ((in_stock ≡ true) ↔ Exists (λ v. IsOnSale k v × (0 < v.qty)) db.variants)

abbrev pub IsShelved : CatalogDb → Product → ProductCard → Type 0
IsShelved db p c = c.path ≡ (elim (find category_id p.category_id db.categories) [
  | none ↦ p.category_id ∷ []
  | some category ↦ category.path
])

-- What a card promises: its product is active and has both languages, and is offered at its price and
-- its stock, under the path of its category.
pub record IsBuyable (db : CatalogDb) (k : ℕ) (c : ProductCard) : Type 0 where
  pub product : Product
  pub exists : find product_key k db.products ≡ some product
  pub active : product.is_active ≡ true
  pub russian : Exists (λ t. (t.product_id ≡ k) × (t.lang ≡ "ru")) db.translations
  pub romanian : Exists (λ t. (t.product_id ≡ k) × (t.lang ≡ "ro")) db.translations
  pub sells : Sells product.has_variants db k product c.price c.in_stock
  pub shelved : IsShelved db product c

-- What the aggregate of the variants on sale says.
module _ (db : CatalogDb) (k : ℕ) where
  abbrev of_sale : List ProductVariant
  of_sale = sold_variants k db

  sale_iff : (v : ProductVariant) → (sold k v ≡ true) ↔ IsOnSale k v
  sale_iff v = (
    λ e. ((==_iff v.product_id k).0 (ground (arith, e)), ground (arith, e)),
    λ (owner, on). ground (arith, (==_iff v.product_id k).1 owner, on),
  )

  variable_price :
      (p : Product)
      → p.has_variants ≡ true
      → is_some (min_price of_sale) ≡ true
      → min_price of_sale ≡ some (offer p of_sale).price
  unfolding offer get_variant_aggregate
  variable_price p kinds some_left = elim (Option-cases (min_price of_sale)) [
    | inl gone ↦ cc (ap is_some gone, some_left)
    | inr (m, cheapest) ↦ ground (arith, kinds, cheapest)
  ]

  variable_stock :
      (p : Product)
      → p.has_variants ≡ true
      → is_some (min_price of_sale) ≡ true
      → (offer p of_sale).in_stock ≡ any (λ v. ltb 0 v.qty) of_sale
  unfolding offer get_variant_aggregate
  variable_stock p kinds some_left = elim (Option-cases (min_price of_sale)) [
    | inl gone ↦ cc (ap is_some gone, some_left)
    | inr (m, cheapest) ↦ ground (arith, kinds, cheapest)
  ]

  in_stock_iff :
      (any (λ v. ltb 0 v.qty) of_sale ≡ true) ↔ Exists (λ v. IsOnSale k v × (0 < v.qty)) db.variants
  in_stock_iff =
      let stocked =
        any_iff (λ v. 0 < v.qty) (λ v. ltb 0 v.qty)
          (λ v. (λ e. ground (arith, e), λ h. ground (arith, h))) of_sale in
      (
        λ e.
            Exists-select_where (λ v. 0 < v.qty) (IsOnSale k) (sold k) db.variants
              (λ v. (sale_iff v).0) (stocked.0 e),
        λ h. stocked.1 (
            select_where-Exists (λ v. 0 < v.qty) (IsOnSale k) (sold k) db.variants
              (λ v. (sale_iff v).1) h),
      )

  sells :
      (p : Product) (b : Bool)
      → p.has_variants ≡ b
      → (b ≡ true → is_some (min_price of_sale) ≡ true)
      → Sells b db k p (offer p of_sale).price (offer p of_sale).in_stock
  unfolding offer
  sells p false plain some_left =
      (ground (arith, plain), (λ e. ground (arith, plain, e), λ h. ground (arith, plain, h)))
  sells p true kinds some_left =
      let cheapest = variable_price p kinds (some_left refl) in
      let stock = variable_stock p kinds (some_left refl) in
      (
        Exists-select_where (λ v. v.price ≡ (offer p of_sale).price) (IsOnSale k) (sold k)
            db.variants (λ v. (sale_iff v).0)
            (min_price-Exists of_sale (offer p of_sale).price cheapest),
        All-select_where (λ v. (offer p of_sale).price ≤ v.price) (IsOnSale k) (sold k) db.variants
            (λ v. (sale_iff v).1)
            (min_price-least of_sale (offer p of_sale).price (offer p of_sale).price cheapest
              (omega arith)),
        (λ e. in_stock_iff.0 (sym stock ∙ e), λ h. stock ∙ in_stock_iff.1 h),
      )

  speaks :
      (lang : String)
      → has_language lang (translations_of k db) ≡ true
      → Exists (λ t. (t.product_id ≡ k) × (t.lang ≡ lang)) db.translations
  speaks lang e =
      Exists-select_where (λ t. t.lang ≡ lang) (λ t. t.product_id ≡ k) (λ t. t.product_id == k)
        db.translations (λ t. (==_iff t.product_id k).0)
        (any-Exists (λ t. t.lang ≡ lang) (λ t. str_eq t.lang lang) (λ t. str_eq_iff t.lang lang)
          (translations_of k db) e)

path_of_category :
    (p : Product) (o : Option Category)
    → path_or p.category_id o
      ≡ (elim o [ none ↦ p.category_id ∷ [] | some category ↦ category.path ])
path_of_category p none = refl
path_of_category p (some c) = refl

has_price :
    (p : Product) (db : CatalogDb)
    → fit p db ≡ true
    → p.has_variants ≡ true
    → is_some (min_price (sold_variants p.id db)) ≡ true
unfolding get_variant_aggregate
has_price p db fits kinds = ground (arith, fits, kinds)

listed :
    (db : CatalogDb) (p : Product) (ts : List ProductTranslation)
    → find product_key p.id db.products ≡ some p
    → p.is_active ≡ true
    → fit p db ≡ true
    → All (IsBuyable db p.id) (map (card_row p (sources p db)) ts)
unfolding card_row sources
listed db p [] found on fits = tt
listed db p (t ∷ ts) found on fits = (
  record {
    product = p;
    exists = found;
    active = on;
    russian = speaks db p.id "ru" (ground (arith, fits));
    romanian = speaks db p.id "ro" (ground (arith, fits));
    sells = sells db p.id p p.has_variants refl (has_price p db fits);
    shelved = path_of_category p (find category_id p.category_id db.categories);
  },
  listed db p ts found on fits,
)

cards_of-IsBuyable :
    (db : CatalogDb) (k : ℕ) → IsSynced db → All (IsBuyable db k) (cards_of k db.cards)
cards_of-IsBuyable db k agrees = elim (Option-cases (find product_key k db.products)) [
  | inl missing ↦ subst (All (IsBuyable db k)) (sym (at_k.agrees ∙ ap (expected db) missing)) tt
  | inr (p, found) ↦
      subst (All (IsBuyable db k)) (sym (at_k.agrees ∙ ap (expected db) found))
        (shown p found (subst (Admitted db) found at_k.admitted) p.is_active refl)
]
  where
    at_k : SyncedAt db k
    at_k = agrees k

    shown :
        (p : Product)
        → find product_key k db.products ≡ some p
        → Admitted db (some p)
        → (b : Bool) → p.is_active ≡ b
        → All (IsBuyable db k) (listing p (sources p db) b)
    shown p found admitted true on =
        let keyed = find_key product_key k db.products p found in
        subst
          (λ j. All (IsBuyable db j) (map (card_row p (sources p db)) (sources p db).translations))
          keyed
          (listed db p (sources p db).translations
            (subst (λ j. find product_key j db.products ≡ some p) (sym keyed) found) on
            (admitted on))
    shown p found admitted false off = tt

-- What requests make of a catalogue without products, where ids of variants are a key and a new
-- product has a key that none has yet.
pub data Stocked : CatalogDb → Type 0 where
  opens : (db : CatalogDb) → db.products ≡ [] → db.cards ≡ [] → Stocked db
  serves :
      (q : ProductRequest) (db : CatalogDb)
      → Stocked db
      → IsKeyed db.variants
      → IsFresh q db
      → Stocked (held_after (run_request (serve q) db))

empty-IsSynced : (db : CatalogDb) → db.products ≡ [] → db.cards ≡ [] → IsSynced db
empty-IsSynced db none_made none_shown k =
    let gone : find product_key k db.products ≡ none = ap (find product_key k) none_made in
    SyncedAt-expected db k none gone (ap (cards_of k) none_shown) tt

Stocked-IsSynced : (db : CatalogDb) → Stocked db → IsSynced db
Stocked-IsSynced db (opens _ none_made none_shown) = empty-IsSynced db none_made none_shown
Stocked-IsSynced db (serves q before r keyed fresh) =
    serve-IsSynced q before (Stocked-IsSynced before r) keyed fresh

-- Where the ids of variants are a key and each new product has a new key: after any requests to the
-- products and variants of a catalogue that began without products, whether they succeed or raise,
-- every card is of an active product with texts in both languages, at its price, which is for a product
-- with variants the least among its active ones; it says in stock exactly where there is a piece to
-- buy, and stands under the path of its category.
pub Stocked-IsBuyable :
    (db : CatalogDb) (k : ℕ) → Stocked db → All (IsBuyable db k) (cards_of k db.cards)
Stocked-IsBuyable db k r = cards_of-IsBuyable db k (Stocked-IsSynced db r)
