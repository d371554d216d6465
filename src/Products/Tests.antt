-- ===== src/Products/Tests.antt =====
-- The properties of the product operations on the catalogue of the small shop.
use store_evix.Common.{
  ℕ, ◌+◌, ◌==◌, ◌≡◌, refl, true, false, inl, inr, none, some, List, [], ◌∷◌, All, Bool-cases, arith,
}
use store_evix.Common.Session.{ok, err, run_request}
use store_evix.Models.Catalog.{Product, ProductVariant}
use store_evix.Models.CatalogDb.{ProductCard, CatalogDb}
use store_evix.Fixtures.{kettle, shirt, catalogue}
use store_evix.Categories.{publication, get_category, move_category, resolve_path}
use store_evix.Cards.{
  delete_product_cards, assert_publishable, sources, offer, card_row, get_main_image_url,
  get_variant_aggregate, rebuild_card, rebuild_cards,
}
use store_evix.Cards.Sync.{IsSynced, SyncedAt-expected, cards_of}
use store_evix.Products.Defs.{ProductTranslationIn, create_product, get_product}
use store_evix.Products.Variants.{
  get_variant, delete_variant, variation_attribute_ids, values_of, sorted,
}
use store_evix.Products.Generate.{assigned_values, combinations, fill, generate_variants}
use store_evix.Products.Combos.{Has}
use store_evix.Products.Generated.{choices_of}
use store_evix.Products.Completed.{generate_variants-IsComplete}
use store_evix.Products.Requests.{create, serve, serve-IsSynced, held_after}
use store_evix.Products.Buyable.{opens, serves, IsBuyable, Stocked-IsBuyable}

-- The catalogue before its first product.
abbrev bare : CatalogDb
bare = record catalogue { products = []; translations = []; variants = []; variant_values = [] }

bare-IsSynced : IsSynced bare
bare-IsSynced k = record { agrees = refl; admitted = tt }

abbrev texts : List ProductTranslationIn
texts =
    record { lang = "ro"; name = "Ceainic"; slug = "ceainic" }
    ∷ record { lang = "ru"; name = "Чайник"; slug = "chainik" }
    ∷ []

serve-IsSynced_example : IsSynced (held_after (run_request (serve (create kettle texts)) bare))
serve-IsSynced_example = serve-IsSynced (create kettle texts) bare bare-IsSynced tt refl

abbrev kettle_card : ProductCard
kettle_card = record {
  product_id = 1;
  lang = "ro";
  category_id = 12;
  name = "Ceainic";
  slug = "ceainic";
  price = 12_550;
  old_price = none;
  price_max = none;
  in_stock = true;
  main_image_url = some "k.png";
  badge = none;
  path = 10 ∷ 11 ∷ 12 ∷ [];
  is_active = true;
  is_featured = false;
}

abbrev listed_kettle : List ProductCard
listed_kettle =
    kettle_card ∷ record kettle_card { lang = "ru"; name = "Чайник"; slug = "chainik" } ∷ []

abbrev with_kettle : CatalogDb
with_kettle = held_after (run_request (serve (create kettle texts)) bare)

kettle_is_listed : with_kettle.cards ≡ listed_kettle
unfolding create_product get_category rebuild_cards rebuild_card delete_product_cards
    assert_publishable sources offer card_row get_main_image_url
kettle_is_listed = refl

Stocked-IsBuyable_example : All (IsBuyable with_kettle 1) (cards_of 1 with_kettle.cards)
Stocked-IsBuyable_example =
    Stocked-IsBuyable with_kettle 1
      (serves (create kettle texts) bare (opens bare refl refl) tt refl)

-- Without the second language a product is not published.
kettle_in_one_language :
    run_request
      (create_product kettle (record { lang = "ro"; name = "Ceainic"; slug = "ceainic" } ∷ []))
      bare
    ≡ (err publication, bare)
unfolding create_product get_category assert_publishable
kettle_in_one_language = refl

-- The last active variant of an active product cannot go.
last_variant_stays : run_request (delete_variant 7) catalogue ≡ (err publication, catalogue)
unfolding delete_variant get_variant get_product assert_publishable get_variant_aggregate
last_variant_stays = refl

-- A category that is moved leaves the old path on the cards of its products, which the listing of a
-- category looks for.
moved_away :
    cards_of 1
      (run_request (move_category 12 none) (record catalogue { cards = listed_kettle })).1.cards
    ≡ listed_kettle
unfolding move_category get_category resolve_path
moved_away = refl

-- The shirt before it goes on sale.
abbrev draft : Product
draft = record shirt { is_active = false }

abbrev drafts : CatalogDb
drafts = record catalogue { products = draft ∷ [] }

drafts-IsSynced : IsSynced drafts
drafts-IsSynced k = elim (Bool-cases (2 == k)) [
  | inl is_draft ↦
      SyncedAt-expected drafts k (some draft) (ground (arith, is_draft)) refl (λ on. ground arith)
  | inr other ↦ SyncedAt-expected drafts k none (ground (arith, other)) refl tt
]

generate_variants-IsComplete_example :
    (a : List ProductVariant × ℕ) × ((run_request (generate_variants (λ n. 8 + n) 2) drafts).0
      ≡ ok a)
    × All
        (Has 2 (run_request (generate_variants (λ n. 8 + n) 2) drafts).1)
        (combinations (choices_of 2 drafts))
unfolding variation_attribute_ids assigned_values
generate_variants-IsComplete_example =
    generate_variants-IsComplete (λ n. 8 + n) 2 drafts drafts-IsSynced (λ n. omega arith)
      (record { variants_below = (omega arith, tt); links_below = (omega arith, tt) })
      (record { product = draft; exists = refl; off = refl; selects = refl; chosen = refl })

-- The blue shirt is the only one that is missing.
only_blue_is_new :
    (run_request (generate_variants (λ n. 8 + n) 2) drafts).0
    ≡ ok (
      record {
        id = 8;
        product_id = 2;
        code = none;
        price = shirt.price;
        old_price = none;
        qty = 0;
        position = 1;
        is_active = true;
        weight_g = none;
      }
          ∷ [],
      1,
    )
unfolding generate_variants get_product assigned_values combinations fill variation_attribute_ids
    values_of rebuild_cards rebuild_card delete_product_cards sorted
only_blue_is_new = refl
