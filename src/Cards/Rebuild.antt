-- ===== src/Cards/Rebuild.antt =====
-- What rebuild_card does to the session it meets (app/services/catalog_service.py).

use mathlib.Core.Path.{subst}
use store_evix.Common.{
  ℕ, ◌≡◌, refl, sym, ap, ◌∙◌, true, false, inl, inr, some, List, [], ◌∷◌, ◌++◌, map,
  select_where-append, append_nil, ◌==◌, ==_iff, if◌then◌else◌, Bool-cases, Option-cases, arith,
}
use store_evix.Common.Table.{find, modify, remove, find-modify, find_key}
use store_evix.Common.Session.{Result, continue, ok, err, Session}
use store_evix.Models.Catalog.{Product}
use store_evix.Models.CatalogDb.{ProductCard, CatalogDb}
use store_evix.Categories.{AdminCatalogError, not_found, publication}
use store_evix.Cards.Defs.{
  rebuild_cards, product_key, assert_publishable, sources, synced, card_row, set_products,
  set_cards, delete_product_cards, write_active, rebuild_card,
}
use store_evix.Cards.Sync.{
  cards_of, listing, expected, fit, IsSynced, IsSyncedBesides, cards_of-remove, cards_of-map,
  SyncedAt-expected, SyncedAt-SameAt, synced_frame, synced_card,
}

module _ (k : ℕ) (d : CatalogDb) (others : IsSyncedBesides k d) (p : Product)
    (found : find product_key k d.products ≡ some p) where
  keyed : p.id ≡ k
  keyed = find_key product_key k d.products p found

  -- A hidden product has no cards.
  hidden : p.is_active ≡ false → IsSynced (delete_product_cards k d)
  unfolding delete_product_cards
  hidden off j = elim (Bool-cases (k == j)) [
    | inl same ↦
        let at_k : k ≡ j = (==_iff k j).0 same in
        SyncedAt-expected (delete_product_cards k d) j (some p)
          (subst (λ i. find product_key i d.products ≡ some p) at_k found)
          (ground (arith, cards_of-remove j k d.cards)) (λ on. ground arith)
    | inr other ↦
        SyncedAt-SameAt d (delete_product_cards k d) j
          record {
            same_categories = refl;
            same_product = refl;
            same_translations = refl;
            same_variants = refl;
            same_image = refl;
            same_cards = ground (arith, cards_of-remove j k d.cards);
          }
          (others j other)
  ]

  abbrev relisted : CatalogDb
  relisted =
      let src = sources p d in
      set_cards (remove (λ c. c.product_id) k d.cards ++ map (card_row p src) src.translations)
        (set_products (modify product_key p.id (synced src.variants) d.products) d)

  relisted_cards :
      (j : ℕ)
      → cards_of j relisted.cards
        ≡ (if k == j then listing p (sources p d) true else cards_of j d.cards)
  relisted_cards j = ground (
    arith,
    keyed,
    select_where-append (λ c. c.product_id == j) (remove (λ c. c.product_id) k d.cards)
        (map (card_row p (sources p d)) (sources p d).translations),
    cards_of-remove j k d.cards,
    cards_of-map j p (sources p d) (sources p d).translations,
    append_nil (cards_of j d.cards),
  )

  relisted_product :
      (j : ℕ)
      → find product_key j relisted.products
        ≡ (if k == j then some (synced (sources p d).variants p) else find product_key j d.products)
  relisted_product j = ground (
    arith,
    keyed,
    found,
    find-modify product_key j p.id (synced (sources p d).variants) d.products
        (λ r. (synced_frame (sources p d).variants r).0),
  )

  abbrev synced_row : Product
  synced_row = synced (sources p d).variants p

  synced_sources : sources synced_row relisted ≡ sources p d
  unfolding sources
  synced_sources =
      let (q_id, q_category, _, _, _) = synced_frame (sources p d).variants p in
      rw (q_id, q_category) refl

  synced_listing :
      p.is_active ≡ true → listing p (sources p d) true ≡ expected relisted (some synced_row)
  synced_listing on =
      let (_, _, q_active, _, _) = synced_frame (sources p d).variants p in
      sym (synced_card p (sources p d) (sources p d).translations)
      ∙ ap (λ src. listing synced_row src true) (sym synced_sources)
      ∙ ap (listing synced_row (sources synced_row relisted)) (sym (q_active ∙ on))

  synced_fit : fit p d ≡ true → fit synced_row relisted ≡ true
  synced_fit h =
      let (q_id, _, _, q_variants, _) = synced_frame (sources p d).variants p in
      rw (q_id, q_variants) h

  -- A published product has its cards, and no other product's change.
  shown : p.is_active ≡ true → fit p d ≡ true → IsSynced relisted
  shown on fits j = elim (Bool-cases (k == j)) [
    | inl same ↦
        SyncedAt-expected relisted j (some synced_row) (ground (arith, relisted_product j))
          (ground (arith, relisted_cards j, synced_listing on)) (λ _. synced_fit fits)
    | inr other ↦
        SyncedAt-SameAt d relisted j
          record {
            same_categories = refl;
            same_product = ground (arith, relisted_product j);
            same_translations = refl;
            same_variants = refl;
            same_image = refl;
            same_cards = ground (arith, relisted_cards j);
          }
          (others j other)
  ]

-- It raises and has committed nothing, or the read model agrees and only products and cards changed.
pub data Rebuilt (s : Session CatalogDb)
    : Result AdminCatalogError (Unit {0}) × Session CatalogDb → Type 0 where
  refused :
      (e : AdminCatalogError) (t : Session CatalogDb)
      → t.committed ≡ s.committed
      → Rebuilt s (err e, t)
  rebuilt :
      (t : Session CatalogDb)
      → t.committed ≡ s.committed
      → IsSynced t.work
      → ((cs : List ProductCard) × (ps : List Product) × (t.work
            ≡ set_cards cs (set_products ps s.work)))
      → Rebuilt s (ok tt, t)

pub assert_publishable_lem :
    (p : Product) (s : Session CatalogDb)
    → find product_key p.id s.work.products ≡ some p
    → assert_publishable p.id s ≡ ((if fit p s.work then ok tt else err publication), s)
unfolding assert_publishable
assert_publishable_lem p s found = elim (Bool-cases (fit p s.work)) [
  | inl fits ↦ rw (found, fits) refl
  | inr unfit ↦ rw (found, unfit) refl
]

module _ (k : ℕ) (s : Session CatalogDb) (others : IsSyncedBesides k s.work) where
  abbrev without_cards : Session CatalogDb
  without_cards = record s { work = delete_product_cards k s.work }

  write_active-Rebuilt :
      (p : Product)
      → find product_key k s.work.products ≡ some p
      → p.is_active ≡ true
      → Rebuilt s (write_active p true without_cards)
  unfolding delete_product_cards sources
  write_active-Rebuilt p found on = elim (Bool-cases (fit p s.work)) [
    | inl fits ↦
        rw (checked, fits) (rebuilt _ refl (shown k s.work others p found on fits) (_, _, refl))
    | inr unfit ↦ rw (checked, unfit) (refused publication _ refl)
  ]
    where
      keyed : p.id ≡ k
      keyed = find_key product_key k s.work.products p found

      checked :
          assert_publishable p.id without_cards
          ≡ ((if fit p s.work then ok tt else err publication), without_cards)
      checked =
          assert_publishable_lem p without_cards
            (subst (λ i. find product_key i s.work.products ≡ some p) (sym keyed) found)

  found_product :
      (p : Product) → find product_key k s.work.products ≡ some p → Rebuilt s (rebuild_card k s)
  unfolding rebuild_card
  found_product p found = rw found elim (Bool-cases p.is_active) [
    | inl on ↦
        subst (λ b. Rebuilt s (write_active p b without_cards)) (sym on)
          (write_active-Rebuilt p found on)
    | inr off ↦
        subst (λ b. Rebuilt s (write_active p b without_cards)) (sym off)
          (rebuilt _ refl (hidden k s.work others p found off) (_, s.work.products, refl))
  ]

  -- Rebuilding the cards of one product, where those of every other agree.
  pub rebuild_card-Rebuilt : Rebuilt s (rebuild_card k s)
  unfolding rebuild_card
  rebuild_card-Rebuilt = elim (Option-cases (find product_key k s.work.products)) [
    | inl missing ↦ rw missing (refused not_found s refl)
    | inr (p, found) ↦ found_product p found
  ]

-- For a hidden product the rebuild always succeeds.
pub rebuild_cards_hidden :
    (k : ℕ) (s : Session CatalogDb) (p : Product)
    → find product_key k s.work.products ≡ some p
    → p.is_active ≡ false
    → rebuild_cards (k ∷ []) s ≡ (ok tt, record s { work = delete_product_cards k s.work })
unfolding rebuild_cards rebuild_card
rebuild_cards_hidden k s p found off =
    let bare : Session CatalogDb = record s { work = delete_product_cards k s.work } in
    rw found (
      ap
        (λ b.
          continue (write_active p b bare).0 (λ (_ : Unit {0}). rebuild_cards [])
            (write_active p b bare).1)
        off)
