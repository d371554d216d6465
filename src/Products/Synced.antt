-- ===== src/Products/Synced.antt =====
-- Every product operation leaves the read model in agreement with its tables, whether it succeeds or
-- raises.

use mathlib.Core.Path.{subst}
use store_evix.Common.{
  ℕ, ◌≡◌, refl, sym, ap, ◌∙◌, Bool, true, false, inl, inr, none, some, List, [], ◌∷◌, ◌++◌, map,
  select_where, select_where-append, append_nil, ◌==◌, ==_iff, Bool-cases, Option-cases, arith,
}
use store_evix.Common.Table.{find, modify, remove, find-modify, find-remove, find-append}
use store_evix.Common.Patch.{Patch, unset, assign}
use store_evix.Common.Session.{
  Result, err, Session, pure, continue, guard_or_raise, commit, ◌>>=◌, ◌>>◌,
}
use store_evix.Models.Catalog.{Product, ProductTranslation}
use store_evix.Models.CatalogDb.{ProductCard, CatalogDb}
use store_evix.Categories.{AdminCatalogError, CatalogAction, not_found, get_category, category_id}
use store_evix.Cards.{
  product_key, publishable, assert_publishable, sold, sold_variants, translations_of,
  get_main_image_url, set_products, set_cards, rebuild_card, rebuild_cards, delete_product_cards,
  sources,
}
use store_evix.Cards.Sync.{
  IsSynced, IsSyncedBesides, SyncedAt, SyncedAt-expected, SameAt, SyncedAt-SameAt, expected,
  listing, cards_of, cards_of-remove,
}
use store_evix.Cards.Rebuild.{Rebuilt, refused, rebuilt, rebuild_card-Rebuilt}
use store_evix.Products.Defs.{
  get_product, publish_check, rebuild_active, category_exists, ProductUpdate, product_changes,
  update_product, create_product, delete_product, set_product_translation, ProductTranslationIn,
  product_translation, retranslate, put_translation, drop_product, set_translations,
}

-- What the database holds after an answer agrees with the read model.
abbrev pub Committed : {A : Type 0} → Result AdminCatalogError A × Session CatalogDb → Type 0
Committed x = IsSynced x.1.committed

pub others_synced :
    (k : ℕ) (db d : CatalogDb)
    → IsSynced db
    → ((j : ℕ) → (k == j) ≡ false → SameAt db d j)
    → IsSyncedBesides k d
others_synced k db d h same j other = SyncedAt-SameAt db d j (same j other) (h j)

-- The end of an operation on one product, its cards' rebuild and what follows: it raises and has
-- committed nothing, or goes on where only products and cards have changed and the listing agrees.
pub rebuild_cases :
    {B : Type 0} (R : Result AdminCatalogError B × Session CatalogDb → Type 0) (k : ℕ)
    (s : Session CatalogDb) (f : Unit {0} → CatalogAction B)
    → IsSyncedBesides k s.work
    → ((e : AdminCatalogError) (t : Session CatalogDb) → t.committed ≡ s.committed → R (err e, t))
    → ((t : Session CatalogDb) (cs : List ProductCard) (ps : List Product)
        → t.committed ≡ s.committed
        → IsSynced t.work
        → t.work ≡ set_cards cs (set_products ps s.work)
        → R (f tt t))
    → R ((rebuild_cards (k ∷ []) >>= f) s)
unfolding rebuild_cards
rebuild_cases {B = B} R k s f others stop next =
    go (rebuild_card k s) (rebuild_card-Rebuilt k s others)
  where
    go :
        (x : Result AdminCatalogError (Unit {0}) × Session CatalogDb)
        → Rebuilt s x
        → R (
            continue
              (continue x.0 (λ _. rebuild_cards []) x.1).0
              f
              (continue x.0 (λ _. rebuild_cards []) x.1).1)
    go x (refused e t same) = stop e t same
    go x (rebuilt t same agrees (cs, ps, e)) = next t cs ps same agrees e

pub rebuild_then :
    {B : Type 0} (k : ℕ) (s : Session CatalogDb) (f : Unit {0} → CatalogAction B)
    → IsSyncedBesides k s.work
    → IsSynced s.committed
    → ((t : Session CatalogDb) → IsSynced t.work → IsSynced t.committed → Committed (f tt t))
    → Committed ((rebuild_cards (k ∷ []) >>= f) s)
rebuild_then k s f others held next =
    rebuild_cases Committed k s f others
      (λ e t same j. subst (λ d. SyncedAt d j) (sym same) (held j))
      (λ t cs ps same agrees e. next t agrees (λ j. subst (λ d. SyncedAt d j) (sym same) (held j)))

-- A check before publication changes nothing.
pub checked_then :
    {B : Type 0} (active : Bool) (k : ℕ) (s : Session CatalogDb) (f : Unit {0} → CatalogAction B)
    → IsSynced s.committed
    → Committed (f tt s)
    → Committed ((publish_check active k >>= f) s)
unfolding assert_publishable
checked_then false k s f held go = go
checked_then true k s f held go = elim (Option-cases (find product_key k s.work.products)) [
  | inl missing ↦ rw missing held
  | inr (p, found) ↦
      elim (Bool-cases (publishable p (translations_of k s.work) (sold_variants k s.work))) [
        | inl fits ↦ rw (found, fits) go
        | inr unfit ↦ rw (found, unfit) held
      ]
]

category_then :
    {B : Type 0} (c : Patch ℕ) (s : Session CatalogDb) (f : Unit {0} → CatalogAction B)
    → IsSynced s.committed
    → Committed (f tt s)
    → Committed ((category_exists c >>= f) s)
unfolding get_category
category_then unset s f held go = go
category_then (assign c) s f held go = elim (Option-cases (find category_id c s.work.categories)) [
  | inl missing ↦ rw missing held
  | inr (x, found) ↦ rw found go
]

pub new_translations :
    (j k : ℕ) (ts : List ProductTranslation) (xs : List ProductTranslationIn)
    → (k == j) ≡ false
    → select_where (λ t. t.product_id == j) (ts ++ map (product_translation k) xs)
      ≡ select_where (λ t. t.product_id == j) ts
new_translations j k ts xs other =
    select_where-append (λ t. t.product_id == j) ts (map (product_translation k) xs)
    ∙ ap (λ l. select_where (λ t. t.product_id == j) ts ++ l) (none_of xs)
    ∙ append_nil (select_where (λ t. t.product_id == j) ts)
  where
    none_of :
        (xs : List ProductTranslationIn)
        → select_where (λ t. t.product_id == j) (map (product_translation k) xs) ≡ []
    none_of [] = refl
    none_of (x ∷ xs) = ground (arith, none_of xs)

retranslated :
    (j k : ℕ) (x : ProductTranslationIn) (ts : List ProductTranslation)
    → (k == j) ≡ false
    → select_where (λ t. t.product_id == j) (retranslate k x ts)
      ≡ select_where (λ t. t.product_id == j) ts
retranslated j k x [] other = refl
retranslated j k x (t ∷ ts) other = ground (arith, retranslated j k x ts other)

put_others :
    (j k : ℕ) (x : ProductTranslationIn) (ts : List ProductTranslation)
    → (k == j) ≡ false
    → select_where (λ t. t.product_id == j) (put_translation k x ts)
      ≡ select_where (λ t. t.product_id == j) ts
put_others j k x ts other =
    ground (arith, retranslated j k x ts other, new_translations j k ts (x ∷ []) other)

-- The rows of the other products stay when those of one are deleted.
kept_others :
    {A : Type 0} (key : A → ℕ) (p : A → Bool) (j k : ℕ) (rs : List A)
    → (k == j) ≡ false
    → ((r : A) → p r ≡ true → key r ≡ j)
    → select_where p (remove key k rs) ≡ select_where p rs
kept_others key p j k [] other only = refl
kept_others key p j k (r ∷ rs) other only =
    ground (arith, only r, kept_others key p j k rs other only)

module _ (db : CatalogDb) (agrees : IsSynced db) where
  abbrev pub opened : Session CatalogDb
  opened = record { work = db; committed = db }

  -- A write to the row of one product, of what the others' cards are not made of.
  pub product_others :
      (k : ℕ) (f : Product → Product)
      → ((p : Product) → (f p).id ≡ p.id)
      → IsSyncedBesides k (set_products (modify product_key k f db.products) db)
  product_others k f keep = others_synced k db _ agrees (λ j other. record {
    same_categories = refl;
    same_product = ground (arith, find-modify product_key j k f db.products keep);
    same_translations = refl;
    same_variants = refl;
    same_image = refl;
    same_cards = refl;
  })

  pub update_product-IsSynced : (k : ℕ) (u : ProductUpdate) → Committed (update_product k u opened)
  unfolding update_product get_product
  update_product-IsSynced k u =
      guard_or_raise Committed opened not_found (find product_key k db.products) _ agrees
        (λ p found. category_then u.category_id opened _ agrees (
          checked_then (product_changes u p).is_active k _ _ agrees (
            rebuild_then k _ _ (product_others k (product_changes u) (λ q. refl)) agrees
              (λ t now before. now))))

  pub set_product_translation-IsSynced :
      (k : ℕ) (x : ProductTranslationIn) → Committed (set_product_translation k x opened)
  unfolding set_product_translation get_product
  set_product_translation-IsSynced k x =
      guard_or_raise Committed opened not_found (find product_key k db.products) _ agrees
        (λ p found. checked_then p.is_active k _ _ agrees (
          rebuild_then k _ _
            (others_synced k db _ agrees (λ j other. record {
              same_categories = refl;
              same_product = refl;
              same_translations = put_others j k x db.translations other;
              same_variants = refl;
              same_image = refl;
              same_cards = refl;
            }))
            agrees (λ t now before. now)))

  deleted : (k : ℕ) → IsSynced (delete_product_cards k (drop_product k db))
  unfolding delete_product_cards
  deleted k j = elim (Bool-cases (k == j)) [
    | inl same ↦
        SyncedAt-expected (delete_product_cards k (drop_product k db)) j none
          (ground (arith, find-remove product_key j k db.products))
          (ground (arith, cards_of-remove j k db.cards)) tt
    | inr other ↦
        SyncedAt-SameAt db (delete_product_cards k (drop_product k db)) j
          record {
            same_categories = refl;
            same_product = ground (arith, find-remove product_key j k db.products);
            same_translations =
                kept_others (λ t. t.product_id) (λ t. t.product_id == j) j k db.translations other
                  (λ t e. ground arith);
            same_variants =
                kept_others (λ v. v.product_id) (sold j) j k db.variants other
                  (λ v e. ground arith);
            same_image = ap get_main_image_url (
                kept_others (λ m. m.product_id) (λ m. m.product_id == j) j k db.media other
                  (λ m e. ground arith));
            same_cards = ground (arith, cards_of-remove j k db.cards);
          }
          (agrees j)
  ]

  pub delete_product-IsSynced : (k : ℕ) → Committed (delete_product k opened)
  unfolding delete_product get_product
  delete_product-IsSynced k =
      guard_or_raise Committed opened not_found (find product_key k db.products) _ agrees
        (λ p found. deleted k)

  created_others :
      (payload : Product) (xs : List ProductTranslationIn)
      → IsSyncedBesides payload.id (
          set_translations
            (db.translations ++ map (product_translation payload.id) xs)
            (set_products (db.products ++ payload ∷ []) db))
  created_others payload xs = others_synced payload.id db _ agrees (λ j other. record {
    same_categories = refl;
    same_product = ground (
      arith,
      find-append product_key j db.products (payload ∷ []),
      Option-cases (find product_key j db.products),
    );
    same_translations = new_translations j payload.id db.translations xs other;
    same_variants = refl;
    same_image = refl;
    same_cards = refl;
  })

  -- A hidden product starts without cards.
  created_hidden :
      (payload : Product) (xs : List ProductTranslationIn)
      → find product_key payload.id db.products ≡ none
      → payload.is_active ≡ false
      → IsSynced (
          set_translations
            (db.translations ++ map (product_translation payload.id) xs)
            (set_products (db.products ++ payload ∷ []) db))
  created_hidden payload xs fresh off j = elim (Bool-cases (payload.id == j)) [
    | inl same ↦
        let here =
          SyncedAt-expected _ payload.id (some payload)
            (ground (arith, fresh, find-append product_key payload.id db.products (payload ∷ [])))
            (no_cards ∙ ap (listing payload (sources payload _)) (sym off)) (λ on. ground arith) in
        subst (SyncedAt _) ((==_iff payload.id j).0 same) here
    | inr other ↦ created_others payload xs j other
  ]
    where
      no_cards : cards_of payload.id db.cards ≡ []
      no_cards = (agrees payload.id).agrees ∙ ap (expected db) fresh

  pub create_product-IsSynced :
      (payload : Product) (xs : List ProductTranslationIn)
      → find product_key payload.id db.products ≡ none
      → Committed (create_product payload xs opened)
  unfolding create_product get_category
  create_product-IsSynced payload xs fresh =
      guard_or_raise Committed opened not_found (find category_id payload.category_id db.categories)
        _ agrees (λ c found. shown_or_hidden payload.is_active refl)
    where
      staged : Session CatalogDb
      staged = record opened {
        work =
            set_translations (db.translations ++ map (product_translation payload.id) xs)
              (set_products (db.products ++ payload ∷ []) db);
      }

      shown_or_hidden :
          (b : Bool)
          → payload.is_active ≡ b
          → Committed (
              (publish_check b payload.id
                  >> (rebuild_active b payload.id >> (commit >> pure payload)))
                staged)
      shown_or_hidden true on = checked_then true payload.id staged _ agrees (
          rebuild_then payload.id staged _ (created_others payload xs) agrees (λ t now before. now))
      shown_or_hidden false off = created_hidden payload xs fresh off
