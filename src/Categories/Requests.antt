-- ===== src/Categories/Requests.antt =====
-- The tree under whole requests to the category operations, and under any sequence of them.
use mathlib.Core.Path.{subst}
use store_evix.Common.{
  ℕ, ◌≡◌, refl, sym, ap, ◌↔◌, true, inl, inr, ◌⊎◌, Option, none, some, List, [], ◌∷◌, ◌++◌,
  contains, Bool-cases, Option-cases, arith,
}
use store_evix.Common.Table.{find, modify, find_key}
use store_evix.Common.Patch.{Patch, unset, assign}
use store_evix.Common.Session.{
  Result, ok, err, Session, run_request, pure, commit, ◌>>=◌, Keeps, Keeps-bind, Keeps-or_raise,
  bind_pure,
}
use store_evix.Models.CatalogDb.{Category, CatalogDb}
use store_evix.Categories.Defs.{
  category_id, AdminCatalogError, not_found, CatalogAction, get_category, resolve_path,
  CategoryCreate, CategoryTranslationIn, CategoryReorderItem, CategoryUpdate, create_category,
  update_category, delete_category, set_category_translation, reorder_all, reorder_categories,
  move_category, moved_first, at_position, category_changes, has_children, has_products,
}
use store_evix.Categories.Tree.{Placed, AncestorsOf, IsTree, Under, contains_iff, acyclic}
use store_evix.Categories.Edits.{outline, IsTree-modify, IsTree-create, IsTree-delete}
use store_evix.Categories.Moves.{IsTree-move}
use store_evix.Categories.Verdict.{Moved, no_node, no_parent, cyclic, moved, move_category-Moved}

abbrev pub categories_after : {A : Type 0} → Result AdminCatalogError A × CatalogDb → List Category
categories_after (_, db) = db.categories

-- Both what the session sees and what the database holds are trees.
record BothTrees (s : Session CatalogDb) : Type 0 where
  seen : IsTree s.work.categories
  held : IsTree s.committed.categories

Moved-BothTrees :
    (id : ℕ) (o : Option ℕ) (s : Session CatalogDb)
    (answer : Result AdminCatalogError (Unit {0}) × Session CatalogDb)
    → BothTrees s
    → Moved id o s answer
    → BothTrees answer.1
Moved-BothTrees id o s answer h (no_node _) = h
Moved-BothTrees id o s answer h (no_parent _ _ _) = h
Moved-BothTrees id o s answer h (cyclic _ _ _) = h
Moved-BothTrees id o s answer h (moved node prefix found at free t e) =
    let tree = IsTree-move s.work.categories h.seen id node found o prefix at free in
    let kept = subst (λ (db : CatalogDb). IsTree db.categories) (sym e) tree in
    record { seen = kept; held = kept }

move_category-BothTrees :
    (id : ℕ) (o : Option ℕ) (s : Session CatalogDb)
    → BothTrees s
    → BothTrees (move_category id o s).1
move_category-BothTrees id o s h = Moved-BothTrees id o s _ h (move_category-Moved id s o)

placed_below :
    (cs : List Category) (id : ℕ) (prefix : List ℕ) (o : Option ℕ)
    → AncestorsOf cs o prefix
    → Placed cs id (prefix ++ id ∷ []) o
placed_below cs id prefix none e = ap (λ l. l ++ id ∷ []) e
placed_below cs id prefix (some p) (r, found, e) = (r, found, ap (λ l. l ++ id ∷ []) e)

resolve_path_lem :
    (o : Option ℕ) (s : Session CatalogDb)
    → (resolve_path o s ≡ (err not_found, s))
      ⊎ ((prefix : List ℕ) × AncestorsOf s.work.categories o prefix
          × (resolve_path o s ≡ (ok prefix, s)))
unfolding resolve_path get_category
resolve_path_lem none s = inr ([], refl, refl)
resolve_path_lem (some p) s = elim (Option-cases (find category_id p s.work.categories)) [
  | inl missing ↦ inl (rw missing refl)
  | inr (r, found) ↦ inr (r.path, (r, found, refl), rw found refl)
]

-- Operations that keep the trees in whatever session they meet.
get_category-Keeps : (id : ℕ) → Keeps BothTrees (get_category id)
unfolding get_category
get_category-Keeps id s h =
    Keeps-or_raise BothTrees (find category_id id s.work.categories) not_found s h

-- What a session sees after a write to one row, of what the tree does not depend on.
changed_row :
    (id : ℕ) (f : Category → Category) (s : Session CatalogDb)
    → ((c : Category) → outline (f c) ≡ outline c)
    → BothTrees s
    → IsTree (modify category_id id f s.work.categories)
changed_row id f s keep h = IsTree-modify id f s.work.categories keep h.seen

commit-Keeps : Keeps BothTrees (commit {E = AdminCatalogError})
commit-Keeps s h = record { seen = h.seen; held = h.seen }

moved_first-Keeps : (id : ℕ) (p : Patch (Option ℕ)) → Keeps BothTrees (moved_first id p)
moved_first-Keeps id unset = λ s h. h
moved_first-Keeps id (assign o) = move_category-BothTrees id o

update_category-Keeps : (id : ℕ) (u : CategoryUpdate) → Keeps BothTrees (update_category id u)
unfolding update_category
update_category-Keeps id u = Keeps-bind BothTrees (get_category id) _ (get_category-Keeps id) (λ _.
    Keeps-bind BothTrees (moved_first id u.parent_id) _ (moved_first-Keeps id u.parent_id) (λ _.
      Keeps-bind BothTrees (get_category id) _ (get_category-Keeps id) (λ _ s h.
        let seen = changed_row id (category_changes u) s (λ c. refl) h in
        record { seen = seen; held = seen })))

reorder_all-Keeps : (items : List CategoryReorderItem) → Keeps BothTrees (reorder_all items)
unfolding reorder_all
reorder_all-Keeps [] = λ s h. h
reorder_all-Keeps (i ∷ is) =
    Keeps-bind BothTrees (get_category i.item_id) _ (get_category-Keeps i.item_id) (λ _ s h.
      let seen = changed_row i.item_id (at_position i.new_position) s (λ c. refl) h in
      reorder_all-Keeps is _ (record { seen = seen; held = h.held }))

reorder_categories-Keeps :
    (items : List CategoryReorderItem) → Keeps BothTrees (reorder_categories items)
unfolding reorder_categories
reorder_categories-Keeps items =
    Keeps-bind BothTrees (reorder_all items) _ (reorder_all-Keeps items) (λ _. commit-Keeps)

set_category_translation-Keeps :
    (id : ℕ) (payload : CategoryTranslationIn)
    → Keeps BothTrees (set_category_translation id payload)
unfolding set_category_translation
set_category_translation-Keeps id payload =
    Keeps-bind BothTrees (get_category id) _ (get_category-Keeps id)
      (λ _ s h. record { seen = h.seen; held = h.seen })

-- Each operation, on a request of its own.
module _ (db : CatalogDb) (tree : IsTree db.categories) where
  fresh_session : BothTrees (record { work = db; committed = db })
  fresh_session = record { seen = tree; held = tree }

  move_category-IsTree :
      (id : ℕ) (o : Option ℕ) → IsTree (categories_after (run_request (move_category id o) db))
  move_category-IsTree id o = (move_category-BothTrees id o _ fresh_session).held

  delete_category-IsTree :
      (id : ℕ) → IsTree (categories_after (run_request (delete_category id) db))
  unfolding delete_category get_category
  delete_category-IsTree id = elim (Option-cases (find category_id id db.categories)) [
    | inl missing ↦ ground (arith, missing)
    | inr (c, found) ↦ elim (Bool-cases (has_children id db.categories)) [
      | inl children ↦ rw (found, children) tree
      | inr childless ↦ elim (Bool-cases (has_products id db.products)) [
        | inl products ↦ rw (found, childless, products) tree
        | inr empty ↦
            rw (found, childless, empty, find_key category_id id db.categories c found)
              (IsTree-delete id db.categories childless tree)
      ]
    ]
  ]

  create_category-IsTree :
      (id : ℕ) (payload : CategoryCreate)
      → find category_id id db.categories ≡ none
      → IsTree (categories_after (run_request (create_category id payload) db))
  unfolding create_category
  create_category-IsTree id payload fresh =
      elim (resolve_path_lem payload.parent_id (record { work = db; committed = db })) [
        | inl missing ↦ rw missing tree
        | inr (prefix, at, found) ↦ rw found (
            IsTree-create id prefix payload db.categories fresh
              (placed_below db.categories id prefix payload.parent_id at) tree)
      ]

  update_category-IsTree :
      (id : ℕ) (u : CategoryUpdate)
      → IsTree (categories_after (run_request (update_category id u) db))
  update_category-IsTree id u = (update_category-Keeps id u _ fresh_session).held

-- The requests to the category operations; a new category comes with its key.
pub data CategoryRequest : Type 0 where
  create : ℕ → CategoryCreate → CategoryRequest
  update : ℕ → CategoryUpdate → CategoryRequest
  delete : ℕ → CategoryRequest
  translate : ℕ → CategoryTranslationIn → CategoryRequest
  reorder : List CategoryReorderItem → CategoryRequest
  move : ℕ → Option ℕ → CategoryRequest

abbrev pub serve : CategoryRequest → CatalogAction (Unit {0})
serve (create id payload) = create_category id payload >>= λ _. pure tt
serve (update id u) = update_category id u
serve (delete id) = delete_category id
serve (translate id payload) = set_category_translation id payload
serve (reorder items) = reorder_categories items
serve (move id new_parent) = move_category id new_parent

-- The sequence hands out keys that no row has.
abbrev pub IsFresh : CategoryRequest → List Category → Type 0
IsFresh (create id payload) cs = find category_id id cs ≡ none
IsFresh _ cs = Unit

-- On a tree, with a key for a new category that none has yet: a request to the categories, whether it
-- succeeds or raises, leaves a tree.
pub serve-IsTree :
    (q : CategoryRequest) (db : CatalogDb)
    → IsTree db.categories
    → IsFresh q db.categories
    → IsTree (categories_after (run_request (serve q) db))
serve-IsTree (create id payload) db tree fresh =
    subst (λ (s : Session CatalogDb). IsTree s.committed.categories)
      (sym (bind_pure (create_category id payload) tt (record { work = db; committed = db })))
      (create_category-IsTree db tree id payload fresh)
serve-IsTree (update id u) db tree fresh = update_category-IsTree db tree id u
serve-IsTree (delete id) db tree fresh = delete_category-IsTree db tree id
serve-IsTree (translate id payload) db tree fresh =
    (set_category_translation-Keeps id payload _ (fresh_session db tree)).held
serve-IsTree (reorder items) db tree fresh =
    (reorder_categories-Keeps items _ (fresh_session db tree)).held
serve-IsTree (move id o) db tree fresh = move_category-IsTree db tree id o

-- What requests make of a catalogue without categories.
pub data Reached : CatalogDb → Type 0 where
  empty : (db : CatalogDb) → db.categories ≡ [] → Reached db
  served :
      (q : CategoryRequest) (db : CatalogDb)
      → Reached db
      → IsFresh q db.categories
      → Reached (run_request (serve q) db).1

empty-IsTree : (cs : List Category) → cs ≡ [] → IsTree cs
empty-IsTree cs e = record { placed = λ k c found. ground arith; deep = λ k c found. ground arith }

pub Reached-IsTree : (db : CatalogDb) → Reached db → IsTree db.categories
Reached-IsTree db (empty _ e) = empty-IsTree db.categories e
Reached-IsTree db (served q before r fresh) = serve-IsTree q before (Reached-IsTree before r) fresh

-- Whatever was requested, in whatever order: a category's stored path names exactly the category
-- and those that it lies below by the parents' keys, and no category lies below itself.
pub Reached-paths :
    (db : CatalogDb) (k j : ℕ) (c : Category)
    → Reached db
    → find category_id j db.categories ≡ some c
    → ((contains k c.path ≡ true) ↔ Under db.categories k j)
      × ((p : ℕ) → c.parent_id ≡ some p → ¬ Under db.categories j p)
Reached-paths db k j c r found =
    let tree = Reached-IsTree db r in
    (
      contains_iff db.categories tree k j c found,
      λ p names. acyclic db.categories tree j p c found names,
    )
