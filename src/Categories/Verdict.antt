-- ===== src/Categories/Verdict.antt =====
-- What move_category answers, on every branch.
use mathlib.Core.Option
use mathlib.Core.Path.{subst}
use store_evix.Common.{
  ℕ, ◌≡◌, refl, sym, true, false, inl, inr, ◌⊎◌, Option, none, some, List, [], ◌∷◌, ◌++◌, map,
  length, contains, ◌==◌, if◌then◌else◌, Bool-cases, Option-cases, arith,
}
use store_evix.Common.Table.{find}
use store_evix.Common.Session.{Result, ok, err, Session, run_request}
use store_evix.Models.CatalogDb.{Category, CatalogDb}
use store_evix.Categories.Defs.{
  category_id, AdminCatalogError, not_found, invalid, set_categories, get_category, resolve_path,
  replant_subtree, move_category,
}
use store_evix.Categories.Tree.{AncestorsOf, IsTree, Under, contains_iff}
use store_evix.Categories.Moves.{move_parents}

-- The table after a move: the paths of the subtree are rewritten.
abbrev pub replanted : ℕ → Option ℕ → Category → List ℕ → List Category → List Category
replanted id new_parent node prefix cs =
    map (replant_subtree id new_parent (length node.path) (prefix ++ id ∷ [])) cs

-- A move is refused without a trace, or it is committed.
pub data Moved (id : ℕ) (new_parent : Option ℕ) (s : Session CatalogDb)
    : Result AdminCatalogError (Unit {0}) × Session CatalogDb → Type 0 where
  no_node : find category_id id s.work.categories ≡ none → Moved id new_parent s (err not_found, s)
  no_parent :
      (p : ℕ)
      → new_parent ≡ some p
      → find category_id p s.work.categories ≡ none
      → Moved id new_parent s (err not_found, s)
  cyclic :
      (prefix : List ℕ)
      → AncestorsOf s.work.categories new_parent prefix
      → contains id prefix ≡ true
      → Moved id new_parent s (err invalid, s)
  moved :
      (node : Category) (prefix : List ℕ)
      → find category_id id s.work.categories ≡ some node
      → AncestorsOf s.work.categories new_parent prefix
      → contains id prefix ≡ false
      → (t : CatalogDb)
      → t ≡ set_categories (replanted id new_parent node prefix s.work.categories) s.work
      → Moved id new_parent s (ok tt, record { work = t; committed = t })

module _ (id : ℕ) (s : Session CatalogDb) where
  found_node :
      (o : Option ℕ) (node : Category) (prefix : List ℕ)
      → find category_id id s.work.categories ≡ some node
      → AncestorsOf s.work.categories o prefix
      → resolve_path o s ≡ (ok prefix, s)
      → Moved id o s (move_category id o s)
  unfolding move_category get_category
  found_node o node prefix found at resolved = elim (Bool-cases (contains id prefix)) [
    | inl loop ↦ rw (found, resolved, loop) (cyclic prefix at loop)
    | inr free ↦ rw (found, resolved, free) (moved node prefix found at free _ refl)
  ]

  resolved_parent :
      (p : ℕ) (parent : Category)
      → find category_id p s.work.categories ≡ some parent
      → resolve_path (some p) s ≡ (ok parent.path, s)
  unfolding resolve_path get_category
  resolved_parent p parent e = rw e refl

  -- A move answers on every branch, and it is committed only where it makes no cycle.
  pub move_category-Moved :
      (new_parent : Option ℕ) → Moved id new_parent s (move_category id new_parent s)
  unfolding move_category get_category resolve_path
  move_category-Moved new_parent = elim (Option-cases (find category_id id s.work.categories)) [
    | inl missing ↦ rw missing (no_node missing)
    | inr (node, found) ↦ go new_parent node found
  ]
    where
      go :
          (o : Option ℕ) (node : Category)
          → find category_id id s.work.categories ≡ some node
          → Moved id o s (move_category id o s)
      go none node found = found_node none node [] found refl refl
      go (some p) node found = elim (Option-cases (find category_id p s.work.categories)) [
        | inl missing ↦ rw (found, missing) (no_parent p refl missing)
        | inr (r, there) ↦
            found_node (some p) node r.path found (r, there, refl) (resolved_parent p r there)
      ]

-- Where a category may go: to the top, or below one that is not in its own subtree.
abbrev pub Target : List Category → ℕ → Option ℕ → Type 0
Target cs id none = Unit
Target cs id (some p) =
    (parent : Category) × (find category_id p cs ≡ some parent) × (¬ Under cs id p)

abbrev pub CanMove : List Category → ℕ → Option ℕ → Type 0
CanMove cs id o = ((node : Category) × (find category_id id cs ≡ some node)) × Target cs id o

abbrev pub parents : List Category → ℕ → Option (Option ℕ)
parents cs k = Option.map (λ c. c.parent_id) (find category_id k cs)

-- The request gave the node its new parent, and no other category another one.
abbrev pub IsMoved :
    CatalogDb → ℕ → Option ℕ → Result AdminCatalogError (Unit {0}) × CatalogDb → Type 0
IsMoved db id o (answer, after) =
    (answer ≡ ok tt)
    × ((k : ℕ) → parents after.categories k ≡ (if k == id then some o else parents db.categories k))

-- The request raised, and the database is as it was.
abbrev pub IsRefused : CatalogDb → Result AdminCatalogError (Unit {0}) × CatalogDb → Type 0
IsRefused db (answer, after) = ((answer ≡ err not_found) ⊎ (answer ≡ err invalid)) × (after ≡ db)

module _ (db : CatalogDb) (tree : IsTree db.categories) (id : ℕ) where
  not_under :
      (o : Option ℕ) (prefix : List ℕ)
      → AncestorsOf db.categories o prefix
      → contains id prefix ≡ false
      → Target db.categories id o
  not_under none prefix at h = tt
  not_under (some p) prefix (r, found, e) h =
      (r, found, λ u. ground (arith, e, (contains_iff db.categories tree id p r found).1 u))

  no-Target :
      (o : Option ℕ) (prefix : List ℕ)
      → AncestorsOf db.categories o prefix
      → contains id prefix ≡ true
      → ¬ Target db.categories id o
  no-Target none prefix at h t = ground arith
  no-Target (some p) prefix (r, found, e) h (s, _, free) =
      free ((contains_iff db.categories tree id p r found).0 (ground arith))

  verdict :
      (o : Option ℕ) (answer : Result AdminCatalogError (Unit {0}) × Session CatalogDb)
      → Moved id o (record { work = db; committed = db }) answer
      → (CanMove db.categories id o × IsMoved db id o (answer.0, answer.1.committed))
        ⊎ ((¬ CanMove db.categories id o) × IsRefused db (answer.0, answer.1.committed))
  verdict o answer (no_node missing) = inr (λ can. ground (arith, can.0.1), (inl refl, refl))
  verdict o answer (no_parent p e missing) =
      inr (λ can. cc (missing, (subst (Target db.categories id) e can.1).1), (inl refl, refl))
  verdict o answer (cyclic prefix at h) =
      inr (λ can. no-Target o prefix at h can.1, (inr refl, refl))
  verdict o answer (moved node prefix found at free t e) = inl (
    ((node, found), not_under o prefix at free),
    (
      refl,
      λ k.
          subst
            (λ (t : CatalogDb).
              parents t.categories k ≡ (if k == id then some o else parents db.categories k))
            (sym e) (move_parents db.categories tree id node found o prefix at free k),
    ),
  )

-- On a tree, a move succeeds exactly where the category exists and may go there. Then it has the
-- new parent, and every other category keeps its own; otherwise nothing has changed.
pub move_category-Verdict :
    (db : CatalogDb) (id : ℕ) (new_parent : Option ℕ)
    → IsTree db.categories
    → (CanMove db.categories id new_parent
        × IsMoved db id new_parent (run_request (move_category id new_parent) db))
      ⊎ ((¬ CanMove db.categories id new_parent)
          × IsRefused db (run_request (move_category id new_parent) db))
move_category-Verdict db id o tree =
    verdict db tree id o _ (move_category-Moved id (record { work = db; committed = db }) o)
