-- ===== src/Categories/Tests.antt =====
-- The properties of the category tree on the catalogue of the small shop.
use store_evix.Common.{ℕ, ◌≡◌, refl, ◌↔◌, ◌⊎◌, true, none, some, [], ◌∷◌, contains, Option}
use store_evix.Common.Int.{ℤ, pos}
use store_evix.Common.Session.{run_request}
use store_evix.Models.CatalogDb.{CatalogDb}
use store_evix.Fixtures.{home, clothes, kitchen, catalogue}
use store_evix.Categories.Defs.{
  CategoryCreate, create_category, resolve_path, get_category, move_category,
}
use store_evix.Categories.Tree.{IsTree, Under}
use store_evix.Categories.Requests.{
  categories_after, create, move, serve, serve-IsTree, Reached, empty, served, Reached-IsTree,
  Reached-paths,
}
use store_evix.Categories.Verdict.{CanMove, IsMoved, IsRefused, move_category-Verdict}

abbrev bare : CatalogDb
bare = record catalogue { categories = [] }

abbrev under_parent : Option ℕ → ℤ → CategoryCreate
under_parent p position = record {
  parent_id = p;
  position = position;
  is_active = true;
  translations = [];
}

abbrev with_home : CatalogDb
with_home = record catalogue { categories = home ∷ [] }

abbrev with_clothes : CatalogDb
with_clothes = record catalogue { categories = home ∷ clothes ∷ [] }

with_home-Reached : Reached with_home
unfolding create_category resolve_path
with_home-Reached = served (create 10 (under_parent none (pos 0))) bare (empty bare refl) refl

with_clothes-Reached : Reached with_clothes
unfolding create_category resolve_path get_category
with_clothes-Reached =
    served (create 11 (under_parent (some 10) (pos 0))) with_home with_home-Reached refl

catalogue-Reached : Reached catalogue
unfolding create_category resolve_path get_category
catalogue-Reached =
    served (create 12 (under_parent (some 11) (pos 1))) with_clothes with_clothes-Reached refl

serve-IsTree_example : IsTree (categories_after (run_request (serve (move 11 none)) catalogue))
serve-IsTree_example =
    serve-IsTree (move 11 none) catalogue (Reached-IsTree catalogue catalogue-Reached) tt

-- The subtree follows: kitchen, which lies below clothes, loses the root from its path.
moved_to_top :
    categories_after (run_request (move_category 11 none) catalogue)
    ≡ home
      ∷ record clothes { parent_id = none; path = 11 ∷ []; depth = 0 }
      ∷ record kitchen { path = 11 ∷ 12 ∷ []; depth = 1 }
      ∷ []
unfolding move_category get_category resolve_path
moved_to_top = refl

Reached-paths_example :
    ((contains 10 kitchen.path ≡ true) ↔ Under catalogue.categories 10 12)
    × ((p : ℕ) → kitchen.parent_id ≡ some p → ¬ Under catalogue.categories 12 p)
Reached-paths_example = Reached-paths catalogue 10 12 kitchen catalogue-Reached refl

move_category-Verdict_example :
    (CanMove catalogue.categories 11 (some 12)
      × IsMoved catalogue 11 (some 12) (run_request (move_category 11 (some 12)) catalogue))
    ⊎ ((¬ CanMove catalogue.categories 11 (some 12))
        × IsRefused catalogue (run_request (move_category 11 (some 12)) catalogue))
move_category-Verdict_example =
    move_category-Verdict catalogue 11 (some 12) (Reached-IsTree catalogue catalogue-Reached)
