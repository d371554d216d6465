-- ===== src/Categories/Defs.antt =====
-- The operations of AdminCatalogService on categories, in the order of
-- app/services/admin_catalog_service.py.
use store_evix.Common.{
  ℕ, ◌-◌, Bool, ◌&&◌, Option, none, some, List, [], ◌∷◌, ◌++◌, map, String, length, select_where,
  drop, contains, ltb, ◌==◌, opt_eq, str_eq, if◌then◌else◌,
}
use store_evix.Common.Int.{ℤ}
use store_evix.Common.Table.{find, modify, remove}
use store_evix.Common.Patch.{Patch, unset, assign, patched}
use store_evix.Common.Session.{Action, pure, gets, or_raise, raise_if, write, commit, ◌>>=◌, ◌>>◌}
use store_evix.Models.Catalog.{Product}
use store_evix.Models.CatalogDb.{Category, CategoryTranslation, CatalogDb}

-- The leaves of the class AdminCatalogError, and PublicationError of the catalogue service.
pub data AdminCatalogError : Type 0 where
  not_found conflict invalid publication : AdminCatalogError

abbrev pub CatalogAction : Type 0 → Type 0
CatalogAction A = Action CatalogDb AdminCatalogError A

abbrev pub category_id : Category → ℕ
category_id c = c.id

abbrev pub set_categories : List Category → CatalogDb → CatalogDb
set_categories cs db = record db { categories = cs }

abbrev pub set_category_translations : List CategoryTranslation → CatalogDb → CatalogDb
set_category_translations ts db = record db { category_translations = ts }

unfoldable pub get_category : ℕ → CatalogAction Category
get_category id = do
  found ← gets (λ db. find category_id id db.categories)
  or_raise found not_found

abbrev pub path_of : Option ℕ → CatalogAction (List ℕ)
path_of none = pure []
path_of (some p) = get_category p >>= λ parent. pure parent.path

-- The ancestors of a new or moved node, the root first.
unfoldable pub resolve_path : Option ℕ → CatalogAction (List ℕ)
unfolding get_category
resolve_path parent_id = path_of parent_id

pub record CategoryTranslationIn : Type 0 where
  pub lang : String
  pub name : String
  pub slug : String
  pub seo_title : Option String
  pub seo_description : Option String

pub record CategoryCreate : Type 0 where
  pub parent_id : Option ℕ
  pub position : ℤ
  pub is_active : Bool
  pub translations : List CategoryTranslationIn

abbrev pub category_translation : ℕ → CategoryTranslationIn → CategoryTranslation
category_translation id t = record {
  category_id = id;
  lang = t.lang;
  name = t.name;
  slug = t.slug;
  seo_title = t.seo_title;
  seo_description = t.seo_description;
}

-- The row that the flush inserts, under the key that the sequence assigns.
abbrev pub new_category : ℕ → List ℕ → CategoryCreate → Category
new_category id prefix payload = record {
  id = id;
  parent_id = payload.parent_id;
  path = [];
  depth = length prefix;
  is_active = payload.is_active;
  position = payload.position;
  cover_image_url = none;
}

abbrev pub with_path : List ℕ → Category → Category
with_path path c = record c { path = path }

unfoldable pub create_category : ℕ → CategoryCreate → CatalogAction Category
unfolding resolve_path
create_category id payload = do
  prefix ← resolve_path payload.parent_id
  write (λ db. set_categories (db.categories ++ new_category id prefix payload ∷ []) db)
  write (λ db.
      set_categories (modify category_id id (with_path (prefix ++ id ∷ [])) db.categories) db)
  write (λ db.
      set_category_translations
        (db.category_translations ++ map (category_translation id) payload.translations) db)
  commit
  pure (with_path (prefix ++ id ∷ []) (new_category id prefix payload))

unfoldable pub has_children : ℕ → List Category → Bool
has_children id cs = ltb 0 (length (select_where (λ c. opt_eq c.parent_id (some id)) cs))

unfoldable pub has_products : ℕ → List Product → Bool
has_products id ps = ltb 0 (length (select_where (λ p. p.category_id == id) ps))

abbrev pub translations_besides : ℕ → List CategoryTranslation → List CategoryTranslation
translations_besides id ts = remove (λ t. t.category_id) id ts

unfoldable pub delete_category : ℕ → CatalogAction (Unit {0})
unfolding get_category
delete_category id = do
  category ← get_category id
  children ← gets (λ db. has_children id db.categories)
  raise_if children conflict
  products ← gets (λ db. has_products id db.products)
  raise_if products conflict
  write (λ db. set_category_translations (translations_besides id db.category_translations) db)
  write (λ db. set_categories (remove category_id category.id db.categories) db)
  commit

-- A row of the subtree: the old path of the moved node, in front, gives way to the new one.
abbrev pub replant : ℕ → Option ℕ → ℕ → List ℕ → Category → Category
replant id new_parent old_len new_path member =
    let path = new_path ++ drop old_len member.path in
    record member {
      path = path;
      depth = length path - 1;
      parent_id = if member.id == id then new_parent else member.parent_id;
    }

-- The loop over the rows whose path contains the node.
abbrev pub replant_subtree : ℕ → Option ℕ → ℕ → List ℕ → Category → Category
replant_subtree id new_parent old_len new_path member =
    if contains id member.path then replant id new_parent old_len new_path member else member

unfoldable pub move_category : ℕ → Option ℕ → CatalogAction (Unit {0})
unfolding get_category resolve_path
move_category id new_parent = do
  node ← get_category id
  prefix ← resolve_path new_parent
  raise_if (contains id prefix) invalid
  write (λ db.
      set_categories
        (map (replant_subtree id new_parent (length node.path) (prefix ++ id ∷ [])) db.categories)
        db)
  commit

pub record CategoryUpdate : Type 0 where
  pub parent_id : Patch (Option ℕ)
  pub position : Patch ℤ
  pub is_active : Patch Bool
  pub cover_image_url : Patch (Option String)

abbrev pub moved_first : ℕ → Patch (Option ℕ) → CatalogAction (Unit {0})
moved_first id unset = pure tt
moved_first id (assign new_parent) = move_category id new_parent

-- The loop of `setattr` over the fields that are left.
abbrev pub category_changes : CategoryUpdate → Category → Category
category_changes u c = record c {
  position = patched u.position c.position;
  is_active = patched u.is_active c.is_active;
  cover_image_url = patched u.cover_image_url c.cover_image_url;
}

unfoldable pub update_category : ℕ → CategoryUpdate → CatalogAction (Unit {0})
unfolding get_category
update_category id u = do
  category ← get_category id
  moved_first id u.parent_id
  category ← get_category id
  write (λ db. set_categories (modify category_id id (category_changes u) db.categories) db)
  commit

abbrev pub translates : ℕ → String → CategoryTranslation → Bool
translates id lang t = (t.category_id == id) && str_eq t.lang lang

abbrev pub replace_translation :
    ℕ → CategoryTranslationIn → List CategoryTranslation → List CategoryTranslation
replace_translation id p [] = []
replace_translation id p (t ∷ ts) =
    (if translates id p.lang t then category_translation id p else t) ∷ replace_translation id p ts

-- Update or insert the row of one language.
abbrev pub upsert_translation :
    ℕ → CategoryTranslationIn → List CategoryTranslation → List CategoryTranslation
upsert_translation id p ts =
    if ltb 0 (length (select_where (translates id p.lang) ts))
    then replace_translation id p ts
    else ts ++ category_translation id p ∷ []

unfoldable pub set_category_translation : ℕ → CategoryTranslationIn → CatalogAction (Unit {0})
unfolding get_category
set_category_translation id payload = do
  category ← get_category id
  write
      (λ db. set_category_translations (upsert_translation id payload db.category_translations) db)
  commit

pub record CategoryReorderItem : Type 0 where
  pub item_id : ℕ
  pub new_position : ℤ

abbrev pub at_position : ℤ → Category → Category
at_position p c = record c { position = p }

unfoldable pub reorder_all : List CategoryReorderItem → CatalogAction (Unit {0})
unfolding get_category
reorder_all [] = pure tt
reorder_all (i ∷ is) = do
  category ← get_category i.item_id
  write (λ db.
      set_categories (modify category_id i.item_id (at_position i.new_position) db.categories) db)
  reorder_all is

unfoldable pub reorder_categories : List CategoryReorderItem → CatalogAction (Unit {0})
unfolding reorder_all
reorder_categories items = do reorder_all items; commit
