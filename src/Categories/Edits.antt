-- ===== src/Categories/Edits.antt =====
-- The tree under create_category, delete_category, reorder_categories and the plain changes of
-- update_category.
use mathlib.Core.Option
use mathlib.Core.Path.{subst}
use store_evix.Common.{
  ℕ, suc, ◌≡◌, ◌≢◌, refl, ap, false, inl, inr, Option, none, some, List, [], ◌∷◌, ◌++◌, length,
  ◌==◌, if◌then◌else◌, Bool-cases, Option-cases, arith,
}
use store_evix.Common.Table.{find, modify, remove, find-modify, find-append, find-remove}
use store_evix.Models.CatalogDb.{Category}
use store_evix.Categories.Defs.{category_id, CategoryCreate, new_category, with_path, has_children}
use store_evix.Categories.Tree.{Placed, IsTree, length-snoc}

-- What the tree depends on.
pub record Outline : Type 0 where
  pub id : ℕ
  pub parent_id : Option ℕ
  pub path : List ℕ
  pub depth : ℕ

abbrev pub outline : Category → Outline
outline c = record { id = c.id; parent_id = c.parent_id; path = c.path; depth = c.depth }

-- Placement looks only at the paths of the parents.
pub placed_into :
    (cs ds : List Category) (id : ℕ) (path : List ℕ) (o : Option ℕ)
    → ((p : ℕ) (r : Category)
        → o ≡ some p
        → find category_id p cs ≡ some r
        → (s : Category) × (find category_id p ds ≡ some s) × (s.path ≡ r.path))
    → Placed cs id path o
    → Placed ds id path o
placed_into cs ds id path none into e = e
placed_into cs ds id path (some p) into (r, found, e) =
    let (s, s_found, same) = into p r refl found in (s, s_found, ground arith)

-- What a step does to the outline that a key leads to.
pub IsTree-Outlined :
    (cs ds : List Category)
    → ((j : ℕ)
        → Option.map outline (find category_id j ds) ≡ Option.map outline (find category_id j cs))
    → IsTree cs
    → IsTree ds
IsTree-Outlined cs ds same tree = record {
  placed = λ k d found.
      let (c, c_found, e) = earlier k d found in
      subst (λ (o : Outline). Placed ds o.id o.path o.parent_id) e
        (placed_into cs ds c.id c.path c.parent_id (λ p r _. later p r) (tree.placed k c c_found));
  deep = λ k d found.
      let (c, c_found, e) = earlier k d found in
      subst (λ (o : Outline). length o.path ≡ suc o.depth) e (tree.deep k c c_found);
}
  where
    earlier :
        (k : ℕ) (d : Category)
        → find category_id k ds ≡ some d
        → (c : Category) × (find category_id k cs ≡ some c) × (outline c ≡ outline d)
    earlier k d found = elim (Option-cases (find category_id k cs)) [
      | inl missing ↦ absurd (ground (arith, same k))
      | inr (c, e) ↦ (c, e, ground (arith, same k))
    ]

    later :
        (p : ℕ) (r : Category)
        → find category_id p cs ≡ some r
        → (s : Category) × (find category_id p ds ≡ some s) × (s.path ≡ r.path)
    later p r found = elim (Option-cases (find category_id p ds)) [
      | inl missing ↦ absurd (ground (arith, same p))
      | inr (s, e) ↦ (s, e, ground (arith, same p))
    ]

-- A write to one row that keeps its outline.
pub IsTree-modify :
    (k : ℕ) (f : Category → Category) (cs : List Category)
    → ((c : Category) → outline (f c) ≡ outline c)
    → IsTree cs
    → IsTree (modify category_id k f cs)
IsTree-modify k f cs keep = IsTree-Outlined cs (modify category_id k f cs) same
  where
    same :
        (j : ℕ)
        → Option.map outline (find category_id j (modify category_id k f cs))
          ≡ Option.map outline (find category_id j cs)
    same j = elim (Option-cases (find category_id j cs)) [
      | inl e ↦ ground (arith, find-modify category_id j k f cs (λ c. ap (λ o. o.id) (keep c)))
      | inr (c, e) ↦
          ground (arith, keep c, find-modify category_id j k f cs (λ c. ap (λ o. o.id) (keep c)))
    ]

-- A new row under a key that no row has.
pub IsTree-create :
    (id : ℕ) (prefix : List ℕ) (payload : CategoryCreate) (cs : List Category)
    → find category_id id cs ≡ none
    → Placed cs id (prefix ++ id ∷ []) payload.parent_id
    → IsTree cs
    → IsTree (
        modify category_id id
          (with_path (prefix ++ id ∷ []))
          (cs ++ new_category id prefix payload ∷ []))
IsTree-create id prefix payload cs fresh at tree = record {
  placed = λ k d found. elim (Bool-cases (id == k)) [
    | inl new ↦
        let e : row ≡ d = ground (arith, lookup k) in
        subst (λ c. Placed ds c.id c.path c.parent_id) e
          (placed_into cs ds id row.path payload.parent_id (λ p r _. kept p r) at)
    | inr old ↦
        placed_into cs ds d.id d.path d.parent_id (λ p r _. kept p r)
          (tree.placed k d (ground (arith, lookup k)))
  ];
  deep = λ k d found. elim (Bool-cases (id == k)) [
    | inl new ↦
        let e : row ≡ d = ground (arith, lookup k) in
        subst (λ c. length c.path ≡ suc c.depth) e (length-snoc prefix id)
    | inr old ↦ tree.deep k d (ground (arith, lookup k))
  ];
}
  where
    row : Category
    row = with_path (prefix ++ id ∷ []) (new_category id prefix payload)

    ds : List Category
    ds =
        modify category_id id (with_path (prefix ++ id ∷ []))
          (cs ++ new_category id prefix payload ∷ [])

    lookup : (j : ℕ) → find category_id j ds ≡ (if id == j then some row else find category_id j cs)
    lookup j = ground (
      arith,
      find-modify category_id j id (with_path (prefix ++ id ∷ []))
          (cs ++ new_category id prefix payload ∷ []) (λ c. refl),
      find-append category_id j cs (new_category id prefix payload ∷ []),
    )

    kept :
        (p : ℕ) (r : Category)
        → find category_id p cs ≡ some r
        → (s : Category) × (find category_id p ds ≡ some s) × (s.path ≡ r.path)
    kept p r found = (r, ground (arith, lookup p), refl)

no_child :
    (id j : ℕ) (cs : List Category) (c : Category)
    → has_children id cs ≡ false
    → find category_id j cs ≡ some c
    → c.parent_id ≢ some id
unfolding has_children
no_child id j [] c none_left found = ground arith
no_child id j (x ∷ cs) c none_left found = ground (arith, no_child id j cs c)

pub IsTree-delete :
    (id : ℕ) (cs : List Category)
    → has_children id cs ≡ false
    → IsTree cs
    → IsTree (remove category_id id cs)
IsTree-delete id cs childless tree = record {
  placed = λ k d found.
      let was : find category_id k cs ≡ some d = ground (arith, find-remove category_id k id cs) in
      placed_into cs (remove category_id id cs) d.id d.path d.parent_id
        (λ p r e there.
          (r, ground (arith, find-remove category_id p id cs, no_child id k cs d), refl))
        (tree.placed k d was);
  deep = λ k d found. tree.deep k d (ground (arith, find-remove category_id k id cs));
}
