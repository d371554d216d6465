-- ===== src/Categories/Moves.antt =====
-- The tree under move_category.
use mathlib.Core.Option
use mathlib.Core.Path.{subst}
use store_evix.Common.{
  ℕ, suc, ◌≡◌, sym, ap, ◌∙◌, true, false, inl, inr, Option, none, some, List, [], ◌∷◌, ◌++◌, map,
  length, length-append, drop, drop-append, append_assoc, append_nil, contains, ◌==◌, ==_iff,
  if◌then◌else◌, Bool-cases, Option-cases, arith,
}
use store_evix.Common.Table.{find, find-map, find_key}
use store_evix.Models.CatalogDb.{Category}
use store_evix.Categories.Defs.{category_id, replant_subtree}
use store_evix.Categories.Edits.{placed_into}
use store_evix.Categories.Tree.{
  Placed, AncestorsOf, IsTree, place, descends, contains_self, contains_one, contains-snoc,
  length-snoc,
}

-- A move of the node with key `id`, whose row is `node`, below `new_parent`, whose path is `prefix`.
module _ (cs : List Category) (tree : IsTree cs) (id : ℕ) (node : Category)
    (node_found : find category_id id cs ≡ some node) (new_parent : Option ℕ) (prefix : List ℕ)
    (at : AncestorsOf cs new_parent prefix) (outside : contains id prefix ≡ false) where
  abbrev new_path : List ℕ
  new_path = prefix ++ id ∷ []

  abbrev step : Category → Category
  step = replant_subtree id new_parent (length node.path) new_path

  abbrev after : List Category
  after = map step cs

  step_key : (c : Category) → category_id (step c) ≡ category_id c
  step_key c = ground arith

  found_after :
      (k : ℕ) (c : Category)
      → find category_id k cs ≡ some c
      → find category_id k after ≡ some (step c)
  found_after k c found = find-map category_id k step cs step_key ∙ ap (Option.map step) found

  found_before :
      (k : ℕ) (d : Category)
      → find category_id k after ≡ some d
      → (c : Category) × (find category_id k cs ≡ some c) × (step c ≡ d)
  found_before k d found = elim (Option-cases (find category_id k cs)) [
    | inl missing ↦ absurd (cc (found, missing, find-map category_id k step cs step_key))
    | inr (c, e) ↦ (c, e, cc (found_after k c e, found))
  ]

  -- The rows outside the subtree stay.
  step_outside : (c : Category) → contains id c.path ≡ false → step c ≡ c
  step_outside c h = ground arith

  -- A row of the subtree: what follows the node in its path follows the node's new path.
  step_inside :
      (c : Category) (tail : List ℕ)
      → c.path ≡ node.path ++ tail
      → contains id c.path ≡ true
      → (step c).path ≡ new_path ++ tail
  step_inside c tail e h = ground (arith, drop-append node.path tail)

  step_deep :
      (c : Category) → length c.path ≡ suc c.depth → length (step c).path ≡ suc (step c).depth
  step_deep c deep =
      ground (arith, length-append new_path (drop (length node.path) c.path), length-snoc prefix id)

  -- The node itself, below its new parent.
  node_placed : Placed after id new_path new_parent
  node_placed = go new_parent at
    where
      go : (o : Option ℕ) → AncestorsOf cs o prefix → Placed after id new_path o
      go none e = ap (λ l. l ++ id ∷ []) e
      go (some p) (r, found, e) =
          let h : contains id r.path ≡ false = ground (arith, outside, e) in
          (
            step r,
            found_after p r found,
            ap (λ l. l ++ id ∷ []) e ∙ ap (λ x. x.path ++ id ∷ []) (sym (step_outside r h)),
          )

  -- A row outside the subtree has its parent outside.
  outside_placed :
      (k : ℕ) (c : Category)
      → find category_id k cs ≡ some c
      → contains id c.path ≡ false
      → Placed after c.id c.path c.parent_id
  outside_placed k c found h =
      placed_into cs after c.id c.path c.parent_id stays (tree.placed k c found)
    where
      stays :
          (p : ℕ) (r : Category)
          → c.parent_id ≡ some p
          → find category_id p cs ≡ some r
          → (s : Category) × (find category_id p after ≡ some s) × (s.path ≡ r.path)
      stays p r names there = elim (place cs tree k c found) [
        | inl (root, path) ↦ absurd (ground (arith, names, root))
        | inr up ↦
            let same : r.path ≡ up.parent.path = cc in
            let out : contains id r.path ≡ false =
              ground (arith, up.extends, contains-snoc id k up.parent.path) in
            (step r, found_after p r there, ap (λ x. x.path) (step_outside r out))
      ]

  -- A row below the node keeps its parent, which is moved along.
  below_placed :
      (k : ℕ) (c : Category)
      → find category_id k cs ≡ some c
      → contains id c.path ≡ true
      → (k == id) ≡ false
      → Placed after c.id (step c).path c.parent_id
  below_placed k c found h other = elim (place cs tree k c found) [
    | inl (root, path) ↦ absurd (ground (arith, path, contains_one id k))
    | inr up ↦
        let higher : contains id up.parent.path ≡ true =
          ground (arith, up.extends, contains-snoc id k up.parent.path) in
        let (tail, e) =
          descends cs tree id up.parent_key up.parent node up.exists node_found higher in
        let longer : c.path ≡ node.path ++ (tail ++ k ∷ []) =
          up.extends ∙ ap (λ l. l ++ k ∷ []) e ∙ append_assoc node.path tail (k ∷ []) in
        let keyed : c.id ≡ k = find_key category_id k cs c found in
        subst (Placed after c.id (step c).path) (sym up.names) (
          step up.parent,
          found_after up.parent_key up.parent up.exists,
          step_inside c (tail ++ k ∷ []) longer h
              ∙ sym (append_assoc new_path tail (k ∷ []))
              ∙ ap (λ l. l ++ k ∷ []) (sym (step_inside up.parent tail e higher))
              ∙ ap (λ i. (step up.parent).path ++ i ∷ []) (sym keyed),
        )
  ]

  step_placed :
      (k : ℕ) (c : Category)
      → find category_id k cs ≡ some c
      → Placed after (step c).id (step c).path (step c).parent_id
  step_placed k c found = elim (Bool-cases (contains id c.path)) [
    | inl inside ↦ elim (Bool-cases (k == id)) [
      | inl same ↦
          let keyed : c.id ≡ k = find_key category_id k cs c found in
          let at_node : k ≡ id = (==_iff k id).0 same in
          let same_path : c.path ≡ node.path ++ [] = ground (arith, append_nil node.path) in
          let shape : ((step c).id ≡ id) × ((step c).parent_id ≡ new_parent) = ground arith in
          let path : (step c).path ≡ new_path =
            step_inside c [] same_path inside ∙ append_nil new_path in
          rw (shape.0, shape.1, path) node_placed
      | inr other ↦
          let keyed : c.id ≡ k = find_key category_id k cs c found in
          let shape : ((step c).id ≡ c.id) × ((step c).parent_id ≡ c.parent_id) = ground arith in
          rw (shape.0, shape.1) (below_placed k c found inside other)
    ]
    | inr out ↦
        subst (λ x. Placed after x.id x.path x.parent_id) (sym (step_outside c out))
          (outside_placed k c found out)
  ]

  -- A move below a category outside the subtree keeps the tree.
  pub IsTree-move : IsTree after
  IsTree-move = record {
    placed = λ k d found.
        let (c, was, e) = found_before k d found in
        subst (λ x. Placed after x.id x.path x.parent_id) e (step_placed k c was);
    deep = λ k d found.
        let (c, was, e) = found_before k d found in
        subst (λ x. length x.path ≡ suc x.depth) e (step_deep c (tree.deep k c was));
  }

  -- Only the moved node changes its parent.
  pub move_parents :
      (k : ℕ)
      → Option.map (λ c. c.parent_id) (find category_id k after) ≡ (
          if k == id
          then some new_parent
          else Option.map (λ c. c.parent_id) (find category_id k cs))
  move_parents k = elim (Option-cases (find category_id k cs)) [
    | inl missing ↦ ground (arith, missing, node_found, find-map category_id k step cs step_key)
    | inr (c, found) ↦ ground (
      arith,
      found_after k c found,
      find_key category_id k cs c found,
      contains_self cs tree k c found,
    )
  ]
