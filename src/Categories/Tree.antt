-- ===== src/Categories/Tree.antt =====
-- What the stored paths mean: the tree that the parents' keys span.
use mathlib.Core.Path.{subst}
use store_evix.Common.{
  ℕ, zero, suc, ◌≤◌, ◌≡◌, refl, sym, ap, ◌∙◌, ◌↔◌, ◌⊎◌, inl, inr, true, Option, none, some, List,
  [], ◌∷◌, ◌++◌, length, length-append, contains, contains-append, append_assoc, append_nil, arith,
}
use store_evix.Common.Table.{find, find_key}
use store_evix.Models.CatalogDb.{Category}
use store_evix.Categories.Defs.{category_id}

-- A root's path is its own key; any other path is the parent's and the own key.
abbrev pub Placed : List Category → ℕ → List ℕ → Option ℕ → Type 0
Placed cs id path none = path ≡ id ∷ []
Placed cs id path (some p) =
    (parent : Category) × (find category_id p cs ≡ some parent) × (path ≡ parent.path ++ id ∷ [])

-- The path of a parent: the ancestors of the node below it.
abbrev pub AncestorsOf : List Category → Option ℕ → List ℕ → Type 0
AncestorsOf cs none prefix = prefix ≡ []
AncestorsOf cs (some p) prefix =
    (parent : Category) × (find category_id p cs ≡ some parent) × (prefix ≡ parent.path)

-- Every category that a key leads to is placed, and its depth counts the ancestors.
pub record IsTree (cs : List Category) : Type 0 where
  pub placed :
      (k : ℕ) (c : Category) → find category_id k cs ≡ some c → Placed cs c.id c.path c.parent_id
  pub deep : (k : ℕ) (c : Category) → find category_id k cs ≡ some c → length c.path ≡ suc c.depth

-- The category `k` and what lies below it, by the parents' keys alone.
pub data Under (cs : List Category) (k : ℕ) : ℕ → Type 0 where
  itself : Under cs k k
  below :
      {j p : ℕ} (c : Category)
      → find category_id j cs ≡ some c
      → c.parent_id ≡ some p
      → Under cs k p
      → Under cs k j

-- A category that is no root, with its parent.
pub record HasParent (cs : List Category) (j : ℕ) (c : Category) : Type 0 where
  pub parent_key : ℕ
  pub parent : Category
  pub names : c.parent_id ≡ some parent_key
  pub exists : find category_id parent_key cs ≡ some parent
  pub extends : c.path ≡ parent.path ++ j ∷ []

pub contains_one : (k j : ℕ) → (contains k (j ∷ []) ≡ true) ↔ (j ≡ k)
contains_one k j = ground arith

pub contains-snoc :
    (k j : ℕ) (xs : List ℕ)
    → (contains k (xs ++ j ∷ []) ≡ true) ↔ ((contains k xs ≡ true) ⊎ (j ≡ k))
contains-snoc k j xs = ground (arith, contains-append k xs (j ∷ []))

pub length-snoc : (xs : List ℕ) (j : ℕ) → length (xs ++ j ∷ []) ≡ suc (length xs)
length-snoc xs j = omega (arith, length-append xs (j ∷ []))

one_parent :
    (cs : List Category) {c d : Category} {q p : ℕ} (j : ℕ)
    → find category_id j cs ≡ some c
    → find category_id j cs ≡ some d
    → c.parent_id ≡ some q
    → d.parent_id ≡ some p
    → q ≡ p
one_parent cs j found d_found names d_names = cc

module _ (cs : List Category) (tree : IsTree cs) where
  -- A category is a root or has a parent.
  pub place :
      (j : ℕ) (c : Category)
      → find category_id j cs ≡ some c
      → ((c.parent_id ≡ none) × (c.path ≡ j ∷ [])) ⊎ HasParent cs j c
  place j c found = go c.parent_id refl
    where
      keyed : c.id ≡ j
      keyed = find_key category_id j cs c found

      known : Placed cs j c.path c.parent_id
      known = subst (λ i. Placed cs i c.path c.parent_id) keyed (tree.placed j c found)

      go :
          (o : Option ℕ)
          → c.parent_id ≡ o
          → ((c.parent_id ≡ none) × (c.path ≡ j ∷ [])) ⊎ HasParent cs j c
      go none e = inl (e, subst (Placed cs j c.path) e known)
      go (some p) e =
          let (r, r_found, r_path) = subst (Placed cs j c.path) e known in
          inr (record { parent_key = p; parent = r; names = e; exists = r_found; extends = r_path })

  pub contains_self :
      (j : ℕ) (c : Category) → find category_id j cs ≡ some c → contains j c.path ≡ true
  contains_self j c found = elim (place j c found) [
    | inl (root, path) ↦ rw path ((contains_one j j).1 refl)
    | inr h ↦ rw h.extends ((contains-snoc j j h.parent.path).1 (inr refl))
  ]

  -- The path of a category goes on from the path of each one that it goes through.
  descends_within :
      (n k j : ℕ) (c node : Category)
      → length c.path ≤ n
      → find category_id j cs ≡ some c
      → find category_id k cs ≡ some node
      → contains k c.path ≡ true
      → (tail : List ℕ) × (c.path ≡ node.path ++ tail)
  descends_within zero k j c node short found there h = absurd (omega (arith, tree.deep j c found))
  descends_within (suc n) k j c node short found there h = elim (place j c found) [
    | inl (root, path) ↦ ([], self ((contains_one k j).0 (subst (λ l. contains k l ≡ true) path h)))
    | inr up ↦
        elim ((contains-snoc k j up.parent.path).0
          (subst (λ l. contains k l ≡ true) up.extends h)) [
            | inl higher ↦
                let (tail, e) =
                  descends_within n k up.parent_key up.parent node
                    (omega (arith, ap length up.extends, length-snoc up.parent.path j)) up.exists
                    there higher in
                (
                  tail ++ j ∷ [],
                  up.extends ∙ ap (λ l. l ++ j ∷ []) e ∙ append_assoc node.path tail (j ∷ []),
                )
            | inr e ↦ ([], self e)
          ]
  ]
    where
      self : j ≡ k → c.path ≡ node.path ++ []
      self e = ground (arith, append_nil node.path)

  pub descends :
      (k j : ℕ) (c node : Category)
      → find category_id j cs ≡ some c
      → find category_id k cs ≡ some node
      → contains k c.path ≡ true
      → (tail : List ℕ) × (c.path ≡ node.path ++ tail)
  descends k j c node = descends_within (length c.path) k j c node (omega arith)

  sound :
      (n k j : ℕ) (c : Category)
      → length c.path ≤ n
      → find category_id j cs ≡ some c
      → contains k c.path ≡ true
      → Under cs k j
  sound zero k j c short found h = absurd (omega (arith, tree.deep j c found))
  sound (suc n) k j c short found h = elim (place j c found) [
    | inl (root, path) ↦ self ((contains_one k j).0 (subst (λ l. contains k l ≡ true) path h))
    | inr up ↦
        elim ((contains-snoc k j up.parent.path).0
          (subst (λ l. contains k l ≡ true) up.extends h)) [
            | inl higher ↦ below c found up.names (
                sound n k up.parent_key up.parent
                  (omega (arith, ap length up.extends, length-snoc up.parent.path j)) up.exists
                  higher)
            | inr e ↦ self e
          ]
  ]
    where
      self : j ≡ k → Under cs k j
      self e = subst (Under cs k) (sym e) itself

  complete :
      (k j : ℕ) (c : Category)
      → find category_id j cs ≡ some c
      → Under cs k j
      → contains k c.path ≡ true
  complete k j c found itself = contains_self k c found
  complete k j c found (below d d_found names u) = elim (place j c found) [
    | inl (root, path) ↦ absurd (ground (arith, d_found, found))
    | inr up ↦
        let e = one_parent cs j found d_found up.names names in
        let higher =
          complete k _ up.parent (subst (λ q. find category_id q cs ≡ some up.parent) e up.exists)
            u in
        rw up.extends ((contains-snoc k j up.parent.path).1 (inl higher))
  ]

  -- The path of a category names exactly the category itself and those it lies below.
  pub contains_iff :
      (k j : ℕ) (c : Category)
      → find category_id j cs ≡ some c
      → (contains k c.path ≡ true) ↔ Under cs k j
  contains_iff k j c found = (sound (length c.path) k j c (omega arith) found, complete k j c found)

  -- No category lies below itself: what lies below one has a longer path.
  pub acyclic :
      (j p : ℕ) (c : Category)
      → find category_id j cs ≡ some c
      → c.parent_id ≡ some p
      → ¬ Under cs j p
  acyclic j p c found names u = elim (place j c found) [
    | inl (root, path) ↦ ground arith
    | inr up ↦
        let e = one_parent cs j found found up.names names in
        let here = subst (λ q. find category_id q cs ≡ some up.parent) e up.exists in
        let (tail, longer) = descends j p up.parent c here found (complete j p up.parent here u) in
        omega (
          arith,
          ap length longer,
          ap length up.extends,
          length-snoc up.parent.path j,
          length-append c.path tail,
        )
  ]
