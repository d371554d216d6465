-- ===== src/Cart/MergeStep.antt =====
-- One line of the merge in `merge_guest_into_user` of app/services/cart_service.py.
use mathlib.Core.Path.{subst}
use store_evix.Common.{
  ℕ, ◌+◌, ◌≡◌, ◌≢◌, refl, sym, ◌∙◌, ap, true, false, Option, List, [], ◌∷◌, arith, if◌then◌else◌,
  ◌==◌, ==_iff, opt_eq_iff, is_some, select_where, inl, inr, Bool-cases,
}
use store_evix.Models.Cart.{CartItem}
use store_evix.Cart.Defs.{get_item, change_line, add_qty, delete_item, merge_line}
use store_evix.Cart.Quantities.{
  Place, is_at, same_place, qty_at, at_same, qty_at-change_line, qty_at-delete_item,
}

module _ (user guest : ℕ) (apart : user ≢ guest) where
  abbrev pub of_guest : List CartItem → List CartItem
  of_guest = select_where λ i. i.cart_id == guest

  abbrev at_user : CartItem → Place
  at_user g = record { cart = user; product = g.product_id; variant = g.variant_id }

  abbrev pub at_guest : CartItem → Place
  at_guest g = record { cart = guest; product = g.product_id; variant = g.variant_id }

  abbrev pub guest_place : ℕ → Option ℕ → Place
  guest_place p v = record { cart = guest; product = p; variant = v }

  abbrev pub user_place : ℕ → Option ℕ → Place
  user_place p v = record { cart = user; product = p; variant = v }

  abbrev move : CartItem → CartItem
  move i = record i { cart_id = user }

  abbrev moved : CartItem → List CartItem → List CartItem
  moved g = change_line guest g.product_id g.variant_id move

  moved_guest :
      (g : CartItem) (gs is : List CartItem) → of_guest is ≡ g ∷ gs → of_guest (moved g is) ≡ gs
  moved_guest g gs [] e = cc
  moved_guest g gs (i ∷ is) e =
      ground (arith, moved_guest g gs is, opt_eq_iff i.variant_id g.variant_id)

  -- The first guest line, at the head of the rows.
  moved_head :
      (j : Place) (g : CartItem) (is : List CartItem)
      → g.cart_id ≡ guest
      → qty_at j (moved g (g ∷ is)) + (if same_place (at_guest g) j then g.qty else 0)
        ≡ qty_at j (g ∷ is) + (if same_place (at_user g) j then g.qty else 0)
  moved_head j g is h = ground (
    arith,
    opt_eq_iff g.variant_id g.variant_id,
    at_same j (at_guest g) g,
    at_same j (at_user g) (move g),
  )

  head_of :
      (i g : CartItem) (gs is : List CartItem)
      → of_guest (i ∷ is) ≡ g ∷ gs
      → (i.cart_id == guest) ≡ true
      → i ≡ g
  head_of i g gs is e h = ground (arith, e, h)

  moved_qty :
      (j : Place) (g : CartItem) (gs is : List CartItem)
      → of_guest is ≡ g ∷ gs
      → qty_at j (moved g is) + (if same_place (at_guest g) j then g.qty else 0)
        ≡ qty_at j is + (if same_place (at_user g) j then g.qty else 0)
  moved_qty j g gs [] e = cc
  moved_qty j g gs (i ∷ is) e = elim (Bool-cases (i.cart_id == guest)) [
    | inl h ↦
        subst
          (λ x.
            qty_at j (moved g (x ∷ is)) + (if same_place (at_guest g) j then g.qty else 0)
            ≡ qty_at j (x ∷ is) + (if same_place (at_user g) j then g.qty else 0))
          (sym (head_of i g gs is e h))
          (moved_head j g is
            (ap (λ x. x.cart_id) (sym (head_of i g gs is e h)) ∙ (==_iff i.cart_id guest).0 h))
    | inr h ↦ ground (arith, moved_qty j g gs is, h)
  ]

  added_guest :
      (g : CartItem) (is : List CartItem)
      → of_guest (change_line user g.product_id g.variant_id (add_qty g.qty) is) ≡ of_guest is
  added_guest g [] = refl
  added_guest g (i ∷ is) = ground (arith, added_guest g is)

  -- The lines of a place in the guest's cart are among the guest's lines.
  pub qty_of_guest :
      (p : ℕ) (v : Option ℕ) (is : List CartItem)
      → qty_at (guest_place p v) is ≡ qty_at (guest_place p v) (of_guest is)
  qty_of_guest p v [] = refl
  qty_of_guest p v (i ∷ is) = ground (arith, qty_of_guest p v is)

  deleted_guest :
      (p : ℕ) (v : Option ℕ) (is : List CartItem)
      → of_guest (delete_item guest p v is).1 ≡ (delete_item guest p v (of_guest is)).1
  unfolding delete_item
  deleted_guest p v [] = refl
  deleted_guest p v (i ∷ is) = ground (arith, deleted_guest p v is)

  -- No line is at the place.
  abbrev pub Free : Place → List CartItem → Type 0
  Free k [] = Unit
  Free k (i ∷ is) = (is_at k i ≡ false) × Free k is

  Free-delete_item :
      (p : ℕ) (v : Option ℕ) (is : List CartItem)
      → Free (guest_place p v) is
      → (delete_item guest p v is).1 ≡ is
  unfolding delete_item
  Free-delete_item p v [] h = refl
  Free-delete_item p v (i ∷ is) (h, hs) = ground (arith, Free-delete_item p v is hs)

  pub Free-qty_at : (k : Place) (is : List CartItem) → Free k is → qty_at k is ≡ 0
  Free-qty_at k [] h = refl
  Free-qty_at k (i ∷ is) (h, hs) = ground (arith, Free-qty_at k is hs)

  -- No two lines of a list are at one place.
  abbrev pub IsDistinct : List CartItem → Type 0
  IsDistinct [] = Unit
  IsDistinct (i ∷ is) = Free (at_guest i) is × IsDistinct is

  -- What the user's cart has a line for when the merge begins, it still has a line for.
  abbrev pub Keeps : List CartItem → List CartItem → Type 0
  Keeps before is =
      (p : ℕ) (v : Option ℕ)
      → is_some (get_item user p v before) ≡ true
      → is_some (get_item user p v is) ≡ true

  get_item-add :
      (p q n : ℕ) (v w : Option ℕ) (is : List CartItem)
      → is_some (get_item user p v is) ≡ true
      → is_some (get_item user p v (change_line user q w (add_qty n) is)) ≡ true
  unfolding get_item
  get_item-add p q n v w [] h = cc
  get_item-add p q n v w (i ∷ is) h = ground (arith, get_item-add p q n v w is)

  get_item-delete :
      (p q : ℕ) (v w : Option ℕ) (is : List CartItem)
      → is_some (get_item user p v is) ≡ true
      → is_some (get_item user p v (delete_item guest q w is).1) ≡ true
  unfolding get_item delete_item
  get_item-delete p q v w [] h = cc
  get_item-delete p q v w (i ∷ is) h = ground (arith, get_item-delete p q v w is)

  get_item-moved :
      (p : ℕ) (v : Option ℕ) (g : CartItem) (is : List CartItem)
      → is_some (get_item user p v is) ≡ true
      → is_some (get_item user p v (moved g is)) ≡ true
  unfolding get_item
  get_item-moved p v g [] h = cc
  get_item-moved p v g (i ∷ is) h = ground (arith, get_item-moved p v g is)

  -- What the two carts ask for together.
  abbrev pub total : ℕ → Option ℕ → List CartItem → ℕ
  total p v xs = qty_at (user_place p v) xs + qty_at (guest_place p v) xs

  first_guest : (g : CartItem) (gs is : List CartItem) → of_guest is ≡ g ∷ gs → g.cart_id ≡ guest
  first_guest g gs [] e = cc
  first_guest g gs (i ∷ is) e = elim (Bool-cases (i.cart_id == guest)) [
    | inl h ↦ ap (λ x. x.cart_id) (sym (head_of i g gs is e h)) ∙ (==_iff i.cart_id guest).0 h
    | inr h ↦ ground (arith, first_guest g gs is, h)
  ]

  drop_head :
      (g : CartItem) (gs : List CartItem)
      → g.cart_id ≡ guest
      → Free (at_guest g) gs
      → (delete_item guest g.product_id g.variant_id (g ∷ gs)).1 ≡ gs
  unfolding delete_item
  drop_head g gs h free = ground (
    arith,
    opt_eq_iff g.variant_id g.variant_id,
    Free-delete_item g.product_id g.variant_id gs free,
  )

  same_parts :
      (g : CartItem) (p : ℕ) (v : Option ℕ)
      → same_place (at_guest g) (guest_place p v) ≡ true
      → (p ≡ g.product_id) × (v ≡ g.variant_id)
  same_parts g p v h = ground (arith, opt_eq_iff g.variant_id v)

  -- The rows in the middle of the merge: `g` and then `gs` are the guest's lines that are left.
  module _ (before : List CartItem) (g : CartItem) (gs is : List CartItem)
      (left : of_guest is ≡ g ∷ gs) (free : Free (at_guest g) gs) (keeps : Keeps before is) where
    abbrev added : List CartItem
    added = change_line user g.product_id g.variant_id (add_qty g.qty) is

    own_qty : qty_at (at_guest g) is ≡ g.qty
    own_qty =
        qty_of_guest g.product_id g.variant_id is
        ∙ ap (qty_at (at_guest g)) left
        ∙ ground (
          arith,
          opt_eq_iff g.variant_id g.variant_id,
          first_guest g gs is left,
          Free-qty_at (at_guest g) gs free,
        )

    guest_qty :
        (p : ℕ) (v : Option ℕ)
        → same_place (at_guest g) (guest_place p v) ≡ true
        → qty_at (guest_place p v) is ≡ g.qty
    guest_qty p v h =
        let (e, e') = same_parts g p v h in
        ap (λ x. qty_at (guest_place x v) is) e
        ∙ ap (λ x. qty_at (guest_place g.product_id x) is) e'
        ∙ own_qty

    pub step_rest : of_guest (merge_line user guest before g is) ≡ gs
    unfolding merge_line
    step_rest = elim (Bool-cases (is_some (get_item user g.product_id g.variant_id before))) [
      | inl e ↦ rw e (
          deleted_guest g.product_id g.variant_id added
          ∙ ap (λ xs. (delete_item guest g.product_id g.variant_id xs).1) (added_guest g is ∙ left)
          ∙ drop_head g gs (first_guest g gs is left) free)
      | inr e ↦ rw e (moved_guest g gs is left)
    ]

    pub step-Keeps : Keeps before (merge_line user guest before g is)
    unfolding merge_line
    step-Keeps p v h =
        elim (Bool-cases (is_some (get_item user g.product_id g.variant_id before))) [
          | inl e ↦ rw e (
              get_item-delete p g.product_id v g.variant_id added
                (get_item-add p g.product_id g.qty v g.variant_id is (keeps p v h)))
          | inr e ↦ rw e (get_item-moved p v g is (keeps p v h))
        ]

    found_total :
        (p : ℕ) (v : Option ℕ)
        → is_some (get_item user g.product_id g.variant_id before) ≡ true
        → total p v (delete_item guest g.product_id g.variant_id added).1 ≡ total p v is
    found_total p v e =
        let there = keeps g.product_id g.variant_id e in
        ground (
          arith,
          qty_at-delete_item (user_place p v) (at_guest g) added,
          qty_at-delete_item (guest_place p v) (at_guest g) added,
          qty_at-change_line (user_place p v) (at_user g) g.qty is there,
          qty_at-change_line (guest_place p v) (at_user g) g.qty is there,
          guest_qty p v,
        )

    found_other :
        (j : Place)
        → j.cart ≢ user
        → j.cart ≢ guest
        → is_some (get_item user g.product_id g.variant_id before) ≡ true
        → qty_at j (delete_item guest g.product_id g.variant_id added).1 ≡ qty_at j is
    found_other j u h e =
        let there = keeps g.product_id g.variant_id e in
        ground (
          arith,
          qty_at-delete_item j (at_guest g) added,
          qty_at-change_line j (at_user g) g.qty is there,
        )

    pub step_total :
        (p : ℕ) (v : Option ℕ) → total p v (merge_line user guest before g is) ≡ total p v is
    unfolding merge_line
    step_total p v = elim (Bool-cases (is_some (get_item user g.product_id g.variant_id before))) [
      | inl e ↦ rw e (found_total p v e)
      | inr e ↦ rw e (
          ground (
            arith,
            moved_qty (user_place p v) g gs is left,
            moved_qty (guest_place p v) g gs is left,
          ))
    ]

    -- Other carts are left alone.
    pub step_other :
        (j : Place)
        → j.cart ≢ user
        → j.cart ≢ guest
        → qty_at j (merge_line user guest before g is) ≡ qty_at j is
    unfolding merge_line
    step_other j u h =
        elim (Bool-cases (is_some (get_item user g.product_id g.variant_id before))) [
          | inl e ↦ rw e (found_other j u h e)
          | inr e ↦ rw e (ground (arith, moved_qty j g gs is left))
        ]
