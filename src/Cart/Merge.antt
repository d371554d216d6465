-- ===== src/Cart/Merge.antt =====
-- The merge of a guest's cart into the user's: the loop of `merge_guest_into_user` in
-- app/services/cart_service.py.
use store_evix.Common.{ℕ, ◌+◌, ◌≡◌, ◌≢◌, refl, ◌∙◌, Option, List, [], ◌∷◌, arith}
use store_evix.Models.Cart.{CartItem}
use store_evix.Cart.Defs.{merge_line, merge_lines, list_raw_items}
use store_evix.Cart.Quantities.{Place, qty_at}
use store_evix.Cart.MergeStep.{
  of_guest, IsDistinct, Keeps, total, step_rest, step-Keeps, step_total, step_other, qty_of_guest,
}
use store_evix.Cart.Defs.{merge_carts}
use store_evix.Models.Db.{Db}

-- The rows after the merge of the guest's lines, against those before.
pub record IsMerged (user guest : ℕ) (is after : List CartItem) : Type 0 where
  pub sums :
      (p : ℕ) (v : Option ℕ)
      → qty_at (record { cart = user; product = p; variant = v }) after
        ≡ qty_at (record { cart = user; product = p; variant = v }) is
          + qty_at (record { cart = guest; product = p; variant = v }) is
  pub others : (j : Place) → j.cart ≢ user → j.cart ≢ guest → qty_at j after ≡ qty_at j is
  pub emptied : list_raw_items guest after ≡ []

module _ (user guest : ℕ) (apart : user ≢ guest) (before : List CartItem) where
  abbrev Merging : List CartItem → List CartItem → Type 0
  Merging is after =
      ((p : ℕ) (v : Option ℕ) → total user guest apart p v after ≡ total user guest apart p v is)
      × ((j : Place) → j.cart ≢ user → j.cart ≢ guest → qty_at j after ≡ qty_at j is)
      × (of_guest user guest apart after ≡ [])

  merge_lines-Merging :
      (gs is : List CartItem)
      → of_guest user guest apart is ≡ gs
      → IsDistinct user guest apart gs
      → Keeps user guest apart before is
      → Merging is (merge_lines user guest before gs is)
  unfolding merge_lines
  merge_lines-Merging [] is left distinct keeps = (λ p v. refl, λ j u h. refl, left)
  merge_lines-Merging (g ∷ gs) is left (free, distinct) keeps =
      let (sums, others, emptied) =
        merge_lines-Merging gs (merge_line user guest before g is)
          (step_rest user guest apart before g gs is left free keeps) distinct
          (step-Keeps user guest apart before g gs is left free keeps) in
      (
        λ p v. sums p v ∙ step_total user guest apart before g gs is left free keeps p v,
        λ j u h. others j u h ∙ step_other user guest apart before g gs is left free keeps j u h,
        emptied,
      )

-- Where the guest's cart has no two lines for one product and variant: after the merge of two carts
-- the user's has, for each product and variant, what the two had together; the guest's has no line
-- left; and no other cart has changed.
pub merge_carts-IsMerged :
    (user guest : ℕ) (db : Db) (apart : user ≢ guest)
    → IsDistinct user guest apart (list_raw_items guest db.cart_items)
    → IsMerged user guest db.cart_items (merge_carts user guest db).cart_items
unfolding merge_carts list_raw_items
merge_carts-IsMerged user guest db apart distinct =
    let (sums, others, emptied) =
      merge_lines-Merging user guest apart db.cart_items (list_raw_items guest db.cart_items)
        db.cart_items refl distinct (λ p v h. h) in
    record {
      sums = λ p v. ground (
        arith,
        sums p v,
        qty_of_guest user guest apart p v (merge_carts user guest db).cart_items,
        emptied,
      );
      others = others;
      emptied = emptied;
    }
