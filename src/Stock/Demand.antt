-- ===== src/Stock/Demand.antt =====
-- The loop that takes a checkout's lines, against the total that the lines ask of each row.
use store_evix.Common.{
  ℕ, ◌+◌, ◌≤◌, ◌<◌, ◌≡◌, refl, ap, ◌↔◌, ◌⊎◌, inl, inr, true, false, Option, none, some, List, [],
  ◌∷◌, arith, if◌then◌else◌, All, Bool-cases,
}
use store_evix.Models.Catalog.{Stock}
use store_evix.Stock.Defs.{decrement_stock, covers, Take, Taken, taken, out_of_stock, take_all}
use store_evix.Stock.Rows.{Sku, simple, variant, sku, sku_eq, on_hand, plus, decrement_stock_lem}

pub sku_eq_iff : (j k : Sku) → (sku_eq j k ≡ true) ↔ (j ≡ k)
sku_eq_iff (simple a) (simple b) = ground (arith)
sku_eq_iff (simple a) (variant b) = ground arith
sku_eq_iff (variant a) (simple b) = ground arith
sku_eq_iff (variant a) (variant b) = ground arith

abbrev pub take_sku : Take → Sku
take_sku l = sku l.product_id l.variant_id

-- What the lines ask of one row together.
abbrev pub demand : Sku → List Take → ℕ
demand k [] = 0
demand k (l ∷ ls) = (if sku_eq (take_sku l) k then l.qty else 0) + demand k ls

abbrev pub stock_of : Option ℕ → ℕ
stock_of none = 0
stock_of (some q) = q

abbrev pub IsPositive : List Take → Type 0
IsPositive = All λ l. 0 < l.qty

-- A line of the product draws on the row.
abbrev pub Draws : ℕ → Sku → List Take → Type 0
Draws p k [] = ⊥
Draws p k (l ∷ ls) = ((l.product_id ≡ p) × (take_sku l ≡ k)) ⊎ Draws p k ls

-- Taken in full: no row gives more than it has, and each gives exactly what is asked. Refused: the
-- named product has a line on a row that is asked for more than it has.
abbrev pub Outcome : Stock → List Take → Taken → Type 0
Outcome s ls (taken t) =
    (k : Sku)
    → (on_hand s k ≡ plus (demand k ls) (on_hand t k)) × (demand k ls ≤ stock_of (on_hand s k))
Outcome s ls (out_of_stock p) = (k : Sku) × (stock_of (on_hand s k) < demand k ls) × Draws p k ls

pub plus_zero : (o : Option ℕ) → o ≡ plus 0 o
plus_zero none = refl
plus_zero (some q) = ground arith

module _ (l : Take) (ls : List Take) (s : Stock) (positive : 0 < l.qty) where
  open l use {product_id, variant_id, qty}

  same_row : (k : Sku) → sku_eq (take_sku l) k ≡ true → on_hand s (take_sku l) ≡ on_hand s k
  same_row k e = ap (on_hand s) ((sku_eq_iff (take_sku l) k).0 e)

  -- A line that is taken, before an outcome of the others.
  step_taken :
      (covers (on_hand s (take_sku l)) qty ≡ true)
      → (r : Taken) → Outcome (decrement_stock product_id qty variant_id s).1 ls r
      → Outcome s (l ∷ ls) r
  step_taken e (taken t) h =
      λ k. ground (arith, h k, decrement_stock_lem product_id qty variant_id s k, same_row k)
  step_taken e (out_of_stock p) (k, less, draws) =
      (k, ground (arith, decrement_stock_lem product_id qty variant_id s k, same_row k), inr draws)

  step_refused :
      (covers (on_hand s (take_sku l)) qty ≡ false) → Outcome s (l ∷ ls) (out_of_stock product_id)
  step_refused e =
      (take_sku l, ground (arith, sku_eq_iff (take_sku l) (take_sku l), positive), inl (refl, refl))

-- Lines of positive quantities are taken together or not at all. Taken: every row of stock gives
-- exactly what the lines ask of it, which it has. Refused: a row is asked for more than it has, and
-- the product that is named has a line on that row.
pub take_all-Outcome : (ls : List Take) (s : Stock) → IsPositive ls → Outcome s ls (take_all ls s)
unfolding take_all
take_all-Outcome [] s h = λ k. (plus_zero (on_hand s k), omega arith)
take_all-Outcome (l ∷ ls) s (h, hs) =
    let done = (decrement_stock_lem l.product_id l.qty l.variant_id s (take_sku l)).0 in
    elim (Bool-cases (covers (on_hand s (take_sku l)) l.qty)) [
      | inl e ↦
          rw (done, e)
            (step_taken l ls s h e
              (take_all ls (decrement_stock l.product_id l.qty l.variant_id s).1)
              (take_all-Outcome ls (decrement_stock l.product_id l.qty l.variant_id s).1 hs))
      | inr e ↦ rw (done, e) (step_refused l ls s h e)
    ]
