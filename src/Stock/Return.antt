-- ===== src/Stock/Return.antt =====
-- The loop that gives a canceled order's lines back to stock.
use mathlib.Core.Path.{subst}
use store_evix.Common.{
  ℕ, ◌+◌, ◌<◌, ◌≡◌, refl, ap, sym, ◌∙◌, ◌&&◌, Option, none, some, List, [], ◌∷◌, arith,
  if◌then◌else◌, ltb, ◌==◌, All,
}
use store_evix.Models.Catalog.{Stock}
use store_evix.Models.Order.{OrderItem}
use store_evix.Stock.Defs.{
  increment_stock, at_zero, Take, taken, take_all, notified_for, return_all,
}
use store_evix.Stock.Rows.{Sku, simple, variant, sku, sku_eq, on_hand, plus, increment_stock_lem}
use store_evix.Stock.Demand.{demand, IsPositive, Outcome, plus_zero, take_all-Outcome}

-- What an order line gives back to a row: a line with no variant and no product gives nothing.
abbrev pub gives : Sku → Option ℕ → Option ℕ → ℕ → ℕ
gives k (some p) none n = if sku_eq (simple p) k then n else 0
gives k none none n = 0
gives k p (some v) n = if sku_eq (variant v) k then n else 0

abbrev pub returned : Sku → List OrderItem → ℕ
returned k [] = 0
returned k (i ∷ is) = gives k i.product_id i.variant_id i.qty + returned k is

abbrev pub occurrences : ℕ → List ℕ → ℕ
occurrences p [] = 0
occurrences p (q ∷ qs) = (if q == p then 1 else 0) + occurrences p qs

increment-gives :
    (p : Option ℕ) (n : ℕ) (v : Option ℕ) (s : Stock) (k : Sku)
    → on_hand (increment_stock p n v s).1 k ≡ plus (gives k p v n) (on_hand s k)
unfolding increment_stock
increment-gives none n none s k = plus_zero (on_hand s k)
increment-gives (some p) n none s k = ground (arith, increment_stock_lem p n none s k)
increment-gives none n (some v) s k = ground (arith, increment_stock_lem 0 n (some v) s k)
increment-gives (some p) n (some v) s k = ground (arith, increment_stock_lem p n (some v) s k)

plus-plus : (a b : ℕ) (o : Option ℕ) → plus a (plus b o) ≡ plus (b + a) o
plus-plus a b none = refl
plus-plus a b (some q) = ground arith

-- Every row gains what the lines give back to it, and no other row changes.
pub return_all-returned :
    (is : List OrderItem) (s : Stock) (k : Sku)
    → on_hand (return_all is s).0 k ≡ plus (returned k is) (on_hand s k)
unfolding return_all
return_all-returned [] s k = plus_zero (on_hand s k)
return_all-returned (i ∷ is) s k =
    let t = (increment_stock i.product_id i.qty i.variant_id s).1 in
    return_all-returned is t k
    ∙ ap (plus (returned k is)) (increment-gives i.product_id i.qty i.variant_id s k)
    ∙ plus-plus (returned k is) (gives k i.product_id i.variant_id i.qty) (on_hand s k)

-- The order lines that a checkout writes for what it takes.
abbrev pub IsLineOf : Take → OrderItem → Type 0
IsLineOf l i = (i.product_id ≡ some l.product_id) × (i.variant_id ≡ l.variant_id) × (i.qty ≡ l.qty)

abbrev pub AreLinesOf : List Take → List OrderItem → Type 0
AreLinesOf [] [] = Unit
AreLinesOf [] (_ ∷ _) = ⊥
AreLinesOf (_ ∷ _) [] = ⊥
AreLinesOf (l ∷ ls) (i ∷ is) = IsLineOf l i × AreLinesOf ls is

gives-IsLineOf :
    (k : Sku) (l : Take) (i : OrderItem)
    → IsLineOf l i
    → gives k i.product_id i.variant_id i.qty
      ≡ (if sku_eq (sku l.product_id l.variant_id) k then l.qty else 0)
gives-IsLineOf k l i h = ground arith

pub returned-demand :
    (k : Sku) (ls : List Take) (is : List OrderItem)
    → AreLinesOf ls is
    → returned k is ≡ demand k ls
returned-demand k [] [] h = refl
returned-demand k [] (i ∷ is) h = absurd h
returned-demand k (l ∷ ls) [] h = absurd h
returned-demand k (l ∷ ls) (i ∷ is) (h, hs) =
    omega (arith, gives-IsLineOf k l i h, returned-demand k ls is hs)

-- Round trip: once a checkout has taken its lines, of positive quantities, giving its order lines back
-- restores every quantity.
pub return_all-take_all :
    (ls : List Take) (is : List OrderItem) (s t : Stock)
    → IsPositive ls
    → take_all ls s ≡ taken t
    → AreLinesOf ls is
    → (k : Sku) → on_hand (return_all is t).0 k ≡ on_hand s k
return_all-take_all ls is s t h e lines k =
    let outcome = subst (Outcome s ls) e (take_all-Outcome ls s h) in
    return_all-returned is t k
    ∙ ap (λ n. plus n (on_hand t k)) (returned-demand k ls is lines)
    ∙ sym (outcome k).0

abbrev IsPositiveItems : List OrderItem → Type 0
IsPositiveItems = All λ i. 0 < i.qty

increment-crossed :
    (p n : ℕ) (v : Option ℕ) (s : Stock)
    → (increment_stock (some p) n v s).0 ≡ at_zero (on_hand s (sku p v))
increment-crossed p n v s = (increment_stock_lem p n v s (simple 0)).0

abbrev notice : Option ℕ → ℕ → ℕ
notice o back = if at_zero o && ltb 0 back then 1 else 0

-- One line, before the notices of the others.
notice-cons :
    (p n more : ℕ) (product_id variant_id : Option ℕ) (s : Stock) (rest : List ℕ)
    → 0 < n
    → let (crossed, t) = increment_stock product_id n variant_id s in
      occurrences p rest ≡ notice (on_hand t (simple p)) more
      → occurrences p (notified_for crossed variant_id product_id rest)
        ≡ notice (on_hand s (simple p)) (gives (simple p) product_id variant_id n + more)
notice-cons p n more none none s rest h e = ground (arith, increment-gives none n none s (simple p))
notice-cons p n more (some q) none s rest h e =
    let row = λ (same : q ≡ p). ap (λ j. on_hand s (simple j)) same in
    ground (arith, increment-crossed q n none s, increment-gives (some q) n none s (simple p), row)
notice-cons p n more none (some v) s rest h e =
    ground (arith, increment-gives none n (some v) s (simple p))
notice-cons p n more (some q) (some v) s rest h e =
    ground (arith, increment-gives (some q) n (some v) s (simple p))

-- For lines of positive quantities: a product is notified for exactly when it stood at zero and gets
-- something back, and then once, however many lines it has.
pub return_all_notifies :
    (p : ℕ) (is : List OrderItem) (s : Stock)
    → IsPositiveItems is
    → occurrences p (return_all is s).1
      ≡ (if at_zero (on_hand s (simple p)) && ltb 0 (returned (simple p) is) then 1 else 0)
unfolding return_all
return_all_notifies p [] s h = ground arith
return_all_notifies p (i ∷ is) s (h, hs) =
    notice-cons p i.qty (returned (simple p) is) i.product_id i.variant_id s
      (return_all is (increment_stock i.product_id i.qty i.variant_id s).1).1 h
      (return_all_notifies p is (increment_stock i.product_id i.qty i.variant_id s).1 hs)
