-- ===== src/Promo/Validate.antt =====
-- What `PromoService.validate_and_compute` (app/services/promo_service.py) answers, on every branch.
use store_evix.Common.{ℕ, ◌≤◌, ◌<◌, ◌≡◌, true, false, Option, none, some, refl, String, arith}
use store_evix.Common.Session.{Result, ok, err}
use store_evix.Models.Promo.{PromoCode}
use store_evix.Models.Db.{Db}
use store_evix.Promo.Defs.{
  PromoError, promo_invalid, promo_expired, promo_min_order, promo_usage_limit, not_found, conflict,
  validation_error, get_by_code, count_orders_using, compute_discount, within_window, check_promo,
  check_found, validate_and_compute,
}

abbrev pub IsInside : PromoCode → ℕ → Type 0
IsInside p now = (p.active_from ≤ now) × (now ≤ p.active_to)

abbrev pub MeetsMinimum : Option ℕ → ℕ → Type 0
MeetsMinimum none subtotal = Unit
MeetsMinimum (some m) subtotal = m ≤ subtotal

abbrev pub HasUsesLeft : Option ℕ → ℕ → Type 0
HasUsesLeft none used = Unit
HasUsesLeft (some limit) used = used < limit

-- The documented rules, read off without the order of the code's tests.
pub record IsUsable (p : PromoCode) (subtotal now used : ℕ) : Type 0 where
  pub active : p.is_active ≡ true
  pub inside : IsInside p now
  pub minimum : MeetsMinimum p.min_order_total subtotal
  pub uses_left : HasUsesLeft p.usage_limit used

-- What each answer says of the coupon: the first rule that is broken, or that none is.
abbrev pub Verdict : PromoCode → ℕ → ℕ → ℕ → Result PromoError (PromoCode × ℕ) → Type 0
Verdict p s now used (ok (q, d)) = (q ≡ p) × (d ≡ compute_discount p s) × IsUsable p s now used
Verdict p s now used (err promo_invalid) = p.is_active ≡ false
Verdict p s now used (err promo_expired) = (p.is_active ≡ true) × ¬ IsInside p now
Verdict p s now used (err promo_min_order) =
    (p.is_active ≡ true) × IsInside p now × ¬ MeetsMinimum p.min_order_total s
Verdict p s now used (err promo_usage_limit) =
    (p.is_active ≡ true)
    × IsInside p now
    × MeetsMinimum p.min_order_total s
    × ¬ HasUsesLeft p.usage_limit used
Verdict p s now used (err not_found) = ⊥
Verdict p s now used (err conflict) = ⊥
Verdict p s now used (err validation_error) = ⊥

check_promo-Verdict :
    (p : PromoCode) (s now used : ℕ) → Verdict p s now used (check_promo p s now used)
unfolding within_window
check_promo-Verdict p s now used = ground arith

abbrev pub Answers : ℕ → ℕ → Db → Option PromoCode → Result PromoError (PromoCode × ℕ) → Type 0
Answers s now db none answer = answer ≡ err promo_invalid
Answers s now db (some p) answer = Verdict p s now (count_orders_using p.code db.orders) answer

check_found-Answers :
    (o : Option PromoCode) (s now : ℕ) (db : Db) → Answers s now db o (check_found o s now db)
check_found-Answers none s now db = refl
check_found-Answers (some p) s now db =
    check_promo-Verdict p s now (count_orders_using p.code db.orders)

-- An unknown code is invalid. For a known one the answer is the first of the rules active, validity
-- window, minimum order, usage limit that the coupon breaks, and if it breaks none, the coupon with
-- its discount.
pub validate_and_compute-Answers :
    (code : String) (s now : ℕ) (db : Db)
    → Answers s now db (get_by_code code db.promos) (validate_and_compute code s now db)
unfolding validate_and_compute
validate_and_compute-Answers code s now db =
    check_found-Answers (get_by_code code db.promos) s now db

-- A coupon that meets every rule is accepted, with its discount.
pub validate_and_compute_usable :
    (code : String) (s now : ℕ) (db : Db) (p : PromoCode)
    → get_by_code code db.promos ≡ some p
    → IsUsable p s now (count_orders_using p.code db.orders)
    → validate_and_compute code s now db ≡ ok (p, compute_discount p s)
unfolding validate_and_compute within_window
validate_and_compute_usable code s now db p e u = ground arith
