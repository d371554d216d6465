-- ===== src/Promo/Discount.antt =====
-- Bounds and rounding of `PromoService._compute_discount` (app/services/promo_service.py).
use native.Mathlib.Nat.{mul-le-mul, le_refl}
use store_evix.Common.{ℕ, ◌+◌, ◌/◌, ◌*◌, ◌%◌, ◌≤◌, ◌<◌, ◌≡◌, min, arith}
use store_evix.Common.Int.{ℤ, pos, negsuc}
use store_evix.Models.Promo.{PromoCode, DiscountType, percent, fixed}
use store_evix.Promo.Defs.{compute_discount, raw_discount, quantize, clamp_units}

discount_mono :
    (d : DiscountType) (v : ℤ) (s t : ℕ)
    → s ≤ t
    → clamp_units (quantize (raw_discount d v s)) s ≤ clamp_units (quantize (raw_discount d v t)) t
unfolding quantize
discount_mono percent (pos v) s t h = omega (arith, mul-le-mul h (le_refl v))
discount_mono percent (negsuc v) s t h = ground arith
discount_mono fixed (pos v) s t h = omega arith
discount_mono fixed (negsuc v) s t h = ground arith

module _ (p : PromoCode) where
  -- Whatever the coupon says, a negative value included, the discount is at most the subtotal.
  pub compute_discount_le : (subtotal : ℕ) → compute_discount p subtotal ≤ subtotal
  unfolding compute_discount
  compute_discount_le subtotal = ground arith

  -- For an amount of `raw` millionths, which is not negative, the discount is the whole number of
  -- units nearest to it, a tie upwards, and never more than the subtotal.
  pub compute_discount_nearest :
      (subtotal : ℕ) (raw : ℕ)
      → raw_discount p.discount_type p.discount_value subtotal ≡ pos raw
      → (units : ℕ) × (compute_discount p subtotal ≡ min (units * 100) subtotal)
        × (units * 1_000_000 ≤ raw + 500_000)
        × (raw < units * 1_000_000 + 500_000)
  unfolding compute_discount
  compute_discount_nearest subtotal raw e =
      ((raw + 500_000) / 1_000_000, rw e, omega arith, omega arith)

  -- On a subtotal in whole units the discount is in whole units.
  pub compute_discount_whole :
      (subtotal : ℕ) → subtotal % 100 ≡ 0 → compute_discount p subtotal % 100 ≡ 0
  unfolding compute_discount
  compute_discount_whole subtotal h = ground arith

  -- A larger subtotal never has the smaller discount.
  pub compute_discount_mono : (s t : ℕ) → s ≤ t → compute_discount p s ≤ compute_discount p t
  unfolding compute_discount
  compute_discount_mono s t h = discount_mono p.discount_type p.discount_value s t h
