-- ===== src/Models/Promo.antt =====
-- Coupons: app/models/promo.py. Values and minima are in hundredths, instants are numbers.
use store_evix.Common.{ℕ, Bool, Option, String}
use store_evix.Common.Int.{ℤ}

pub data DiscountType : Type 0 where
  percent fixed : DiscountType

pub record PromoCode : Type 0 where
  pub id : ℕ
  pub code : String
  pub discount_type : DiscountType
  pub discount_value : ℤ
  pub active_from : ℕ
  pub active_to : ℕ
  pub min_order_total : Option ℕ
  pub usage_limit : Option ℕ
  pub is_active : Bool
