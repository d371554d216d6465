-- ===== src/Models/Cart.antt =====
-- Carts and their lines: app/models/cart.py.
use store_evix.Common.{ℕ, Option}

pub data CartStatus : Type 0 where
  draft converted abandoned : CartStatus

pub record Cart : Type 0 where
  pub id : ℕ
  pub user_id : Option ℕ
  pub session_token : Option ℕ
  pub status : CartStatus

pub record CartItem : Type 0 where
  pub id : ℕ
  pub cart_id : ℕ
  pub product_id : ℕ
  pub variant_id : Option ℕ
  pub qty : ℕ
