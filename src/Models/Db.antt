-- ===== src/Models/Db.antt =====
-- The tables that the modelled services share.
use store_evix.Common.{ℕ, Bool, Option, List, String}
use store_evix.Models.Catalog.{Stock, ProductTranslation}
use store_evix.Models.Order.{Order, OrderItem, OrderStatusHistory, OrderDeliveryNovaPost}
use store_evix.Models.Cart.{Cart, CartItem}
use store_evix.Models.Promo.{PromoCode}
use store_evix.Models.Payment.{Payment}

pub record Address : Type 0 where
  pub id : ℕ
  pub user_id : ℕ
  pub full_name : String
  pub phone : String
  pub city : String
  pub street : String
  pub zip : Option String
  pub is_default : Bool

pub record Db : Type 0 where
  pub stock : Stock
  pub translations : List ProductTranslation
  pub addresses : List Address
  pub carts : List Cart
  pub cart_items : List CartItem
  pub promos : List PromoCode
  pub orders : List Order
  pub order_items : List OrderItem
  pub history : List OrderStatusHistory
  pub carriers : List OrderDeliveryNovaPost
  pub payments : List Payment
