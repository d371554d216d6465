-- ===== src/Models/Order.antt =====
-- Orders, their lines, the audit trail and the carrier row: app/models/order.py. Amounts are whole
-- cents; the creation times are left out.
use store_evix.Common.{ℕ, Option, String}
use store_evix.Common.Int.{ℤ}

pub data OrderStatus : Type 0 where
  new confirmed done canceled : OrderStatus

pub data PaymentStatus : Type 0 where
  pending paid refunded : PaymentStatus

pub data DeliveryType : Type 0 where
  pickup courier branch postomat : DeliveryType

pub data DeliveryService : Type 0 where
  own novapost : DeliveryService

pub data PaymentMethod : Type 0 where
  cod card : PaymentMethod

-- `YYYYMMDD-000042` by its two parts.
pub record OrderNumber : Type 0 where
  pub day : ℕ
  pub seq : ℕ

pub record Order : Type 0 where
  pub id : ℕ
  pub number : OrderNumber
  pub user_id : Option ℕ
  pub email : String
  pub phone : String
  pub status : OrderStatus
  pub payment_status : PaymentStatus
  pub subtotal : ℕ
  pub discount_total : ℕ
  pub delivery_cost : ℕ
  pub total : ℤ
  pub delivery_type : DeliveryType
  pub delivery_service : DeliveryService
  pub delivery_address_id : Option ℕ
  pub delivery_name : Option String
  pub delivery_city : Option String
  pub delivery_street : Option String
  pub delivery_zip : Option String
  pub payment_method : PaymentMethod
  pub promo_code : Option String

pub record OrderItem : Type 0 where
  pub order_id : ℕ
  pub product_id : Option ℕ
  pub variant_id : Option ℕ
  pub name_snapshot : String
  pub price_snapshot : ℕ
  pub qty : ℕ

-- `from_status` and `to_status` hold a value of either axis, or the empty text.
pub data Mark : Type 0 where
  blank : Mark
  fulfilment : OrderStatus → Mark
  payment : PaymentStatus → Mark

pub record OrderStatusHistory : Type 0 where
  pub order_id : ℕ
  pub from_status : Mark
  pub to_status : Mark
  pub changed_by : String

-- A carrier courier address, in the carrier's own field layout.
pub record NovaPostAddress : Type 0 where
  pub city : String
  pub street : String
  pub building : String
  pub post_code : String
  pub flat : Option String
  pub block : Option String
  pub note : Option String

pub record OrderDeliveryNovaPost : Type 0 where
  pub order_id : ℕ
  pub settlement_id : Option String
  pub settlement_name : String
  pub settlement_name_ru : String
  pub division_id : Option String
  pub division_number : String
  pub division_address : String
  pub address_parts : Option NovaPostAddress
  pub calculated_cost : Option ℕ
  pub parcel_weight_g : Option ℕ
  pub awb_id : Option String
  pub awb_number : Option String
  pub status_code : String
  pub status_text : String
  pub status_updated_at : Option ℕ
