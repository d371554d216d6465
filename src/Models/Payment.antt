-- ===== src/Models/Payment.antt =====
-- Card payments: app/models/payment.py. The provider is always maib; the raw payload is left out.
use store_evix.Common.{ℕ, Option, String}
use store_evix.Common.Int.{ℤ}

pub data PaymentState : Type 0 where
  pending ok failed refunded : PaymentState

pub record Payment : Type 0 where
  pub id : ℕ
  pub order_id : ℕ
  pub pay_id : Option String
  pub status : PaymentState
  pub amount : ℤ
  pub currency : String
