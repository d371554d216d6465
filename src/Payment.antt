-- ===== src/Payment.antt =====
-- Card payments: the class PaymentService of app/services/payment/payment_service.py with
-- app/repositories/payment_repo.py. A payment is created for a card order, the provider's callback
-- settles it through the order's state machine, and the back office refunds it.
-- The provider (its answers, its signature check) and Python's upper are parameters (`Gateway`).
-- The raw payload that is stored with a payment is left out.
mod Defs
pub mod Settling
pub mod Callback
pub mod Effects
mod Tests
unfoldable pub use Defs.*
