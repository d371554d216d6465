-- ===== src/Checkout.antt =====
-- Checkout: the class CheckoutService of app/services/checkout_service.py with the statements of
-- app/repositories/order_repo.py that it runs. A cart becomes priced lines, a delivery choice is
-- validated and priced, a coupon is applied, and the order is written in one transaction. After its
-- commit the payment of a card order is started.
-- The carrier's answers, the option labels of variants and Python's text functions are parameters
-- (`Shop`).
mod Choice
mod Lines
mod Place
mod Service
pub mod Totals
pub mod Methods
pub mod Sellable
pub mod Loading
pub mod Persist
pub mod Paying
pub mod Agree
pub mod Undo
mod Tests
unfoldable pub use Choice.*
unfoldable pub use Lines.*
unfoldable pub use Place.*
unfoldable pub use Service.*
