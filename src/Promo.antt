-- ===== src/Promo.antt =====
-- Coupons: the class PromoService of app/services/promo_service.py and the class PromoRepository of
-- app/repositories/promo_repo.py. A code is validated against a subtotal for quote and checkout,
-- and the back office creates, changes and deletes coupons.
-- Amounts are in hundredths, so a percentage of a subtotal is a whole number of millionths.
-- The lock that a checkout takes on a limited code has no effect on one session by itself and is left
-- out.
mod Defs
pub mod Discount
pub mod Validate
pub mod Rows
pub mod Admin
mod Tests
unfoldable pub use Defs.*
