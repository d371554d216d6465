-- ===== src/Stock.antt =====
-- Stock: `decrement_stock` and `increment_stock` of app/repositories/order_repo.py, the loop that
-- takes a checkout's lines (`_persist_order` of app/services/checkout_service.py) and the loop that
-- gives a canceled order's lines back (`_make_stock_return` of app/services/order_service.py).
-- A line with a variant draws on the variant's row, any other on the product's.
mod Defs
pub mod Rows
pub mod Demand
pub mod Return
mod Tests
unfoldable pub use Defs.*
