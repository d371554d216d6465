-- ===== src/Order.antt =====
-- Orders after they are placed: the class OrderService of app/services/order_service.py and the
-- order reads of app/repositories/order_repo.py. Two axes move along transition tables, every move
-- writes an audit row, and a cancel gives the lines back to stock after the commit.
-- A request with a status that is none of the four is refused like any move outside the table, so
-- requests are over the known statuses. Creation times and log lines are left out.
mod Defs
pub mod Axes
pub mod Machine
pub mod Requests
mod Tests
unfoldable pub use Defs.*
