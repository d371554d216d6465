-- ===== src/Categories.antt =====
-- The category tree: the category operations of the class AdminCatalogService of
-- app/services/admin_catalog_service.py. A row keeps the key of its parent and, redundantly, the
-- keys from the root down to itself and their number.
mod Defs
pub mod Tree
pub mod Edits
pub mod Moves
pub mod Verdict
pub mod Requests
mod Tests
unfoldable pub use Defs.*
