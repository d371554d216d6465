-- ===== src/Products.antt =====
-- The back office of products and variants: the product and variant operations of the class
-- AdminCatalogService of app/services/admin_catalog_service.py. Each of them rebuilds the cards of
-- its product before it commits.
mod Defs
mod Variants
mod Generate
pub mod Synced
pub mod SyncedVariants
pub mod Combos
pub mod Fill
pub mod Generated
pub mod Completed
pub mod Requests
pub mod Selected
pub mod Buyable
mod Tests
unfoldable pub use Defs.*
unfoldable pub use Variants.*
unfoldable pub use Generate.*
