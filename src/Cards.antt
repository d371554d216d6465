-- ===== src/Cards.antt =====
-- The publication rule and the read model `product_card`: assert_publishable and rebuild_card of the
-- class CatalogService of app/services/catalog_service.py, with their reads in
-- app/repositories/catalog_repo.py.
mod Defs
pub mod Sync
pub mod Rebuild
unfoldable pub use Defs.*
