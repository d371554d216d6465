-- ===== src/Models.antt =====
-- The database rows, one child for each file of app/models that is modelled, and the database.
pub mod Catalog
pub mod Order
pub mod Cart
pub mod Promo
pub mod Payment
pub mod Db
pub mod CatalogDb
