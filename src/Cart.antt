-- ===== src/Cart.antt =====
-- Carts: the class CartService of app/services/cart_service.py with app/repositories/cart_repo.py.
-- A caller's cart is found or created, its lines are added, changed and removed, it is shown with
-- live prices, and after a login the guest's cart is merged into the user's.
-- The database keeps one line for a product without variants and one for each variant in a cart, so
-- a lookup by cart, product and variant finds one row at most; here it finds the first. The lock on
-- the cart row is left out.
mod Defs
pub mod Quantities
pub mod MergeStep
pub mod Merge
mod Tests
unfoldable pub use Defs.*
