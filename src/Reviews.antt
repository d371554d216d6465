-- ===== src/Reviews.antt =====
-- Product reviews and their moderation: app/services/review_service.py and
-- app/repositories/review_repo.py. The public and the moderation list are left out.
mod Defs
pub mod Shown
mod Tests
unfoldable pub use Defs.*
