-- ===== src/Accounts.antt =====
-- Accounts: refresh tokens and addresses, of the class AuthService of app/services/auth_service.py,
-- with app/core/security.py and app/repositories/user_repo.py.
pub mod Tokens
pub mod Rotation
pub mod Addresses
pub mod Defaults
mod Tests
