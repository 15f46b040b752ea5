-- ===== src/Auth.antt =====
-- internal/infrastructure/auth.
pub mod Bcrypt
pub mod Jwt
