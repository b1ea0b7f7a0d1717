-- ===== src/Access.antt =====
-- app/deps.py, app/security/jwt.py and app/db/models/user.py
pub mod Jwt
pub mod Guards
pub mod Sessions
mod Scoped
mod Rotation
mod Login
mod Issued
mod Tests
mod SessionTests
