-- ===== src/Auth.antt =====
-- Verification codes and logins: server/app/services/code_manager.py, auth_service.py and the part of
-- server/app/core/cache.py that they call. `Redis` is the server behind the cache, a parameter,
-- `Cache` the cache, `Codes` the codes, `Login` the logins, `Username` and `Register` the
-- registration.
pub mod Redis
pub mod Cache
pub mod Codes
pub mod Login
pub mod Username
pub mod Register
pub mod Laws
mod Tests
