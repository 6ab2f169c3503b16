-- ===== src/Settings.antt =====
-- Settings of users: server/app/utils/currency_inference.py and the settings of
-- server/app/services/user_service.py. `Inference` has the currency of a new user, `Store` the tables,
-- `Service` the operations, `Laws` what they guarantee.
pub mod Inference
pub mod Store
pub mod Service
pub mod Laws
mod Tests
