-- ===== src/Auth/Laws.antt =====
-- What the codes and the logins keep.
pub mod Keys
pub mod Codes
pub mod Refines
pub mod Sending
pub mod Login
pub mod Usernames
pub mod Register
