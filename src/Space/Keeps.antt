-- ===== src/Space/Keeps.antt =====
-- Every operation of the space service keeps the invariant, whether it returns or raises.
pub mod Common
pub mod Members
pub mod Service
