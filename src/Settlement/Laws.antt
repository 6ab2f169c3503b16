-- ===== src/Settlement/Laws.antt =====
-- What the payments settle.
pub mod Paid
pub mod Assigned
