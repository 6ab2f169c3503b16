-- ===== src/Space/Effects.antt =====
-- What the operations on members do when they succeed, and to whom they are open.
pub mod Transfer
pub mod Removal
pub mod Editing
pub mod Joining
pub mod Linking
pub mod LinkAll
pub mod Recording
