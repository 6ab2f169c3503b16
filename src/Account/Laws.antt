-- ===== src/Account/Laws.antt =====
-- What the lifecycle of an account keeps: see `Sums` for the transactions that two accounts share,
-- `Merging`, `Closing` and `Rows`.
pub mod Sums
pub mod Shares
pub mod Merging
pub mod Merged
pub mod Closed
pub mod Zeroed
pub mod Rows
pub mod Edited
pub mod Saved
