-- ===== src/Budget/Laws.antt =====
-- The calendar, and what the periods of a budget have in common.
pub mod Months
pub mod Cuts
pub mod Periods
pub mod Insert
pub mod Latest
pub mod Ends
pub mod Current
pub mod Rule
pub mod Rows
pub mod Amounts
pub mod Rebalance
