-- ===== src/Calculations.antt =====
-- The model of the reserve and of a user's position in test-suites/helpers/utils/calculations.ts.
pub mod Data
pub mod Interest
pub mod Rates
pub mod State
pub mod Liquidity
pub mod Debt
pub mod Swap
pub mod User
pub mod UserDebt
pub mod Snapshot
pub mod Actions
pub mod Examples
