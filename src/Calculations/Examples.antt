-- ===== src/Calculations/Examples.antt =====
-- The theorems on test-suites/helpers/utils/calculations.ts at a concrete reserve and position.
pub mod Market
pub mod Rates
pub mod Users
pub mod Reserves
