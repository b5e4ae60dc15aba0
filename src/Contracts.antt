-- ===== src/Contracts.antt =====
-- The contracts that the calculations of the test suites stand for.
pub mod WadRayMath
pub mod MathUtils
pub mod InterestRates
pub mod ReserveLogic
pub mod Examples
