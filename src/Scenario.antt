-- ===== src/Scenario.antt =====
-- test-suites/helpers/actions.ts and test-suites/helpers/scenario-engine.ts: the actions that the
-- scenarios take on a deployed protocol, and the comparison of what it does with the calculations.
pub mod Chain
pub mod Compare
pub mod Actions
pub mod ParseInt
pub mod Engine
pub mod Examples
