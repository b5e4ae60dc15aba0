-- ===== src/Scenario/Examples.antt =====
-- The theorems on test-suites/helpers/actions.ts and scenario-engine.ts on concrete data.
pub mod SmallChain
mod Actions
mod Story
mod Comparisons
