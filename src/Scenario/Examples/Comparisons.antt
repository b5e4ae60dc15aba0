-- ===== src/Scenario/Examples/Comparisons.antt =====
-- Comparisons of test-suites/helpers/actions.ts that just pass.
