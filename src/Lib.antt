-- ===== src/Lib.antt =====
-- The arithmetic and the accounting of the RASA lending protocol.
--
-- The program is a pool of reserves. Users deposit an asset, borrow it at a stable or a variable
-- rate, repay and withdraw; interest accrues by indexes that grow with time, and the rates follow
-- the usage of the reserve. The contracts do this on chain. The TypeScript in
-- test-suites/helpers/utils computes, for every action, the reserve and the user that the contracts
-- must produce, and the test suites compare the two. That computation is the main subject here; the
-- libraries of the contracts that it mirrors are modelled beside it and compared with it.
--
-- Files:
--   Prelude: shared names, Boolean tests, lists, the signed integers that stand for an ethers
--     `BigNumber`, and the result of a call that may throw.
--   Types: helpers/types.ts, the rate modes and the parameters of a reserve.
--   WadRayMath: test-suites/helpers/utils/wadraymath.ts with the constants of helpers/constants.ts.
--     A method `a.rayMul(b)` is `ray_mul a b`.
--   Calculations: test-suites/helpers/utils/calculations.ts and interfaces/index.ts. A function
--     `calcExpected...` has its name in lower case with underscores. Data holds the two records;
--     Interest, Rates and State the shared calculations; Liquidity, Debt and Swap the reserve after
--     an action; User and UserDebt the user's position after an action; Actions one dispatcher for
--     all actions on a reserve, as test-suites/helpers/actions.ts chooses among them; Snapshot the
--     data of a reserve and of a user as they are fetched.
--   Helpers: test-suites/helpers/utils/helpers.ts, `getReserveData` and `getUserData`. The answers of
--     the contracts are an argument, a record of unsigned numbers.
--   Contracts: contracts/protocol/libraries/math, the libraries WadRayMath, PercentageMath and
--     MathUtils; in InterestRates contracts/protocol/pool/DefaultReserveInterestRateStrategy.sol, and
--     there Calls, Stages, Overall, Ratios and Agreement the proofs. In ReserveLogic
--     contracts/protocol/libraries/logic/ReserveLogic.sol, whose state is a stored reserve and its cache,
--     with Operations for the functions beside `updateState`; there Indexes, Treasury, StableDebt, Parts
--     and Agreement hold the proofs on the update, Rates and Liquidity those on the sequence that a
--     supply or a withdrawal runs, and Room and Returns those on reverts.
--   Utilities: helpers/utilities/utils.ts, the function `chunk`, and in Checks the checks of addresses
--     and of the members of arrays.
--   Scenario: test-suites/helpers/actions.ts and scenario-engine.ts. Chain holds the parameter of the
--     actions and the sequence of their steps; Compare the comparison `almostEqualOrEqual`; Actions
--     each action, with Supply, Debt and Settings for the three groups of them; ParseInt the numbers
--     in the texts of a scenario; Engine the actions of a story by name.
--   Setup: helpers/init-helpers.ts and helpers/market-config-helpers.ts. Deployments holds the parameter
--     of the set-up, the record `Market`; Initialization and Configuration the two rounds over the
--     reserves of a market, Lookups what is read from its configuration,
--     with Deployed for the search among deployments by the prefix of a name.
--   Events: test-suites/helpers/utils/helpers.ts, `matchEvent`, and tokenization-events.ts. The record
--     `Ethers` is the parameter of the first, `Tokens`, over the `Chain` of the scenarios, that of the
--     second. Tokens holds the calls and the events as data, Scaled and Stable the functions, Emitted the
--     reading of events; Matching, Changes, Balance, Accounting, Verdicts and Transfers the proofs.
--   Ownership: tasks/misc/transfer-protocol-ownership.ts, and in Roles tasks/misc/view-protocol-roles.ts.
--     Protocol holds the parameter of both, a record of contracts that have owners and roles; Transfer,
--     Unwaited, Frame, Admins, Completion, Decision, Runs and Handover the proofs, from one call to the
--     whole of both tasks. A transaction that is sent and not waited for is settled before the next
--     answer is read, and nobody notices if it is refused.
--
-- How the state is modelled. A reserve and a position are records whose fields may be missing,
-- because the code starts from an empty object and fills it step by step; reading a missing field as
-- a number throws. A function that writes into the object it was given returns the new object. The
-- configuration object that holds the parameters of all reserves is an argument. Numbers are
-- unbounded signed integers, as they are in ethers; division rounds towards zero and throws at zero.
-- In the contracts numbers are 256-bit words: an operation that does not fit reverts, which is a
-- missing result. An action of a scenario is a function of the chain's state that returns a new state
-- or throws; a function of ReserveLogic takes the stored reserve and the cache and returns both. The
-- chain is a record, Scenario.Chain.Chain, of a type of states and of what the contracts
-- and the node answer in a state; a transaction is mined, with a receipt, or refused for a reason. No
-- definition needs fuel: the loops are a search in the list of reserves, the splitting of an array, the
-- keys of a record, the characters of a text, the logs of a receipt and the actions of a story, by
-- recursion on the list.
--
-- What is not modelled: what a transaction does to the chain, and what contracts, node, signatures and
-- ethers answer, which are fields of that record, of Market, Ethers, Tokens and Protocol; what is
-- printed; the deployment scripts and the other tasks, which call contracts through hardhat; the
-- pool contracts themselves, apart from the libraries and the interest rate strategy named above.
pub mod Prelude
pub mod Types
pub mod WadRayMath
pub mod Calculations
pub mod Helpers
pub mod Contracts
pub mod Utilities
pub mod Scenario
pub mod Setup
pub mod Events
pub mod Ownership
