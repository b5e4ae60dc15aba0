-- ===== src/Scenario/Actions/Passing.antt =====
-- What it takes for an action of test-suites/helpers/actions.ts to pass: lemmas on the shared steps.
use text.Mathlib.Text.{◌==◌ as str_eq}
use rasa_lending_platform_sm.Prelude.{◌≡◌, refl, ◌↔◌, Bool, true, false, String, if◌then◌else◌}
use rasa_lending_platform_sm.Prelude.Result.{Result, ok, err, reverted, assertion_failed}
use rasa_lending_platform_sm.Calculations.Data.{ReserveData, UserReserveData}
use rasa_lending_platform_sm.Scenario.Chain.{
  Call, Receipt, Outcome, mined, refused, Chain, Run, pure, lift, continue, ◌>>=◌, ◌>>◌,
  continue-eq-ok,
}
use rasa_lending_platform_sm.Scenario.Compare.{compare_reserves, compare_users}
use rasa_lending_platform_sm.Scenario.Compare.Tolerance.{
  ReservesAgree, UsersAgree, compare_reserves_iff, compare_users_iff,
}
use rasa_lending_platform_sm.Scenario.Actions.{
  ContractsData, wait_for_tx, expect_reverted, expect_equal_reserve, expect_equal_user,
  expect_predicted, by_result,
}

module _ {S : Type 0} where
  -- A result that the code lifts leaves the state alone.
  pub lift-eq-ok :
      {A : Type 0} (r : Result A) (s : S) {a : A} {s' : S}
      → lift r s ≡ ok (a, s')
      → (r ≡ ok a) × (s ≡ s')
  lift-eq-ok (ok a) s h = (cc, cc)
  lift-eq-ok (err e) s h = cc

  -- Two checks in a row, neither of them skipped.
  two_checks :
      {P Q : Type 0} (skipped : Bool) (m k : Result (Unit {0})) (s s' : S)
      → skipped ≡ false
      → (m ≡ ok tt) ↔ P
      → (k ≡ ok tt) ↔ Q
      → ((((if skipped then pure tt else lift m) >> (if skipped then pure tt else lift k)) s)
          ≡ ok (tt, s'))
        ↔ ((s ≡ s') × (P × Q))
  two_checks true m k s s' h f g = cc
  two_checks false (err x) k s s' h f g = (λ e. cc, λ (q, (p, _)). cc (f.1 p))
  two_checks false (ok u) (err x) s s' h f g = (λ e. cc, λ (q, (_, p)). cc (g.1 p))
  two_checks false (ok u) (ok v) s s' h f g = (λ e. (cc, (f.0 refl, g.0 refl)), λ (q, p). cc)

module _ (c : Chain) where
  open c use {State, send, skip_integrity_check}

  -- Both predictions are defined, and the contracts agree with them.
  abbrev pub Predicted :
      ContractsData → Result ReserveData → (ReserveData → Result UserReserveData) → Type 0
  Predicted after predicted_reserve predicted_user =
      (r : ReserveData) × (u : UserReserveData) × (predicted_reserve ≡ ok r)
      × (predicted_user r ≡ ok u)
      × ReservesAgree after.reserve_data r
      × UsersAgree after.user_data u

  comparisons_iff :
      (after : ContractsData) (r : ReserveData) (u : UserReserveData) (s s' : State)
      → skip_integrity_check ≡ false
      → ((expect_equal_reserve c after.reserve_data r >> expect_equal_user c after.user_data u) s
          ≡ ok (tt, s'))
        ↔ ((s ≡ s') × (ReservesAgree after.reserve_data r × UsersAgree after.user_data u))
  unfolding expect_equal_reserve expect_equal_user
  comparisons_iff after r u s s' h =
      two_checks skip_integrity_check (compare_reserves after.reserve_data r)
        (compare_users after.user_data u) s s' h (compare_reserves_iff after.reserve_data r)
        (compare_users_iff after.user_data u)

  pub expect_predicted_iff :
      (after : ContractsData) (pr : Result ReserveData) (pu : ReserveData → Result UserReserveData)
      (s s' : State)
      → skip_integrity_check ≡ false
      → (expect_predicted c after pr pu s ≡ ok (tt, s')) ↔ ((s ≡ s') × Predicted after pr pu)
  unfolding expect_predicted
  expect_predicted_iff after (err e) pu s s' h = (λ e. cc, λ (p, (r, u, q, v, a, b)). cc)
  expect_predicted_iff after (ok r) pu s s' h = (
    λ e.
        let (u, t, lifted, checked) = continue-eq-ok _ (lift (pu r) s) e in
        let (predicted, same) = lift-eq-ok (pu r) s lifted in
        let (still, agreed) = (comparisons_iff after r u t s' h).0 checked in
        (cc, (r, u, refl, predicted, agreed.0, agreed.1)),
    λ (p, (r', u, q, v, a, b)).
        let same : r ≡ r' = cc in
        let v' : pu r ≡ ok u = cc in
        let checked = (comparisons_iff after r u s s' h).1 (p, (rw (same) a, b)) in rw (v') checked,
  )

  -- The transaction is mined, and `P` holds of its receipt and the state after it.
  abbrev pub Mined : String → Call → State → (Receipt → State → Type 0) → Type 0
  Mined sender call s P = (tx : Receipt) × (u : State) × (send s sender call ≡ mined tx u) × P tx u

  -- The transaction is refused, and this state comes after it.
  abbrev pub Refused : String → Call → State → State → Type 0
  Refused sender call s t = (reason : String) × (send s sender call ≡ refused reason t)

  pub mined_iff :
      (sender : String) (call : Call) (f : Receipt → Run State (Unit {0}))
      (P : Receipt → State → Type 0) (s t : State)
      → ((tx : Receipt) (u : State) → (f tx u ≡ ok (tt, t)) ↔ P tx u)
      → ((wait_for_tx c sender call >>= f) s ≡ ok (tt, t)) ↔ Mined sender call s P
  unfolding wait_for_tx
  mined_iff sender call f P s t h = after (send s sender call)
    where
      after :
          (outcome : Outcome State)
          → (continue f (elim outcome [
            | mined receipt s' ↦ ok (receipt, s')
            | refused reason s' ↦ err reverted
          ])
              ≡ ok (tt, t))
            ↔ ((tx : Receipt) × (u : State) × (outcome ≡ mined tx u) × P tx u)
      after (mined receipt s') = (
        λ e. (receipt, s', refl, (h receipt s').0 e),
        λ (tx, u, e, p).
            let first : receipt ≡ tx = cc in
            let second : s' ≡ u = cc in let last : f tx u ≡ ok (tt, t) = (h tx u).1 p in cc,
      )
      after (refused reason s') = (λ e. cc, λ (tx, u, e, p). cc)

  pub expect_reverted_iff :
      (sender : String) (call : Call) (s t : State)
      → (expect_reverted c sender call s ≡ ok (tt, t)) ↔ Refused sender call s t
  unfolding expect_reverted
  expect_reverted_iff sender call s t = after (send s sender call)
    where
      after :
          (outcome : Outcome State)
          → (elim outcome as (λ k. Result (Unit {0} × State)) [
            | mined receipt s' ↦ err assertion_failed
            | refused reason s' ↦ ok (tt, s')
          ]
              ≡ ok (tt, t))
            ↔ ((reason : String) × (outcome ≡ refused reason t))
      after (mined receipt s') = (λ e. cc, λ (reason, e). cc)
      after (refused reason s') = (λ e. (reason, cc), λ (reason', e). cc)

  -- What an expected result asks for: `P` of a success, `Q` of a revert, and no step of anything else.
  unfoldable pub Verdict : String → Type 0 → Type 0 → State → State → Type 0
  Verdict expected P Q s t =
      if str_eq expected "success" then P else if str_eq expected "revert" then Q else (s ≡ t)

  pub by_result_iff :
      (expected : String) (m k : Run State (Unit {0})) (P Q : Type 0) (s t : State)
      → ((m s ≡ ok (tt, t)) ↔ P)
      → ((k s ≡ ok (tt, t)) ↔ Q)
      → (by_result c expected m k s ≡ ok (tt, t)) ↔ Verdict expected P Q s t
  unfolding by_result Verdict
  by_result_iff expected m k P Q s t f g =
      branch (str_eq expected "success") (str_eq expected "revert")
    where
      branch :
          (p q : Bool)
          → (((if p then m else if q then k else pure tt) s) ≡ ok (tt, t))
            ↔ (if p then P else if q then Q else (s ≡ t))
      branch true q = f
      branch false true = g
      branch false false = (λ e. cc, λ e. cc)
