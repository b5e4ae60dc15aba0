-- ===== src/Helpers/Coherence.antt =====
-- The data of a reserve that test-suites/helpers/utils/helpers.ts puts together fits.
use rasa_lending_platform_sm.Prelude.{ℕ, String, ◌+◌, ◌≡◌, refl}
use rasa_lending_platform_sm.Prelude.Int.{pos, +ℤ-pos, eqb_pos, leb_pos}
use rasa_lending_platform_sm.Prelude.Result.{ok}
use rasa_lending_platform_sm.Calculations.Snapshot.{Reserve, fetched_reserve}
use rasa_lending_platform_sm.Calculations.Rates.Usage.{
  usage, usage_order, ratio-pos, calc_expected_usage_ratios-pos,
}
use rasa_lending_platform_sm.Calculations.Actions.Frame.{IsCoherent}
use rasa_lending_platform_sm.Helpers.{ReserveAnswers, fetched_ratio, get_reserve_data}

-- The snapshot that the answers make.
abbrev pub answered : String → ReserveAnswers → Reserve
answered reserve a = record {
  address = reserve;
  symbol = a.symbol;
  decimals = a.decimals;
  reserve_factor = a.reserve_factor;
  available = a.balance;
  total = a.balance + a.unbacked;
  stable = a.total_stable_debt;
  variable = a.total_variable_debt;
  principal = a.principal_stable_debt;
  scaled = a.scaled_total_supply;
  average_rate = a.average_stable_borrow_rate;
  variable_rate = a.variable_borrow_rate;
  stable_rate = a.stable_borrow_rate;
  supply_ratio = usage (a.total_stable_debt + a.total_variable_debt) (a.balance + a.unbacked);
  borrow_ratio = usage (a.total_stable_debt + a.total_variable_debt) a.balance;
  index = a.liquidity_index;
  debt_index = a.variable_borrow_index;
  rs_token = a.rs_token_address;
  market_rate = a.base_stable_borrow_rate;
  updated = a.last_update_timestamp;
  stable_updated = a.total_supply_last_updated;
  income_rate = a.liquidity_rate;
  unbacked = a.unbacked;
  accrued = a.accrued_to_treasury_scaled;
}

answered-IsCoherent :
    (reserve : String) (a : ReserveAnswers) → IsCoherent (fetched_reserve (answered reserve a))
answered-IsCoherent reserve a =
    let fits = +ℤ-pos a.balance a.unbacked in
    record {
      available = pos a.balance;
      unbacked = pos a.unbacked;
      stable = pos a.total_stable_debt;
      variable = pos a.total_variable_debt;
      ratios = (
        pos (usage (a.total_stable_debt + a.total_variable_debt) a.balance),
        pos (usage (a.total_stable_debt + a.total_variable_debt) (a.balance + a.unbacked)),
      );
      available_eq = refl;
      unbacked_eq = refl;
      total_eq = rw fits;
      stable_eq = refl;
      variable_eq = refl;
      ratios_eq = rw fits (
          calc_expected_usage_ratios-pos a.total_stable_debt a.total_variable_debt a.balance
            a.unbacked);
      borrow_eq = refl;
      supply_eq = refl;
    }

fetched_ratio-pos :
    (debt liquidity : ℕ)
    → fetched_ratio (pos debt) (pos liquidity) ≡ ok (pos (usage debt liquidity))
unfolding fetched_ratio
fetched_ratio-pos debt liquidity =
    rw (+ℤ-pos liquidity debt, eqb_pos debt, ratio-pos debt liquidity)

-- Whatever the contracts answer, the data of a reserve is put together without a throw: its assertion
-- on the usage ratios holds. Each field that the interface names is there, and the data is coherent: its
-- total liquidity is the available liquidity plus the unbacked amount, and its usage ratios are those
-- of its own debts and liquidity.
pub get_reserve_data-IsCoherent :
    (reserve : String) (a : ReserveAnswers)
    → (r : Reserve) × (get_reserve_data reserve a ≡ ok (fetched_reserve r))
      × IsCoherent (fetched_reserve r)
unfolding get_reserve_data
get_reserve_data-IsCoherent reserve a =
    let debt : ℕ = a.total_stable_debt + a.total_variable_debt in
    let (order, _) = usage_order debt a.balance a.unbacked in
    (
      answered reserve a,
      rw (
        +ℤ-pos a.balance a.unbacked,
        +ℤ-pos a.total_stable_debt a.total_variable_debt,
        fetched_ratio-pos debt a.balance,
        fetched_ratio-pos debt (a.balance + a.unbacked),
        leb_pos _ _ order,
      ),
      answered-IsCoherent reserve a,
    )
