-- ===== src/Calculations/State/Settlement.antt =====
-- The last steps of an action in test-suites/helpers/utils/calculations.ts, on a fetched reserve and
-- a draft of the reserve after the action.
use rasa_lending_platform_sm.Prelude.{ℕ, ◌+◌, ◌-◌, ◌≤◌, ◌≡◌, some}
use rasa_lending_platform_sm.Prelude.Int.{pos, +ℤ-pos, -ℤ-pos}
use rasa_lending_platform_sm.Prelude.Result.{ok}
use rasa_lending_platform_sm.Types.{SymbolMap, ReserveParams}
use rasa_lending_platform_sm.Calculations.Data.{ReserveData}
use rasa_lending_platform_sm.Calculations.Snapshot.{Reserve, fetched_reserve}
use rasa_lending_platform_sm.Calculations.Rates.{
  calc_expected_overall_borrow_rate, calc_expected_interest_rates,
}
use rasa_lending_platform_sm.Calculations.Rates.Usage.{usage, calc_expected_usage_ratios-pos}
use rasa_lending_platform_sm.Calculations.Rates.Total.{Listing, calc_expected_interest_rates_total}
use rasa_lending_platform_sm.Calculations.State.{
  set_usage_ratios, update_liquidity_and_usage_ratios, update_total_liquidity_and_usage_ratio,
  set_rates, finish_reserve,
}

-- A draft with known debts, average rate and liquidity.
pub record Amounts : Type 0 where
  pub stable : ℕ
  pub variable : ℕ
  pub average : ℕ
  pub available : ℕ
  pub unbacked : ℕ

abbrev pub indebted : ReserveData → Amounts → ReserveData
indebted x m = record x {
  total_stable_debt = some (pos m.stable);
  total_variable_debt = some (pos m.variable);
  unbacked = some (pos m.unbacked);
}

abbrev pub liquid : ReserveData → Amounts → ReserveData
liquid x m = record (indebted x m) {
  available_liquidity = some (pos m.available);
  total_liquidity = some (pos (m.available + m.unbacked));
}

abbrev pub drafted : ReserveData → Amounts → ReserveData
drafted x m = record (liquid x m) { average_stable_borrow_rate = some (pos m.average) }

-- The draft with the usage ratios of its amounts.
abbrev pub with_usage : ReserveData → Amounts → ReserveData
with_usage x m = record x {
  borrow_usage_ratio = some (pos (usage (m.stable + m.variable) m.available));
  supply_usage_ratio = some (pos (usage (m.stable + m.variable) (m.available + m.unbacked)));
}

abbrev pub with_rates : ReserveData → ℕ → ℕ → ℕ → ReserveData
with_rates x liquidity stable variable = record x {
  liquidity_rate = some (pos liquidity);
  stable_borrow_rate = some (pos stable);
  variable_borrow_rate = some (pos variable);
}

pub set_usage_ratios-liquid :
    (x : ReserveData) (m : Amounts) → set_usage_ratios (liquid x m) ≡ ok (with_usage (liquid x m) m)
unfolding set_usage_ratios
set_usage_ratios-liquid x m =
    rw (calc_expected_usage_ratios-pos m.stable m.variable m.available m.unbacked)

pub update_total-liquid :
    (x : ReserveData) (m : Amounts)
    → update_total_liquidity_and_usage_ratio (liquid x m) ≡ ok (with_usage (liquid x m) m)
unfolding update_total_liquidity_and_usage_ratio
update_total-liquid x m = rw (+ℤ-pos m.available m.unbacked) (set_usage_ratios-liquid x m)

-- The rates after an action: those that `calcExpectedInterestRates` gives for the amounts, and their
-- bounds.
pub record AreRates (reserves_params : SymbolMap ReserveParams) (r : Reserve)
    (l : Listing reserves_params r.symbol) (m : Amounts) (liquidity stable variable : ℕ)
    : Type 0 where
  pub rates_eq :
      calc_expected_interest_rates reserves_params r.symbol
        (pos r.market_rate)
        (pos m.stable)
        (pos m.variable)
        (pos m.average)
        (pos m.available)
        (pos (m.available + m.unbacked))
      ≡ ok (pos liquidity, pos stable, pos variable)
  pub base_le : l.strategy.base ≤ variable
  pub variable_le :
      variable ≤ l.strategy.base + l.strategy.variable_slope1 + l.strategy.variable_slope2 + 1
  pub market_le : r.market_rate ≤ stable
  pub paid : ℕ
  pub paid_eq :
      calc_expected_overall_borrow_rate
        (pos m.stable)
        (pos m.variable)
        (pos variable)
        (pos m.average)
      ≡ ok (pos paid)
  pub liquidity_le : liquidity ≤ paid

module _ (reserves_params : SymbolMap ReserveParams) (r : Reserve)
    (l : Listing reserves_params r.symbol) where
  -- The rates for debts `s` and `v` against the liquidity of the draft.
  pub set_rates-drafted :
      (x : ReserveData) (m : Amounts) (s v : ℕ)
      → (liquidity stable variable : ℕ) × (set_rates reserves_params
            (fetched_reserve r)
            (pos s)
            (pos v)
            (drafted x m)
          ≡ ok (with_rates (drafted x m) liquidity stable variable))
        × AreRates reserves_params r l
            (record m { stable = s; variable = v })
            liquidity
            stable
            variable
  unfolding set_rates
  set_rates-drafted x m s v =
      let (
        liquidity, stable, variable, paid, rates, paid_eq, base_le, variable_le, market_le, earned,
      ) =
        calc_expected_interest_rates_total reserves_params r.symbol l r.market_rate s v m.average
          m.available m.unbacked in
      (
        liquidity,
        stable,
        variable,
        rw rates,
        record {
          rates_eq = rates;
          base_le = base_le;
          variable_le = variable_le;
          market_le = market_le;
          paid = paid;
          paid_eq = paid_eq;
          liquidity_le = earned;
        },
      )

  pub finish_reserve-drafted :
      (x : ReserveData) (m : Amounts)
      → (liquidity stable variable : ℕ) × (finish_reserve reserves_params
            (fetched_reserve r)
            (drafted x m)
          ≡ ok (with_usage (with_rates (drafted x m) liquidity stable variable) m))
        × AreRates reserves_params r l m liquidity stable variable
  unfolding finish_reserve
  finish_reserve-drafted x m =
      let (liquidity, stable, variable, priced, rates) =
        set_rates-drafted x m m.stable m.variable in
      (
        liquidity,
        stable,
        variable,
        rw priced (update_total-liquid (with_rates (drafted x m) liquidity stable variable) m),
        rates,
      )

-- Liquidity is added, and then liquidity is taken out of what is there.
pub update_liquidity-indebted :
    (x : ReserveData) (r : Reserve) (m : Amounts) (added taken : ℕ)
    → taken ≤ r.available + added
    → m.available ≡ r.available + added - taken
    → update_liquidity_and_usage_ratios (fetched_reserve r) (indebted x m) (pos added) (pos taken)
      ≡ ok (with_usage (liquid x m) m)
unfolding update_liquidity_and_usage_ratios
update_liquidity-indebted x r m added taken le e =
    rw
      (
        +ℤ-pos r.available added,
        -ℤ-pos (r.available + added) taken le,
        ← e,
        +ℤ-pos m.available m.unbacked,
      )
      (set_usage_ratios-liquid x m)
