-- ===== src/Calculations/Examples/Market.antt =====
-- A concrete reserve, its listing and a position, for test-suites/helpers/utils/calculations.ts.
use rasa_lending_platform_sm.Prelude.{◌*◌, ◌^◌, ◌≡◌, refl, true, some, none, [], ◌∷◌, arith}
use rasa_lending_platform_sm.Prelude.Int.{pos}
use rasa_lending_platform_sm.Types.{SymbolMap, ReserveParams}
use rasa_lending_platform_sm.Calculations.Snapshot.{Reserve, Position}
use rasa_lending_platform_sm.Calculations.Rates.{find_params}
use rasa_lending_platform_sm.Calculations.Rates.Strategy.{Strategy, to_params, IsSound}
use rasa_lending_platform_sm.Calculations.Rates.Total.{Listing}
use rasa_lending_platform_sm.Calculations.State.Accrual.{IsCurrent}

-- A strategy like `rateStrategyStableOne`: 90% optimal usage, slopes of 4% and 60%.
abbrev pub stable_one : Strategy
stable_one = record {
  name = "rateStrategyStableOne";
  optimal = 9 * 10 ^ 26;
  base = 0;
  variable_slope1 = 4 * 10 ^ 25;
  variable_slope2 = 6 * 10 ^ 26;
  stable_slope1 = 5 * 10 ^ 24;
  stable_slope2 = 6 * 10 ^ 26;
  base_offset = 10 ^ 25;
  excess_offset = 8 * 10 ^ 25;
  optimal_stable = 2 * 10 ^ 26;
}

pub stable_one-IsSound : IsSound stable_one
stable_one-IsSound = record {
  optimal_low = omega arith;
  optimal_high = omega arith;
  stable_high = omega arith;
}

abbrev pub dai_params : ReserveParams
dai_params = record {
  borrow = record {
    borrowing_enabled = true;
    stable_borrow_rate_enabled = true;
    reserve_decimals = pos 18;
    borrow_cap = pos 0;
    debt_ceiling = pos 0;
    borrowable_isolation = true;
    flash_loan_enabled = true;
  };
  collateral = record {
    base_ltv_as_collateral = pos 7500;
    liquidation_threshold = pos 8000;
    liquidation_bonus = pos 10500;
    liquidation_protocol_fee = none;
  };
  rs_token_impl = "RSToken";
  reserve_factor = pos 1000;
  supply_cap = pos 0;
  strategy = to_params stable_one;
}

abbrev pub listed : SymbolMap ReserveParams
listed = ("DAI", dai_params) ∷ []

pub dai_found : find_params "DAI" listed ≡ some dai_params
unfolding find_params
dai_found = refl

abbrev pub dai_listing : Listing listed "DAI"
dai_listing = record {
  params = dai_params;
  strategy = stable_one;
  factor = 1000;
  found = dai_found;
  strategy_eq = refl;
  factor_eq = refl;
  sound = stable_one-IsSound;
  factor_le = omega arith;
}

-- 5,000 available, 3,000 of variable and 1,000 of stable debt, at the time 100.
abbrev pub dai : Reserve
dai = record {
  address = "0xdai";
  symbol = "DAI";
  decimals = 18;
  reserve_factor = 1000;
  available = 5000 * 10 ^ 18;
  total = 5000 * 10 ^ 18;
  stable = 1000 * 10 ^ 18;
  variable = 3000 * 10 ^ 18;
  principal = 1000 * 10 ^ 18;
  scaled = 2900 * 10 ^ 18;
  average_rate = 5 * 10 ^ 25;
  variable_rate = 3 * 10 ^ 25;
  stable_rate = 5 * 10 ^ 25;
  supply_ratio = 4 * 10 ^ 26;
  borrow_ratio = 4 * 10 ^ 26;
  index = 101 * 10 ^ 25;
  debt_index = 103 * 10 ^ 25;
  rs_token = "0xrsdai";
  market_rate = 5 * 10 ^ 25;
  updated = 100;
  stable_updated = 90;
  income_rate = 10 ^ 25;
  unbacked = 0;
  accrued = 7;
}

pub dai-IsCurrent : IsCurrent dai 400
dai-IsCurrent = record {
  updated_le = omega arith;
  stable_updated_le = omega arith;
  index_ge = omega arith;
  debt_index_ge = omega arith;
}

abbrev pub holder : Position
holder = record {
  scaled = 200 * 10 ^ 18;
  balance = 202 * 10 ^ 18;
  stable_debt = 50 * 10 ^ 18;
  variable_debt = 30 * 10 ^ 18;
  principal = 50 * 10 ^ 18;
  scaled_debt = 29 * 10 ^ 18;
  income_rate = 10 ^ 25;
  rate = 5 * 10 ^ 25;
  rate_updated = 90;
  collateral = true;
  wallet = 40 * 10 ^ 18;
}
