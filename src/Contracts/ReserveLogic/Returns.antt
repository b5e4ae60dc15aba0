-- ===== src/Contracts/ReserveLogic/Returns.antt =====
-- `cache` and `updateState` of contracts/protocol/libraries/logic/ReserveLogic.sol return.
use rasa_lending_platform_sm.Prelude.{
  ℕ, ◌+◌, ◌-◌, ◌*◌, ◌/◌, ◌^◌, ◌≤◌, ◌<◌, ◌≡◌, refl, false, some, arith, ◌==◌, Bool-cases, inl, inr,
}
use rasa_lending_platform_sm.WadRayMath.{ray, percentage_factor}
use rasa_lending_platform_sm.WadRayMath.Order.{multiplied}
use rasa_lending_platform_sm.Calculations.Interest.{one_year}
use rasa_lending_platform_sm.Calculations.Interest.Closed.{
  binomial_interest, binomial_interest_mono,
}
use rasa_lending_platform_sm.Calculations.Interest.Growth.{grow, ray-le-binomial_interest}
use rasa_lending_platform_sm.Contracts.ReserveLogic.{
  StoredReserve, ReserveCache, StableDebtToken, calc_total_supply, get_supply_data, cache_with,
  cached, grown_liquidity_index, grown_variable_borrow_index, store_index, update_indexes,
  updated_state,
}
use rasa_lending_platform_sm.Contracts.ReserveLogic.Parts.{IsStored, supply_of}
use rasa_lending_platform_sm.Contracts.ReserveLogic.Room.{
  ray_mul-multiplied, multiplied_mono, to_uint128-fits, compounded-fits, linear-fits,
  accrue_to_treasury-fits,
}

-- The indexes by now, and the debts by them.
abbrev index_by : StoredReserve → ℕ → ℕ
index_by reserve now =
    multiplied
      (reserve.current_liquidity_rate * (now - reserve.last_update_timestamp) / one_year + ray)
      reserve.liquidity_index

abbrev borrow_index_by : StoredReserve → ℕ → ℕ
borrow_index_by reserve now =
    multiplied
      (binomial_interest reserve.current_variable_borrow_rate (now - reserve.last_update_timestamp))
      reserve.variable_borrow_index

abbrev stable_by : StableDebtToken → ℕ → ℕ
stable_by token time =
    multiplied token.principal_supply
      (binomial_interest token.avg_stable_rate (time - token.total_supply_timestamp))

-- The numbers have room: the indexes by now fit their type, the debts by now are below 2^120, and the
-- treasury below 2^127. The liquidity index is at least a ray, the reserve factor at most 100%.
pub record HasRoom (reserve : StoredReserve) (token : StableDebtToken) (scaled now : ℕ)
    : Type 0 where
  pub index_ge : ray ≤ reserve.liquidity_index
  pub index_lt : index_by reserve now < 2 ^ 128
  pub borrow_index_lt : borrow_index_by reserve now < 2 ^ 128
  pub variable_lt : multiplied scaled (borrow_index_by reserve now) < 2 ^ 120
  pub stable_lt : stable_by token now < 2 ^ 120
  pub accrued_lt : reserve.accrued_to_treasury < 2 ^ 127
  pub factor_le : reserve.reserve_factor ≤ percentage_factor

nothing_multiplied : (b : ℕ) → multiplied 0 b ≡ 0
nothing_multiplied b = omega arith

total_supply-returns :
    (token : StableDebtToken) (last now : ℕ)
    → token.avg_stable_rate < 2 ^ 128
    → now < 2 ^ 40
    → token.total_supply_timestamp ≤ last
    → last ≤ now
    → stable_by token now < 2 ^ 120
    → (total : ℕ) × (calc_total_supply token now ≡ some total)
      × (total < 2 ^ 120)
      × (stable_by token last ≤ total)
unfolding calc_total_supply
total_supply-returns token last now p q le later room =
    elim (Bool-cases (token.principal_supply == 0)) [
      | inl none_owed ↦
          let zero_principal : token.principal_supply ≡ 0 = ground arith in
          (0, rw none_owed refl, omega arith, rw zero_principal (omega arith))
      | inr owed ↦ (
        stable_by token now,
        rw
            (
              owed,
              compounded-fits token.avg_stable_rate token.total_supply_timestamp now p q
                  (omega arith),
            )
            (ray_mul-multiplied token.principal_supply _ (omega arith)),
        room,
        multiplied_mono token.principal_supply _ _ (
            binomial_interest_mono token.avg_stable_rate (last - token.total_supply_timestamp)
              (now - token.total_supply_timestamp) (omega arith)),
      )
    ]

module _ (reserve : StoredReserve) (token : StableDebtToken) (scaled now : ℕ)
    (b : IsStored reserve token now) (room : HasRoom reserve token scaled now) where
  abbrev cache_by : ℕ → ReserveCache
  cache_by total = cache_with reserve scaled (supply_of token total)

  liquidity_index-returns :
      (total : ℕ)
      → (n : ℕ) × (grown_liquidity_index (cache_by total) now ≡ some n)
        × (store_index (reserve.current_liquidity_rate == 0) reserve.liquidity_index n ≡ some n)
        × (reserve.liquidity_index ≤ n)
        × (n < 2 ^ 128)
  unfolding grown_liquidity_index store_index cache_with
  liquidity_index-returns total = elim (Bool-cases (reserve.current_liquidity_rate == 0)) [
    | inl idle ↦ (reserve.liquidity_index, rw idle refl, rw idle refl, omega arith, b.index_fits)
    | inr earning ↦ (
      index_by reserve now,
      rw
          (
            earning,
            linear-fits reserve.current_liquidity_rate reserve.last_update_timestamp now
                b.liquidity_rate_fits b.now_fits (omega (arith, b.updated_before)),
          )
          (ray_mul-multiplied _ reserve.liquidity_index (omega (arith, room.index_lt))),
      rw earning (to_uint128-fits (index_by reserve now) room.index_lt),
      grow _ reserve.liquidity_index (omega arith),
      room.index_lt,
    )
  ]

  borrow_index-returns :
      (total : ℕ)
      → (n : ℕ) × (grown_variable_borrow_index (cache_by total) now ≡ some n)
        × (store_index (scaled == 0) reserve.variable_borrow_index n ≡ some n)
        × (reserve.variable_borrow_index ≤ n)
        × (n ≤ borrow_index_by reserve now)
  unfolding grown_variable_borrow_index store_index cache_with
  borrow_index-returns total =
      let grown = grow _ reserve.variable_borrow_index (
        ray-le-binomial_interest reserve.current_variable_borrow_rate
          (now - reserve.last_update_timestamp)) in
      elim (Bool-cases (scaled == 0)) [
        | inl idle ↦ (reserve.variable_borrow_index, rw idle refl, rw idle refl, omega arith, grown)
        | inr owed ↦ (
          borrow_index_by reserve now,
          rw
              (
                owed,
                compounded-fits reserve.current_variable_borrow_rate reserve.last_update_timestamp
                    now b.variable_rate_fits b.now_fits (omega (arith, b.updated_before)),
              )
              (ray_mul-multiplied _ reserve.variable_borrow_index
                (omega (arith, room.borrow_index_lt))),
          rw owed (to_uint128-fits (borrow_index_by reserve now) room.borrow_index_lt),
          grown,
          omega arith,
        )
      ]

  -- `cache` and `updateState` do not revert on a reserve with room to grow: its stored numbers fit their
  -- types, the last update was before now and that of the stable debt no later; the liquidity index is
  -- at least a ray and the reserve factor at most 100%; grown until now, the indexes fit their types and
  -- the debts are below 2^120; and the treasury is below 2^127.
  pub updated_state-returns :
      (cache : ReserveCache) × (after : StoredReserve × ReserveCache) × (cached reserve scaled token
          now
        ≡ some cache)
      × (updated_state reserve cache now ≡ some after)
  unfolding cached get_supply_data updated_state update_indexes cache_with
  updated_state-returns =
      let (total, supply, total_lt, total_ge) =
        total_supply-returns token reserve.last_update_timestamp now b.stable_rate_fits b.now_fits
          b.stable_updated_le (omega (arith, b.updated_before)) room.stable_lt in
      let (n, grows, stores, n_ge, n_lt) = liquidity_index-returns total in
      let (m, borrow_grows, borrow_stores, m_ge, m_le) = borrow_index-returns total in
      let different : (reserve.last_update_timestamp == now) ≡ false =
        ground (arith, b.updated_before) in
      let next : ReserveCache = record (cache_by total) {
        next_liquidity_index = n;
        next_variable_borrow_index = m;
      } in
      let (accrued, accrues) =
        accrue_to_treasury-fits reserve.accrued_to_treasury next room.accrued_lt (record {
          rate_lt = b.stable_rate_fits;
          time_lt = omega (arith, b.updated_before, b.now_fits);
          stable_before = b.stable_updated_le;
          index_ge = omega (arith, room.index_ge);
          index_lt = n_lt;
          borrow_index_le = m_ge;
          variable_lt = omega (
            arith,
            room.variable_lt,
            multiplied_mono scaled m (borrow_index_by reserve now) m_le,
          );
          stable_lt = total_lt;
          stable_le = total_ge;
          factor_le = room.factor_le;
        }) in
      (
        cache_by total,
        (
          record reserve {
            liquidity_index = n;
            variable_borrow_index = m;
            accrued_to_treasury = accrued;
            last_update_timestamp = now;
          },
          next,
        ),
        rw supply refl,
        rw (different, grows, stores, borrow_grows, borrow_stores, accrues) refl,
      )
