-- ===== src/Setup/Lookups/Assets.antt =====
-- The addresses that the lookups of helpers/market-config-helpers.ts return.
use text.Mathlib.Text.{◌==◌ as str_eq}
use rasa_lending_platform_sm.Prelude.{
  ◌≡◌, refl, Bool, true, false, String, Option, none, some, if◌then◌else◌,
}
use rasa_lending_platform_sm.Prelude.Result.{Result, ok, err, thrown}
use rasa_lending_platform_sm.Setup.{zero_address}
use rasa_lending_platform_sm.Setup.Lookups.{
  PoolConfiguration, get_param_per_network, entry_of, get_reserve_address,
}

-- A reserve's address that is returned stands in the configuration, and is neither empty nor zero.
get_reserve_address-configured :
    (config : PoolConfiguration) (network symbol address : String)
    → get_reserve_address config network symbol ≡ ok address
    → (entry_of (get_param_per_network config.reserve_assets network) symbol ≡ some address)
      × (str_eq address "" ≡ false)
      × (str_eq address zero_address ≡ false)
unfolding get_reserve_address
get_reserve_address-configured config network symbol address e =
    by_entry (entry_of (get_param_per_network config.reserve_assets network) symbol) e
  where
    by_tests :
        (a : String) (p q : Bool)
        → str_eq a "" ≡ p
        → str_eq a zero_address ≡ q
        → (if p
            then err (thrown "Missing asset address")
            else if q
            then err (thrown "Missing asset address")
            else ok a)
          ≡ ok address
        → (some a ≡ some address)
          × (str_eq address "" ≡ false)
          × (str_eq address zero_address ≡ false)
    by_tests a true q h k f = cc
    by_tests a false true h k f = cc
    by_tests a false false h k f = let same : a ≡ address = cc in (cc, cc, cc)

    by_entry :
        (o : Option String)
        → (elim o as (λ x. Result String) [
          | none ↦ err (thrown "Missing asset address")
          | some a ↦
              if str_eq a ""
              then err (thrown "Missing asset address")
              else if str_eq a zero_address
              then err (thrown "Missing asset address")
              else ok a
        ])
          ≡ ok address
        → (o ≡ some address) × (str_eq address "" ≡ false) × (str_eq address zero_address ≡ false)
    by_entry none f = cc
    by_entry (some a) f = by_tests a (str_eq a "") (str_eq a zero_address) refl refl f
