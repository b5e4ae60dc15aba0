-- ===== src/WadRayMath.antt =====
-- The fixed-point arithmetic that test-suites/helpers/utils/wadraymath.ts adds to `BigNumber`, with
-- the constants of helpers/constants.ts. Division by a constant never throws; division by an
-- argument throws at zero.
pub mod Examples
pub mod Rounding
pub mod RoundTrip
pub mod Order
use rasa_lending_platform_sm.Prelude.{ℕ, ◌^◌, ◌/◌}
use rasa_lending_platform_sm.Prelude.Int.{ℤ, pos, negsuc, ◌+ℤ◌, ◌*ℤ◌, tdiv}
use rasa_lending_platform_sm.Prelude.Result.{Result, quotient}

abbrev pub wad : ℕ
wad = 10 ^ 18

abbrev pub half_wad : ℕ
half_wad = wad / 2

abbrev pub ray : ℕ
ray = 10 ^ 27

abbrev pub half_ray : ℕ
half_ray = ray / 2

abbrev pub wad_ray_ratio : ℕ
wad_ray_ratio = 10 ^ 9

abbrev pub percentage_factor : ℕ
percentage_factor = 10000

abbrev pub half_percentage : ℕ
half_percentage = 5000

unfoldable pub wad_mul : ℤ → ℤ → ℤ
wad_mul a b = tdiv (pos half_wad +ℤ a *ℤ b) (pos wad)

unfoldable pub wad_div : ℤ → ℤ → Result ℤ
wad_div a b = quotient (tdiv b (pos 2) +ℤ a *ℤ pos wad) b

unfoldable pub ray_mul : ℤ → ℤ → ℤ
ray_mul a b = tdiv (pos half_ray +ℤ a *ℤ b) (pos ray)

unfoldable pub ray_div : ℤ → ℤ → Result ℤ
ray_div a b = quotient (tdiv b (pos 2) +ℤ a *ℤ pos ray) b

unfoldable pub percent_mul : ℤ → ℤ → ℤ
percent_mul a bps = tdiv (pos half_percentage +ℤ a *ℤ bps) (pos percentage_factor)

unfoldable pub percent_div : ℤ → ℤ → Result ℤ
percent_div a bps = quotient (tdiv bps (pos 2) +ℤ a *ℤ pos percentage_factor) bps

unfoldable pub ray_to_wad : ℤ → ℤ
ray_to_wad a = tdiv (tdiv (pos wad_ray_ratio) (pos 2) +ℤ a) (pos wad_ray_ratio)

unfoldable pub wad_to_ray : ℤ → ℤ
wad_to_ray a = a *ℤ pos wad_ray_ratio

unfoldable pub negated : ℤ → ℤ
negated a = a *ℤ negsuc 0
