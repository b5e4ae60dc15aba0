-- ===== src/Contracts/WadRayMath.antt =====
-- contracts/protocol/libraries/math/WadRayMath.sol and PercentageMath.sol, in the Yul that they are
-- written in: words wrap at 2 ^ 256, division by zero is zero, and `none` is a revert.
pub mod Agreement
use rasa_lending_platform_sm.Prelude.{
  ℕ, ◌+◌, ◌-◌, ◌*◌, ◌/◌, ◌%◌, ◌^◌, Bool, not, ◌||◌, Option, none, some, ltb, ◌==◌, if◌then◌else◌,
}
use rasa_lending_platform_sm.WadRayMath.{
  ray, half_ray, wad, half_wad, wad_ray_ratio, percentage_factor, half_percentage,
}

abbrev pub word : ℕ
word = 2 ^ 256

-- `not(0)`.
abbrev pub max_word : ℕ
max_word = 2 ^ 256 - 1

unfoldable pub wad_mul : ℕ → ℕ → Option ℕ
wad_mul a b =
    if not (b == 0 || not (ltb ((max_word - half_wad) / b) a))
    then none
    else some ((a * b % word + half_wad) % word / wad)

unfoldable pub wad_div : ℕ → ℕ → Option ℕ
wad_div a b =
    if b == 0 || ltb ((max_word - b / 2) / wad) a
    then none
    else some ((a * wad % word + b / 2) % word / b)

unfoldable pub ray_mul : ℕ → ℕ → Option ℕ
ray_mul a b =
    if not (b == 0 || not (ltb ((max_word - half_ray) / b) a))
    then none
    else some ((a * b % word + half_ray) % word / ray)

unfoldable pub ray_div : ℕ → ℕ → Option ℕ
ray_div a b =
    if b == 0 || ltb ((max_word - b / 2) / ray) a
    then none
    else some ((a * ray % word + b / 2) % word / b)

unfoldable pub ray_to_wad : ℕ → ℕ
ray_to_wad a =
    let b = a / wad_ray_ratio in
    if not (ltb (a % wad_ray_ratio) (wad_ray_ratio / 2)) then (b + 1) % word else b

unfoldable pub wad_to_ray : ℕ → Option ℕ
wad_to_ray a =
    let b = a * wad_ray_ratio % word in if not (b / wad_ray_ratio == a) then none else some b

unfoldable pub percent_mul : ℕ → ℕ → Option ℕ
percent_mul value percentage =
    if not (percentage == 0 || not (ltb ((max_word - half_percentage) / percentage) value))
    then none
    else some ((value * percentage % word + half_percentage) % word / percentage_factor)

unfoldable pub percent_div : ℕ → ℕ → Option ℕ
percent_div value percentage =
    if percentage == 0 || ltb ((max_word - percentage / 2) / percentage_factor) value
    then none
    else some ((value * percentage_factor % word + percentage / 2) % word / percentage)
