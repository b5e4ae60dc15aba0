-- ===== src/WadRayMath/Examples.antt =====
-- The theorems on test-suites/helpers/utils/wadraymath.ts at concrete numbers.
use rasa_lending_platform_sm.Prelude.{◌*◌, ◌^◌, ◌≡◌, arith}
use rasa_lending_platform_sm.Prelude.Int.{pos}
use rasa_lending_platform_sm.Prelude.Result.{ok}
use rasa_lending_platform_sm.WadRayMath.{ray_mul, ray_div}
use rasa_lending_platform_sm.WadRayMath.RoundTrip.{ray_div-ray_mul}

ray_div-ray_mul_example :
    ray_div (ray_mul (pos (2900 * 10 ^ 18)) (pos (103 * 10 ^ 25))) (pos (103 * 10 ^ 25))
    ≡ ok (pos (2900 * 10 ^ 18))
ray_div-ray_mul_example = ray_div-ray_mul (2900 * 10 ^ 18) (103 * 10 ^ 25) (omega arith)
