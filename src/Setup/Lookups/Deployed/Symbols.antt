-- ===== src/Setup/Lookups/Deployed/Symbols.antt =====
-- What helpers/market-config-helpers.ts finds for a symbol among the deployments.
use text.Mathlib.Text.{◌==◌ as str_eq}
use rasa_lending_platform_sm.Prelude.{◌&&◌, String, Option, some, [], ◌∷◌, if◌then◌else◌}
use rasa_lending_platform_sm.Setup.Lookups.Deployed.{Deployments, includes, without}

module _ {Artifact : Type 0} where
  -- The last deployment whose name holds the prefix and is the symbol without it, or else `found`.
  unfoldable pub latest : String → String → Deployments Artifact → Option String → Option String
  latest prefix symbol [] found = found
  latest prefix symbol ((key, deployment) ∷ rest) found = latest prefix symbol rest (
      if includes key prefix && str_eq (without key prefix) symbol
      then some (deployment.0)
      else found)
