-- ===== src/Checks/Samples/Examples.antt =====
-- Two samples of a run, one with a text.
use power_electronics_ai_sim.Base.{
  ℕ, zero, suc, String, ◌≡◌, ◌≢◌, ◌↔◌, true, Option, none, some, List, [], ◌∷◌, All, map,
}
use power_electronics_ai_sim.Number.Scaled.{ℤ, pos, negsuc, scaled}
use power_electronics_ai_sim.Contracts.{Payload, real, natural, negative, text, Mapping}
use power_electronics_ai_sim.Checks.Samples.{row, no_mapping, qualify_samples, check_samples}
use power_electronics_ai_sim.Checks.Samples.Soundness.{
  IsUsable, check_samples_iff, qualify_samples-check_samples,
}

abbrev number : Payload ℤ → Option ℤ
number (real v) = some v
number (natural n) = some (pos n)
number (negative n) = some (negsuc n)
number p = none

-- Enough for the indices below.
abbrev decimal : ℕ → String
decimal zero = "0"
decimal (suc zero) = "1"
decimal (suc (suc n)) = "2"

abbrev samples : List (Mapping (Payload ℤ))
samples = (("vout", real (pos 5)) ∷ ("step", natural 0) ∷ []) ∷ (("state", text "normal") ∷ []) ∷ []

check_samples_iff_example :
    ((check_samples scaled number decimal (no_mapping ∷ map row samples)).passed ≡ true) ↔ (
      (no_mapping ∷ map row samples ≢ [])
      × All (IsUsable scaled number decimal) (no_mapping ∷ map row samples))
check_samples_iff_example = check_samples_iff scaled number decimal (no_mapping ∷ map row samples)

qualify_samples-check_samples_example :
    (qualify_samples scaled number decimal samples).0
    ≡ (check_samples scaled number decimal (map row samples)).passed
qualify_samples-check_samples_example = qualify_samples-check_samples scaled number decimal samples
