-- ===== src/Checks/Observations/Examples.antt =====
-- An output voltage of 5 in a range of 0 to 9, of the current time.
use power_electronics_ai_sim.Base.{
  ◌≡◌, ◌↔◌, refl, true, Option, some, none, [], ◌∷◌, ok, if◌then◌else◌,
}
use power_electronics_ai_sim.Number.Scaled.{ℤ, pos, negsuc, scaled}
use power_electronics_ai_sim.Contracts.{Payload, real, natural, negative, flag, Mapping}
use power_electronics_ai_sim.Checks.Observations.{
  Whole, whole, below, ObservationValidityPlugin, Observation, CheckContext, check_observation,
}
use power_electronics_ai_sim.Checks.Observations.Construction.{observation_validity_plugin}
use power_electronics_ai_sim.Checks.Observations.Validity.{IsValid, check_observation-IsValid}

abbrev as_float : Payload ℤ → Option ℤ
as_float (real v) = some v
as_float (natural n) = some (pos n)
as_float (negative n) = some (negsuc n)
as_float (flag b) = some (if b then pos 1 else pos 0)
as_float p = none

abbrev as_int : Payload ℤ → Option Whole
as_int (natural n) = some (whole n)
as_int (negative n) = some (below n)
as_int p = none

abbrev plugin : ObservationValidityPlugin scaled
plugin = record {
  required_measurements = "vout" ∷ [];
  max_age_steps = some 0;
  expected_units = ("vout", "V") ∷ [];
  ranges = ("vout", record { minimum = some (pos 0); maximum = some (pos 9) }) ∷ [];
  plugin_id = "observation-validity";
  rule_version = "observation-validity-v1";
}

accepted :
    observation_validity_plugin scaled as_int
      (some (natural 0))
      (record plugin { max_age_steps = none })
    ≡ ok plugin
unfolding observation_validity_plugin
accepted = refl

abbrev measured : Mapping (Payload ℤ)
measured = ("vout", real (pos 5)) ∷ []

abbrev observation : Observation scaled
observation = record {
  measurement = some measured;
  time_s = some (real (pos 7));
  age_steps = none;
  measurement_units = some (("vout", "V") ∷ []);
}

abbrev context : CheckContext scaled
context = record { previous_observation_time_s = some (pos 6); current_time_s = some (pos 7) }

passes : (check_observation scaled as_float as_int (pos 0) plugin observation context).passed ≡ true
unfolding check_observation
passes = refl

check_observation-IsValid_example :
    ((check_observation scaled as_float as_int (pos 0) plugin observation context).passed ≡ true)
    ↔ ((m : Mapping (Payload ℤ)) × (some measured ≡ some m)
        × IsValid scaled as_float as_int (pos 0) plugin observation context m)
check_observation-IsValid_example =
    check_observation-IsValid scaled as_float as_int (pos 0) plugin observation context
