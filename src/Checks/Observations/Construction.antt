-- ===== src/Checks/Observations/Construction.antt =====
-- The construction of an `ObservationValidityPlugin`, src/pe_sim/checks.py: `__post_init__`.
use power_electronics_ai_sim.Base.{
  ℕ, Bool, true, false, not, Option, none, some, [], ◌∷◌, Result, ok, err, ◌>>=◌, ◌>>◌, raise_if,
}
use power_electronics_ai_sim.Number.{Number}
use power_electronics_ai_sim.Contracts.{Payload, flag, Mapping}
use power_electronics_ai_sim.Checks.Observations.{
  Whole, whole, below, Range, ObservationValidityPlugin,
}

pub data PluginError : Type 0 where
  max_age_invalid bound_not_finite range_not_ordered : PluginError

module _ (num : Number) where
  open num use {Value, is_finite, lt}

  checked_age :
      (Payload Value → Option Whole) → Option (Payload Value) → Result PluginError (Option ℕ)
  checked_age as_int none = ok none
  checked_age as_int (some (flag b)) = err max_age_invalid
  checked_age as_int (some p) = elim (as_int p) [
    | none ↦ err max_age_invalid
    | some (whole n) ↦ ok (some n)
    | some (below n) ↦ err max_age_invalid
  ]

  abbrev finite_bound : Option Value → Bool
  finite_bound none = true
  finite_bound (some v) = is_finite v

  abbrev unordered : Option Value → Option Value → Bool
  unordered (some low) (some high) = lt high low
  unordered low high = false

  check_ranges : Mapping (Range num) → Result PluginError (Unit {0})
  check_ranges [] = ok tt
  check_ranges ((key, r) ∷ rest) = do
    raise_if (not (finite_bound r.minimum)) bound_not_finite
    raise_if (not (finite_bound r.maximum)) bound_not_finite
    raise_if (unordered r.minimum r.maximum) range_not_ordered
    check_ranges rest

  -- `ObservationValidityPlugin.__post_init__`, of a plugin and its age limit as it was given
  unfoldable pub observation_validity_plugin :
      (Payload Value → Option Whole)
      → Option (Payload Value)
      → ObservationValidityPlugin num
      → Result PluginError (ObservationValidityPlugin num)
  unfolding checked_age check_ranges
  observation_validity_plugin as_int age p = do
    max_age_steps ← checked_age as_int age
    check_ranges p.ranges
    ok (record p { max_age_steps = max_age_steps })
