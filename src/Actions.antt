-- ===== src/Actions.antt =====
-- Action policies and the observation guard, src/pe_sim/safety.py: the finite and the bounded policy,
-- `project_action` and `check_observation`. Python's `float()` is the parameter `as_float`.
pub mod Projection
pub mod Guard
mod Examples
use power_electronics_ai_sim.Base.{
  String, Bool, true, false, not, ◌&&◌, ◌||◌, Option, none, some, List, [], ◌∷◌, if◌then◌else◌,
  Result, ok, err, ◌>>=◌, ◌>>◌, raise_if,
}
use power_electronics_ai_sim.Number.{Number, clamp}
use power_electronics_ai_sim.Contracts.{Payload, Mapping}

pub data PolicyError : Type 0 where
  not_a_number non_finite_action bounds_not_ordered unpaired_bounds : PolicyError
  measurement_not_mapping : PolicyError
  invalid_measurement non_finite_measurement : String → PolicyError

-- Why a bounded policy changed an action.
pub data Reason : Type 0 where
  lower upper : Reason

module _ (num : Number) where
  open num use {Value, is_finite, le, lt}

  pub record BoundedActionPolicy : Type 0 where
    pub minimum : Value
    pub maximum : Value

  abbrev float_of : (Payload Value → Option Value) → Payload Value → Result PolicyError Value
  float_of as_float p = elim (as_float p) [ none ↦ err not_a_number | some v ↦ ok v ]

  -- `FiniteActionPolicy.project`
  unfoldable pub project_finite :
      (Payload Value → Option Value) → Payload Value → Result PolicyError (Value × Option Reason)
  project_finite as_float p = do
    action ← float_of as_float p
    raise_if (not (is_finite action)) non_finite_action
    ok (action, none)

  -- `BoundedActionPolicy.__post_init__` on the converted bounds
  ordered_bounds : Value → Value → Result PolicyError BoundedActionPolicy
  ordered_bounds minimum maximum = do
    raise_if (not (is_finite minimum) || (not (is_finite maximum) || lt maximum minimum))
        bounds_not_ordered
    ok (record { minimum = minimum; maximum = maximum })

  -- `BoundedActionPolicy(minimum, maximum)`
  unfoldable pub bounded_action_policy :
      (Payload Value → Option Value)
      → Payload Value
      → Payload Value
      → Result PolicyError BoundedActionPolicy
  unfolding ordered_bounds
  bounded_action_policy as_float low high = do
    minimum ← float_of as_float low
    maximum ← float_of as_float high
    ordered_bounds minimum maximum

  -- `a != b`
  abbrev differs : Value → Value → Bool
  differs a b = not (le a b && le b a)

  reason_of : BoundedActionPolicy → Value → Value → Option Reason
  reason_of policy action bounded =
      if differs bounded action && lt action policy.minimum
      then some lower
      else if differs bounded action
      then some upper
      else none

  projected : BoundedActionPolicy → Value → Value × Option Reason
  unfolding reason_of
  projected policy action =
      let bounded : Value = clamp num policy.minimum policy.maximum action in
      (bounded, reason_of policy action bounded)

  -- `BoundedActionPolicy.project`
  unfoldable pub project_bounded :
      (Payload Value → Option Value)
      → BoundedActionPolicy
      → Payload Value
      → Result PolicyError (Value × Option Reason)
  unfolding projected
  project_bounded as_float policy p = do
    action ← float_of as_float p
    raise_if (not (is_finite action)) non_finite_action
    ok (projected policy action)

  unfoldable pub project_action :
      (Payload Value → Option Value)
      → Payload Value
      → Option (Payload Value)
      → Option (Payload Value)
      → Result PolicyError (Value × Option Reason)
  unfolding project_finite bounded_action_policy project_bounded
  project_action as_float p none none = project_finite as_float p
  project_action as_float p (some low) (some high) = do
    policy ← bounded_action_policy as_float low high
    project_bounded as_float policy p
  project_action as_float p low high = err unpaired_bounds

  check_entries :
      (Payload Value → Option Value) → Mapping (Payload Value) → Result PolicyError (Unit {0})
  check_entries as_float [] = ok tt
  check_entries as_float ((key, p) ∷ rest) = elim (as_float p) [
    | none ↦ err (invalid_measurement key)
    | some v ↦
        raise_if (not (is_finite v)) (non_finite_measurement key) >> check_entries as_float rest
  ]

  -- `check_observation`; `none` is a measurement that is no mapping.
  unfoldable pub check_observation :
      (Payload Value → Option Value)
      → Option (Mapping (Payload Value))
      → Result PolicyError (Unit {0})
  unfolding check_entries
  check_observation as_float none = err measurement_not_mapping
  check_observation as_float (some measurement) = check_entries as_float measurement
