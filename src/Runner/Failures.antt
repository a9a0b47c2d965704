-- ===== src/Runner/Failures.antt =====
-- How `_failure_record` of src/pe_sim/runtime.py classifies an exception: by its category, or by words
-- in its type's name and its text, and by the last call that failed. The record's other fields are
-- copies. It is never asked about a `SimulationCancelledError`, which is caught before it.
use Prim.Native.Char.{code}
use Prim.Native.String.{◌++◌ as append}
use power_electronics_ai_sim.Base.{
  String, Bool, true, false, ◌&&◌, ◌||◌, Option, none, some, List, [], ◌∷◌, ◌==◌, any, str_eq,
  is_some, if◌then◌else◌,
}
use power_electronics_ai_sim.Number.{Number}
use power_electronics_ai_sim.Runner.{Failure}
use power_electronics_ai_sim.Runner.State.{World, Call}

abbrev starts_with : String → String → Bool
starts_with String.[] text = true
starts_with (String.◌∷◌ c word) String.[] = false
starts_with (String.◌∷◌ c word) (String.◌∷◌ d text) = code c == code d && starts_with word text

-- `word in text`
unfoldable pub within : String → String → Bool
within word String.[] = starts_with word ""
within word (String.◌∷◌ c text) = starts_with word (String.◌∷◌ c text) || within word text

-- `any(token in text for token in (...))`
abbrev pub mentions : String → List String → Bool
mentions text words = any (λ word. within word text) words

module _ {num : Number} where
  -- The component and the method of a call that failed
  abbrev pub last_failed : List (Call num) → Option (Call num)
  last_failed [] = none
  last_failed (c ∷ cs) =
      let later = last_failed cs in
      if is_some later then later else if is_some c.error then some c else none

  abbrev is_call : String → String → Option (Call num) → Bool
  is_call component method none = false
  is_call component method (some c) = str_eq c.component component && str_eq c.method method

-- The words that the classification looks for, in its order.
unfoldable pub word_category : {num : Number} → Bool → String → Option (Call num) → String
unfolding within
word_category is_timeout text last =
    if within "cancel" text
    then "cancelled"
    else if is_timeout || mentions text ("timeout" ∷ "timed out" ∷ [])
    then "backend_timeout"
    else if mentions text ("converg" ∷ "singular matrix" ∷ "timestep" ∷ "time step" ∷ [])
    then "numerical_nonconvergence"
    else if mentions text
        ("process" ∷ "subprocess" ∷ "return code" ∷ "exit status" ∷ "backend crashed" ∷ [])
    then "backend_process_failure"
    else if within "observation time" text && within "finite" text
    then "timestamp_violation"
    else if mentions text ("measurement_units" ∷ "unit mismatch" ∷ "unsupported unit" ∷ [])
    then "unit_mismatch"
    else if within "age_steps" text && mentions text ("negative" ∷ "invalid" ∷ [])
    then "invalid_observation_age"
    else if mentions text (
        "observation values must be finite" ∷ "non-finite measurement" ∷ "nonfinite measurement"
        ∷ "measurement is not finite" ∷ [])
    then "nonfinite_observation"
    else if is_call "safety" "project_action" last && within "action" text
    then "action_invalid"
    else if mentions text
        ("non-finite" ∷ "nonfinite" ∷ "nan" ∷ "infinity" ∷ "infinite" ∷ "illegal numeric" ∷ [])
    then "model_numerical_error"
    else if is_call "plant" "advance" last
    then "plant_advance_failure"
    else if is_call "plant" "observe" last
        || (is_call "plant" "restore" last || is_call "plant" "reset" last)
    then "plant_execution_failure"
    else if mentions text (
        "plant time did not advance" ∷ "advanced beyond"
        ∷ "did not reach the requested time window endpoint" ∷ [])
    then "plant_advance_failure"
    else if mentions text ("timestamp" ∷ "timebase" ∷ [])
    then "timing_violation"
    else if within "action" text
    then "action_invalid"
    else "runtime_error"

-- `category in {None, "runtime_error", "simulation_execution_error"}`, where an empty one is `None`
abbrev pub is_generic : Option String → Bool
is_generic none = true
is_generic (some category) =
    str_eq category ""
    || (str_eq category "runtime_error" || str_eq category "simulation_execution_error")

abbrev category_text : Option String → String
category_text none = ""
category_text (some category) = category

-- `_failure_record(...)["category"]`
unfoldable pub failure_category :
    {num : Number} {P C : Type 0} → World num P C → Failure → List (Call num) → String
unfolding word_category
failure_category w f calls =
    if is_generic f.category
    then word_category f.is_timeout (w.lower (append f.exception_type (append " " f.message)))
        (last_failed calls)
    else category_text f.category

-- `_OBSERVATION_FAILURE_CATEGORIES`
abbrev pub observation_failures : List String
observation_failures =
    "nonfinite_observation" ∷ "invalid_measurement" ∷ "timestamp_violation" ∷ "future_observation"
    ∷ "stale_observation" ∷ "invalid_observation_age" ∷ "missing_measurement" ∷ "unit_mismatch"
    ∷ "measurement_out_of_range" ∷ []
