-- ===== src/Checks/Observations/Blocking.antt =====
-- Every finding of `ObservationValidityPlugin` blocks, src/pe_sim/checks.py.
use power_electronics_ai_sim.Base.{
  ℕ, String, ◌≡◌, refl, not, Option, none, some, List, [], ◌∷◌, ◌++◌, arith, any, any-append,
  default_to, Bool-cases, Option-cases, inl, inr,
}
use power_electronics_ai_sim.Number.{Number}
use power_electronics_ai_sim.Contracts.{Payload, natural, Mapping, get}
use power_electronics_ai_sim.Checks.{CheckFinding, finding_blocking, blocking}
use power_electronics_ai_sim.Checks.Merging.{IsConsistent}
use power_electronics_ai_sim.Checks.Observations.{
  Whole, whole, below, Range, ObservationValidityPlugin, Observation, CheckContext,
  check_observation, findings_of, required_findings, value_findings, measurement_findings,
  regression_findings, visibility_findings, not_finite_time, time_findings, invalid_age,
  age_findings, expected_findings, unit_findings, no_findings, read, missing_report,
}
use power_electronics_ai_sim.Checks.Observations.Validity.{measured_report}

-- Findings block exactly if there are any.
abbrev IsBlocking : List CheckFinding → Type 0
IsBlocking fs = any finding_blocking fs ≡ not (no_findings fs)

append-IsBlocking :
    (xs ys : List CheckFinding) → IsBlocking xs → IsBlocking ys → IsBlocking (xs ++ ys)
append-IsBlocking [] ys h k = k
append-IsBlocking (x ∷ xs) ys h k = ground (arith, any-append finding_blocking (x ∷ xs) ys)

module _ (num : Number) (as_float : Payload num.Value → Option num.Value)
    (as_int : Payload num.Value → Option Whole) (tolerance : num.Value) where
  open num use {Value}

  required-IsBlocking :
      (id : String) (keys : List String) (m : Mapping (Payload Value))
      → IsBlocking (required_findings num id keys m)
  unfolding required_findings finding_blocking
  required-IsBlocking id [] m = refl
  required-IsBlocking id (key ∷ keys) m = ground (arith, required-IsBlocking id keys m)

  value-IsBlocking :
      (id key : String) (v : Option Value) (r : Option (Range num))
      → IsBlocking (value_findings num id key v r)
  unfolding value_findings finding_blocking
  value-IsBlocking id key none r = refl
  value-IsBlocking id key (some v) r = ground arith

  measurement-IsBlocking :
      (id : String) (ranges : Mapping (Range num)) (m : Mapping (Payload Value))
      → IsBlocking (measurement_findings num as_float id ranges m)
  unfolding measurement_findings
  measurement-IsBlocking id ranges [] = refl
  measurement-IsBlocking id ranges ((key, p) ∷ rest) =
      append-IsBlocking _ _ (value-IsBlocking id key (as_float p) (get key ranges))
        (measurement-IsBlocking id ranges rest)

  regression-IsBlocking :
      (id : String) (t : Value) (s : Option Value)
      → IsBlocking (regression_findings num tolerance id t s)
  unfolding regression_findings finding_blocking
  regression-IsBlocking id t none = refl
  regression-IsBlocking id t (some s) = ground arith

  visibility-IsBlocking :
      (id : String) (t : Value) (s : Option Value)
      → IsBlocking (visibility_findings num tolerance id t s)
  unfolding visibility_findings finding_blocking
  visibility-IsBlocking id t none = refl
  visibility-IsBlocking id t (some s) = ground arith

  time-IsBlocking :
      (id : String) (t : Option Value) (context : CheckContext num)
      → IsBlocking (time_findings num tolerance id t context)
  unfolding time_findings not_finite_time finding_blocking
  time-IsBlocking id none context = refl
  time-IsBlocking id (some t) context = elim (Bool-cases (num.is_finite t)) [
    | inr infinite ↦ rw (time_findings, infinite) refl
    | inl finite ↦
        rw (time_findings, finite)
          (append-IsBlocking _ _ (regression-IsBlocking id t context.previous_observation_time_s)
            (visibility-IsBlocking id t context.current_time_s))
  ]

  age-IsBlocking :
      (id : String) (age : Option Whole) (limit : Option ℕ)
      → IsBlocking (age_findings num id age limit)
  unfolding age_findings invalid_age finding_blocking
  age-IsBlocking id none limit = refl
  age-IsBlocking id (some (below n)) limit = refl
  age-IsBlocking id (some (whole n)) none = refl
  age-IsBlocking id (some (whole n)) (some limit) = ground arith

  expected-IsBlocking :
      (id : String) (expected units : Mapping String)
      → IsBlocking (expected_findings num id expected units)
  unfolding expected_findings finding_blocking
  expected-IsBlocking id [] units = refl
  expected-IsBlocking id ((key, unit) ∷ rest) units =
      ground (arith, expected-IsBlocking id rest units)

  unit-IsBlocking :
      (id : String) (expected : Mapping String) (units : Option (Mapping String))
      → IsBlocking (unit_findings num id expected units)
  unfolding unit_findings finding_blocking
  unit-IsBlocking id expected none = refl
  unit-IsBlocking id expected (some units) = expected-IsBlocking id expected units

  findings-IsBlocking :
      (p : ObservationValidityPlugin num) (o : Observation num) (context : CheckContext num)
      (m : Mapping (Payload Value))
      → IsBlocking (findings_of num as_float as_int tolerance p o context m)
  unfolding findings_of
  findings-IsBlocking p o context m =
      let id = p.plugin_id in
      append-IsBlocking _ _ (required-IsBlocking id p.required_measurements m) (
        append-IsBlocking _ _ (measurement-IsBlocking id p.ranges m) (
          append-IsBlocking _ _ (time-IsBlocking id (read num as_float o.time_s) context) (
            append-IsBlocking _ _
              (age-IsBlocking id (as_int (default_to (natural 0) o.age_steps)) p.max_age_steps)
              (unit-IsBlocking id p.expected_units o.measurement_units))))

  -- The report that `check_observation` gives for any observation says that it passes exactly if none
  -- of its findings blocks.
  pub check_observation-IsConsistent :
      (p : ObservationValidityPlugin num) (o : Observation num) (context : CheckContext num)
      → IsConsistent (check_observation num as_float as_int tolerance p o context)
  unfolding check_observation missing_report blocking finding_blocking
  check_observation-IsConsistent p o context = elim (Option-cases o.measurement) [
    | inl missing ↦ ground arith
    | inr (m, measured) ↦
        let same = measured_report num as_float as_int tolerance p o context m measured in
        let blocks = findings-IsBlocking p o context m in rw same (ground arith)
  ]
