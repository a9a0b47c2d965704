-- ===== src/Checks/Observations.antt =====
-- Observation integrity, src/pe_sim/checks.py: `ObservationValidityPlugin`. Python's `float()` and
-- `int()` are the parameters `as_float` and `as_int`, which are `none` where these raise a
-- `TypeError` or a `ValueError`; `tolerance` is the literal 1e-12.
pub mod Construction
pub mod Rules
pub mod Validity
pub mod Blocking
mod Examples
use Prim.Native.String.{◌++◌ as append}
use power_electronics_ai_sim.Base.{
  ℕ, String, Bool, true, false, not, ◌&&◌, ◌||◌, Option, none, some, List, [], ◌∷◌, ◌++◌, ltb,
  str_eq, is_some, default_to, if◌then◌else◌, Result, ok, err, ◌>>=◌, ◌>>◌, raise_if,
}
use power_electronics_ai_sim.Number.{Number}
use power_electronics_ai_sim.Contracts.{Payload, natural, flag, Mapping, get}
use power_electronics_ai_sim.Checks.{CheckFinding, error, CheckReport}

-- An integer that `int()` returns; `below n` is -(n + 1).
pub data Whole : Type 0 where
  whole below : ℕ → Whole

-- `not findings`
abbrev pub no_findings : List CheckFinding → Bool
no_findings [] = true
no_findings (f ∷ fs) = false

module _ (num : Number) where
  open num use {Value, is_finite, lt, plus, minus}

  -- `(minimum, maximum)`
  pub record Range : Type 0 where
    pub minimum : Option Value
    pub maximum : Option Value

  pub record ObservationValidityPlugin : Type 0 where
    pub required_measurements : List String
    pub max_age_steps : Option ℕ
    pub expected_units : Mapping String
    pub ranges : Mapping Range
    pub plugin_id : String
    pub rule_version : String

  -- What the plugin reads of an observation, any object. `time_s` and `age_steps` are `none` where
  -- the attribute is missing, and `measurement` and `measurement_units` where it is no mapping; units
  -- that are missing are the empty mapping.
  pub record Observation : Type 0 where
    pub measurement : Option (Mapping (Payload Value))
    pub time_s : Option (Payload Value)
    pub age_steps : Option (Payload Value)
    pub measurement_units : Option (Mapping String)

  pub record CheckContext : Type 0 where
    pub previous_observation_time_s : Option Value
    pub current_time_s : Option Value

  -- The fields that every finding of the plugin shares; none of the texts is empty.
  abbrev finding_of : String → String → String → String → CheckFinding
  finding_of plugin_id rule_id category message = record {
    rule_id = rule_id;
    category = category;
    message = message;
    severity = error;
    passed = false;
    stop_requested = false;
    plugin_id = some plugin_id;
  }

  pub required_findings : String → List String → Mapping (Payload Value) → List CheckFinding
  required_findings id [] m = []
  required_findings id (key ∷ keys) m =
      let rest = required_findings id keys m in
      if is_some (get key m)
      then rest
      else finding_of id "measurement.required" "missing_measurement"
          (append "required measurement is missing: " key)
        ∷ rest

  abbrev below_minimum : Value → Option Value → Bool
  below_minimum v none = false
  below_minimum v (some low) = lt v low

  abbrev above_maximum : Value → Option Value → Bool
  above_maximum v none = false
  above_maximum v (some high) = lt high v

  abbrev out_of_range : Value → Option Range → Bool
  out_of_range v none = false
  out_of_range v (some r) = below_minimum v r.minimum || above_maximum v r.maximum

  -- One measurement: not numeric, not finite, or outside its range.
  value_findings : String → String → Option Value → Option Range → List CheckFinding
  value_findings id key none r =
      finding_of id "measurement.numeric" "invalid_measurement"
        (append "measurement is not numeric: " key)
      ∷ []
  value_findings id key (some v) r =
      if not (is_finite v)
      then finding_of id "measurement.finite" "nonfinite_observation"
          (append "measurement is not finite: " key)
        ∷ []
      else if out_of_range v r
      then finding_of id "measurement.range" "measurement_out_of_range"
          (append "measurement is outside the declared range: " key)
        ∷ []
      else []

  pub measurement_findings :
      (Payload Value → Option Value)
      → String
      → Mapping Range
      → Mapping (Payload Value)
      → List CheckFinding
  unfolding value_findings
  measurement_findings as_float id ranges [] = []
  measurement_findings as_float id ranges ((key, p) ∷ rest) =
      value_findings id key (as_float p) (get key ranges)
      ++ measurement_findings as_float id ranges rest

  regression_findings : Value → String → Value → Option Value → List CheckFinding
  regression_findings tolerance id timestamp none = []
  regression_findings tolerance id timestamp (some previous) =
      if lt timestamp (minus previous tolerance)
      then finding_of id "observation.timestamp.monotonic" "timestamp_violation"
          "observation timestamp regressed"
        ∷ []
      else []

  visibility_findings : Value → String → Value → Option Value → List CheckFinding
  visibility_findings tolerance id timestamp none = []
  visibility_findings tolerance id timestamp (some current) =
      if lt timestamp (minus current tolerance)
      then finding_of id "observation.timestamp.rollback" "timestamp_violation"
          "observation timestamp is before the current logical time"
        ∷ []
      else if lt (plus current tolerance) timestamp
      then finding_of id "observation.timestamp.visible" "future_observation"
          "observation timestamp is in the future"
        ∷ []
      else []

  not_finite_time : String → List CheckFinding
  not_finite_time id =
      finding_of id "observation.timestamp.finite" "timestamp_violation"
        "observation timestamp is not finite"
      ∷ []

  pub time_findings : Value → String → Option Value → CheckContext → List CheckFinding
  unfolding not_finite_time regression_findings visibility_findings
  time_findings tolerance id none context = not_finite_time id
  time_findings tolerance id (some timestamp) context =
      if not (is_finite timestamp)
      then not_finite_time id
      else regression_findings tolerance id timestamp context.previous_observation_time_s
        ++ visibility_findings tolerance id timestamp context.current_time_s

  invalid_age : String → List CheckFinding
  invalid_age id =
      finding_of id "observation.age.valid" "invalid_observation_age"
        "observation age_steps is invalid"
      ∷ []

  pub age_findings : String → Option Whole → Option ℕ → List CheckFinding
  unfolding invalid_age
  age_findings id none limit = invalid_age id
  age_findings id (some (below n)) limit = invalid_age id
  age_findings id (some (whole n)) none = []
  age_findings id (some (whole n)) (some limit) =
      if ltb limit n
      then finding_of id "observation.age.max" "stale_observation"
          "observation is older than the allowed age"
        ∷ []
      else []

  abbrev has_unit : String → Option String → Bool
  has_unit expected none = false
  has_unit expected (some actual) = str_eq actual expected

  expected_findings : String → Mapping String → Mapping String → List CheckFinding
  expected_findings id [] units = []
  expected_findings id ((key, expected) ∷ rest) units =
      let later = expected_findings id rest units in
      if has_unit expected (get key units)
      then later
      else finding_of id "measurement.units.expected" "unit_mismatch"
          (append "measurement unit mismatch: " key)
        ∷ later

  pub unit_findings : String → Mapping String → Option (Mapping String) → List CheckFinding
  unfolding expected_findings
  unit_findings id expected none =
      finding_of id "measurement.units.mapping" "unit_mismatch"
        "measurement_units must be a mapping"
      ∷ []
  unit_findings id expected (some units) = expected_findings id expected units

  abbrev read {κ} : {B : Type κ} → (Payload Value → Option B) → Option (Payload Value) → Option B
  read convert none = none
  read convert (some p) = convert p

  pub findings_of :
      (Payload Value → Option Value)
      → (Payload Value → Option Whole)
      → Value
      → ObservationValidityPlugin
      → Observation
      → CheckContext
      → Mapping (Payload Value)
      → List CheckFinding
  unfolding required_findings measurement_findings time_findings age_findings unit_findings
  findings_of as_float as_int tolerance p o context m =
      required_findings p.plugin_id p.required_measurements m
      ++ (measurement_findings as_float p.plugin_id p.ranges m
          ++ (time_findings tolerance p.plugin_id (read as_float o.time_s) context
              ++ (age_findings p.plugin_id (as_int (default_to (natural 0) o.age_steps))
                    p.max_age_steps
                  ++ unit_findings p.plugin_id p.expected_units o.measurement_units)))

  abbrev report_of : ObservationValidityPlugin → List CheckFinding → CheckReport
  report_of p findings = record {
    passed = no_findings findings;
    findings = findings;
    plugin_id = some p.plugin_id;
    rule_version = p.rule_version;
    level = none;
    limitations = [];
  }

  -- The report of `CheckReport.failure` for an observation whose measurement is no mapping
  missing_report : ObservationValidityPlugin → CheckReport
  missing_report p = record {
    passed = false;
    findings =
        finding_of p.plugin_id "missing_measurement" "missing_measurement"
          "observation.measurement must be a mapping"
        ∷ [];
    plugin_id = some p.plugin_id;
    rule_version = "checks-v1";
    level = none;
    limitations = [];
  }

  -- `ObservationValidityPlugin.check_observation`
  unfoldable pub check_observation :
      (Payload Value → Option Value)
      → (Payload Value → Option Whole)
      → Value
      → ObservationValidityPlugin
      → Observation
      → CheckContext
      → CheckReport
  unfolding findings_of missing_report
  check_observation as_float as_int tolerance p o context = elim o.measurement [
    | none ↦ missing_report p
    | some m ↦ report_of p (findings_of as_float as_int tolerance p o context m)
  ]
