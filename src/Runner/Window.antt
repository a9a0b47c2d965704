-- ===== src/Runner/Window.antt =====
-- One control window of `Runner.run`, src/pe_sim/runtime.py: from the poll of the cancellation
-- token to the observation that the controller is given. Its statements stand in the order of the source, in the functions of this
-- file one after the other; the fields of the state are the variables that the source assigns. The
-- module Step goes on from there.
pub mod Sampling
pub mod Step
use power_electronics_ai_sim.Base.{
  ℕ, String, Bool, true, false, not, ◌&&◌, ◌||◌, Option, none, some, List, [], ◌∷◌, ◌++◌,
  default_to, map, is_some, if◌then◌else◌, Result, ok, err,
}
use power_electronics_ai_sim.Number.{Number, min_of, max_of, clamp}
use power_electronics_ai_sim.Contracts.{
  Payload, natural, real, text, nothing, Mapping, get, update, ActionRequest, PlantObservation,
}
use power_electronics_ai_sim.Actions.{Reason, lower, upper}
use power_electronics_ai_sim.Checks.{CheckReport, CheckFinding, finding_blocking, merge}
use power_electronics_ai_sim.Checks.Plugins.{normalise, run_plugins}
use power_electronics_ai_sim.Runner.{Thrown, cancelled, failed, value_error, type_error, Literals}
use power_electronics_ai_sim.Runner.Schedule.{command_at}
use power_electronics_ai_sim.Runner.State.{
  World, Run, M, Row, WindowEvent, Subject, observed, acted, CheckContext, Timing, or_check_error,
}
use power_electronics_ai_sim.Runner.World.{
  pure, raise, raise_when, lift, get_state, modify, on_plant, on_controller, ◌>>=◌, ◌>>◌, call,
  run_plugins_audited,
}
use power_electronics_ai_sim.Runner.Segments.{far, quantum_of, advance_segments}

-- `next((item for item in findings if ...), None)`
abbrev first_such : (CheckFinding → Bool) → List CheckFinding → Option CheckFinding
first_such test [] = none
first_such test (f ∷ fs) = if test f then some f else first_such test fs

abbrev category_or : String → Option CheckFinding → String
category_or own none = own
category_or own (some f) = f.category

abbrev or_else : Option CheckFinding → Option CheckFinding → Option CheckFinding
or_else none b = b
or_else (some a) b = some a

-- `CheckFailureError(...)`: the category of the first finding that blocks, else of the first that
-- did not pass, else the class's own.
unfoldable pub check_failure : String → String → String → CheckReport → Thrown
check_failure exception_type own message report = failed (record {
  exception_type = exception_type;
  category = some (
      category_or own (
        or_else (first_such finding_blocking report.findings)
          (first_such (λ f. not f.passed) report.findings)));
  message = message;
  report = some report;
  is_timeout = false;
})

abbrev pub safety_error : String → CheckReport → Thrown
safety_error = check_failure "SafetyCheckError" "safety_violation"

abbrev pub validity_error : String → CheckReport → Thrown
validity_error = check_failure "DataValidityError" "data_invalid"

abbrev pub applicability_error : String → CheckReport → Thrown
applicability_error = check_failure "ApplicabilityError" "out_of_envelope"

-- `mapping.setdefault(key, value)`
abbrev pub set_default {ℓ} : {V : Type ℓ} → String → V → List (String × V) → List (String × V)
set_default key value mapping =
    if is_some (get key mapping) then mapping else mapping ++ (key, value) ∷ []

module _ (num : Number) where
  open num use {Value, is_finite, le, lt, plus, minus, nought}

  -- `cycle_start`, `window_duration` and the index of the window
  pub record Cycle : Type 0 where
    pub index : ℕ
    pub start : Value
    pub duration : Value

  abbrev pub endpoint : Cycle → Value
  endpoint c = plus c.start c.duration

  abbrev time_or : Value → Option (PlantObservation num) → Value
  time_or t none = t
  time_or t (some obs) = obs.time_s

  abbrev pub reason_payload : Option Reason → Payload Value
  reason_payload none = nothing
  reason_payload (some lower) = text "lower"
  reason_payload (some upper) = text "upper"

  -- The sample row: a measurement under the name of a field replaces it.
  unfoldable pub row_of : ℕ → Value → Value → Value → Option Reason → Mapping Value → Row num
  row_of index time_s action requested reason measurement =
      update
        (("step_index", natural index)
          ∷ ("time_s", real time_s)
          ∷ ("action", real action)
          ∷ ("action_requested", real requested)
          ∷ ("clamp_reason", reason_payload reason)
          ∷ [])
        (map (λ e. (e.0, real e.1)) measurement)

  -- `validate_observation_visibility`
  regressed : Literals num → Value → Option Value → Bool
  regressed lit time_s none = false
  regressed lit time_s (some previous) = lt time_s (minus previous lit.pico)

  abbrev pub outside : Value → Value → Value → Value → Bool
  outside tolerance low high t = lt t (minus low tolerance) || lt (plus high tolerance) t

module _ {num : Number} {P C : Type 0} (lit : Literals num) (w : World num P C) where
  open num use {Value, is_finite, le, lt, plus, minus, nought}

  abbrev tolerance : Value
  tolerance = w.timebase.event_tolerance_s

  pub begin_window : ℕ → M num P C (Cycle num)
  begin_window index = do
    raise_when (w.cancelled index) (cancelled "cancellation requested by the client")
    s ← get_state
    let run_end_time : Value = plus w.run_start_time w.timebase.duration_s
    let duration : Value =
        min_of num w.timebase.control_period_s (minus run_end_time s.current_time)
    raise_when (le duration tolerance) (value_error "control window has no remaining duration")
    raise_when (le (minus duration tolerance) w.timebase.sample_offset_s)
        (value_error "sample_offset_s must be smaller than the remaining control window")
    pure (record { index = index; start = s.current_time; duration = duration })

  -- Up to the offset at which the plant is sampled, the last action goes on.
  pub reach_offset : Cycle num → M num P C (Unit {0})
  reach_offset c =
      if lt tolerance w.timebase.sample_offset_s
      then (do
        s ← get_state
        let sampled_at : Value = plus c.start w.timebase.sample_offset_s
        advanced ←
            advance_segments lit w c.index s.last_action w.timebase.sample_offset_s c.start
              sampled_at
        modify (λ t. record t { current_time = time_or num sampled_at advanced }))
      else pure tt

  abbrev require_observation :
      String → Option (PlantObservation num) → M num P C (PlantObservation num)
  require_observation message none = raise (type_error message)
  require_observation message (some obs) = pure obs

  pub observe_plant : ℕ → String → M num P C (PlantObservation num)
  observe_plant index message = do
    value ← call w "plant" "observe" index (on_plant w.observe_plant)
    require_observation message value

  check_legacy : ℕ → PlantObservation num → M num P C (Unit {0})
  check_legacy index obs = do
    answer ← call w "safety" "check_observation" index (lift (w.check_measurement obs.measurement))
    report ← lift (or_check_error (normalise (some "legacy-safety") answer))
    modify (λ s. record s { safety_report = merge s.safety_report report })
    s ← get_state
    raise_when (not s.safety_report.passed)
        (safety_error "safety observation check failed" s.safety_report)

  pub check_validity : PlantObservation num → CheckContext num → String → M num P C (Unit {0})
  check_validity obs context message = do
    report ← run_plugins_audited w w.validity_chain "check_observation" (observed obs) context
    modify (λ s. record s { validity_report = merge s.validity_report report })
    raise_when (not report.passed) (validity_error message report)

  unfoldable pub check_applicability :
      String → Subject num → CheckContext num → String → M num P C (Unit {0})
  check_applicability method subject context message = do
    report ← lift (or_check_error (run_plugins w.applicability_chain method subject context))
    modify (λ s. record s { applicability_report = merge s.applicability_report report })
    raise_when (not report.passed) (applicability_error message report)

  unfoldable pub check_safety :
      String → Subject num → CheckContext num → String → M num P C (Unit {0})
  check_safety method subject context message = do
    report ← run_plugins_audited w w.safety_chain method subject context
    modify (λ s. record s { safety_report = merge s.safety_report report })
    raise_when (not report.passed) (safety_error message report)

  pub context_of : ℕ → String → Run num P C → CheckContext num
  context_of index phase s = record {
    step_index = index;
    current_time_s = s.current_time;
    previous_observation_time_s = s.previous_observation_time;
    primary_measurement = w.primary_key;
    phase = phase;
  }

  pub sample_plant : Cycle num → M num P C (PlantObservation num)
  unfolding observe_plant check_legacy check_validity check_applicability check_safety context_of
      regressed
  sample_plant c = do
    obs ← observe_plant c.index "plant.observe() must return PlantObservation"
    check_legacy c.index obs
    s ← get_state
    let context : CheckContext num = context_of c.index "observation" s
    check_validity obs context "observation validity check failed"
    check_applicability "check_observation" (observed obs) context
        "model envelope rejected an observation"
    check_safety "check_observation" (observed obs) context "safety plugin rejected observation"
    raise_when (lt (plus obs.time_s lit.pico) obs.time_s)
        (value_error "observation timestamp is in the future")
    raise_when (regressed num lit obs.time_s s.previous_observation_time)
        (value_error "observation timestamp regressed")
    modify
        (λ t. record t { previous_observation_time = some obs.time_s; current_time = obs.time_s })
    pure obs
