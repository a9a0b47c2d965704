-- ===== src/Runner/State.antt =====
-- The state of a run in src/pe_sim/runtime.py, and the components that it calls. The plant, the
-- controller, the policy, the plugins and the writer are parameters: each answers or raises, and the
-- plant and the controller keep a state of their own.
use power_electronics_ai_sim.Base.{ℕ, String, Bool, Option, List, Result, ok, err}
use power_electronics_ai_sim.Number.{Number}
use power_electronics_ai_sim.Contracts.{Payload, Mapping, ActionRequest, PlantObservation}
use power_electronics_ai_sim.Negotiation.{Timebase}
use power_electronics_ai_sim.Actions.{Reason}
use power_electronics_ai_sim.Lifecycle.{Machine}
use power_electronics_ai_sim.Checks.{
  CheckError, incomplete_finding, unsupported_level, missing_findings, inconsistent_flag,
  level_mismatch, unsupported_result, CheckReport,
}
use power_electronics_ai_sim.Checks.Plugins.{Plugin, PluginValue}
use power_electronics_ai_sim.Runner.{Thrown, value_error, type_error}
use power_electronics_ai_sim.Runner.Schedule.{ScheduledInput}

-- One audited call, with what it raised. Its `time_s` is left out.
pub record Call (num : Number) : Type 0 where
  pub call_id : ℕ
  pub component : String
  pub method : String
  pub step_index : ℕ
  pub error : Option Thrown

-- What `checks.py` raises, as an exception.
abbrev pub check_error : CheckError → Thrown
check_error incomplete_finding = value_error "check findings require rule_id, category, and message"
check_error unsupported_level = value_error "unsupported qualification level"
check_error missing_findings =
    value_error "check report with passed=false must include at least one finding"
check_error inconsistent_flag =
    value_error "check report passed flag is inconsistent with its findings"
check_error level_mismatch = value_error "qualification level does not match passed"
check_error unsupported_result =
    type_error "check plugin must return CheckReport, CheckFinding, bool, or (bool, reasons)"

abbrev pub or_check_error {ℓ} : {A : Type ℓ} → Result CheckError A → Result Thrown A
or_check_error (ok a) = ok a
or_check_error (err e) = err (check_error e)

module _ (num : Number) where
  open num use {Value}

  -- A sample row, as a mapping.
  abbrev pub Row : Type 0
  Row = Mapping (Payload Value)

  -- What plugins check: an observation, an action with its request, or the samples.
  pub data Subject : Type 0 where
    observed : PlantObservation num → Subject
    acted : ActionRequest num → Value → Mapping Value → Subject
    sampled : List Row → Subject

  pub record CheckContext : Type 0 where
    pub step_index : ℕ
    pub current_time_s : Value
    pub previous_observation_time_s : Option Value
    pub primary_measurement : String
    pub phase : String

  -- The event of a control window.
  pub record WindowEvent : Type 0 where
    pub step_index : ℕ
    pub sample_time_s : Value
    pub action_time_s : Value
    pub next_time_s : Value
    pub action_applied_time_s : Value

  -- A `failure` event, with the category and the exception, or a `checkpoint_failure` event
  pub data FailureEvent : Type 0 where
    failure : String → Thrown → ℕ → Value → FailureEvent
    checkpoint_failure : Thrown → ℕ → Value → FailureEvent

  -- The `timing` that a controller is given.
  pub record Timing : Type 0 where
    pub sample_time_s : Value
    pub age_steps : ℕ
    pub control_period_s : Value
    pub plant_step_s : Value
    pub sample_offset_s : Value
    pub step_index : ℕ

  -- What a checkpoint keeps of a run. The hashes and identities are left out.
  pub record Checkpoint : Type 0 where
    pub next_step_index : ℕ
    pub time_s : Value
    pub run_start_time : Value
    pub last_action : Value
    pub plant_snapshot : Mapping (Payload Value)
    pub controller_state : Mapping (Payload Value)
    pub samples : List Row
    pub events : List WindowEvent

  pub record World (P C : Type 0) : Type 0 where
    pub observe_plant : P → Result Thrown (Option (PlantObservation num)) × P
    pub advance_plant :
        Value
        → Value
        → Mapping (Payload Value)
        → P
        → Result Thrown (Option (PlantObservation num)) × P
    pub snapshot_plant : Option (P → Result Thrown (Mapping (Payload Value)) × P)
    pub observe_controller :
        Mapping Value
        → Mapping (Payload Value)
        → Timing
        → Mapping (Payload Value)
        → C
        → Result Thrown (Option (ActionRequest num)) × C
    pub snapshot_controller : Option (C → Result Thrown (Mapping (Payload Value)) × C)
    pub check_measurement : Mapping Value → Result Thrown PluginValue
    pub project : Value → Result Thrown (Value × Option Reason)
    pub validity_chain : List (Plugin Subject CheckContext)
    pub safety_chain : List (Plugin Subject CheckContext)
    pub applicability_chain : List (Plugin Subject CheckContext)
    pub check_samples : List Row → Result Thrown PluginValue
    pub qualification_chain : List (Plugin Subject CheckContext)
    pub cancelled : ℕ → Bool
    pub write : Checkpoint → Result Thrown (Unit {0})
    pub timebase : Timebase num
    pub input_schedule : List (ScheduledInput num)
    pub primary_key : String
    pub target_time_allowed : Bool
    pub audit_enabled : Bool
    pub run_start_time : Value
    pub checkpoint_interval_steps : ℕ
    pub interrupt_after_steps : Option ℕ
    pub cancel_after_steps : Option ℕ
    -- `str.lower`, and `str` of a count
    pub lower : String → String
    pub show_count : ℕ → String
    -- Fuel for the solve steps of one segment
    pub max_rounds : ℕ

  pub record Run (P C : Type 0) : Type 0 where
    pub plant : P
    pub controller : C
    pub controller_state : Mapping (Payload Value)
    pub call_id : ℕ
    pub calls : List (Call num)
    pub samples : List Row
    pub events : List WindowEvent
    pub safety_report : CheckReport
    pub validity_report : CheckReport
    pub applicability_report : CheckReport
    pub qualification_report : CheckReport
    pub machine : Machine Value
    -- The `failure` and `checkpoint_failure` events, which the source appends to `events`
    pub failures : List FailureEvent
    pub previous_observation_time : Option Value
    pub current_time : Value
    pub last_action : Value
    pub checkpoints : List Checkpoint

  -- The last action, and where the run stands in its lifecycle
  abbrev pub Standing : Type 0
  Standing = Value × Machine Value

  -- Statements of the run: what they return or raise, and the state that they leave.
  abbrev pub M : (P C : Type 0) → Type 0 → Type 0
  M P C A = Run P C → Result Thrown A × Run P C
