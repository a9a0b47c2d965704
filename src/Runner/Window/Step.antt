-- ===== src/Runner/Window/Step.antt =====
-- The rest of a control window of `Runner.run`, src/pe_sim/runtime.py: the controller's request,
-- its admission, the advance of the plant, and the sample row. It follows the module Window.
pub mod Admission
use power_electronics_ai_sim.Base.{
  ℕ, String, Bool, true, false, not, ◌&&◌, ◌||◌, Option, none, some, List, [], ◌∷◌, ◌++◌,
  default_to, map, if◌then◌else◌, Result, ok, err,
}
use power_electronics_ai_sim.Number.{Number, max_of, clamp}
use power_electronics_ai_sim.Contracts.{Payload, text, Mapping, ActionRequest, PlantObservation}
use power_electronics_ai_sim.Actions.{Reason}
use power_electronics_ai_sim.Runner.{Thrown, value_error, type_error, Literals}
use power_electronics_ai_sim.Runner.Schedule.{command_at}
use power_electronics_ai_sim.Runner.State.{
  World, Run, M, WindowEvent, Subject, acted, CheckContext, Timing,
}
use power_electronics_ai_sim.Runner.World.{
  pure, raise, raise_when, lift, get_state, modify, on_plant, on_controller, ◌>>=◌, ◌>>◌, call,
}
use power_electronics_ai_sim.Runner.Segments.{far, quantum_of, advance_segments}
use power_electronics_ai_sim.Runner.Window.{
  set_default, Cycle, endpoint, time_or, row_of, outside, tolerance, begin_window, reach_offset,
  observe_plant, check_validity, check_applicability, check_safety, context_of, sample_plant,
}

module _ (num : Number) where
  open num use {Value}

  -- What `Runner.run` passes to `samples` and `events` at the end of the window
  pub record Outcome : Type 0 where
    pub time_s : Value
    pub action : Value
    pub requested : Value
    pub reason : Option Reason
    pub measurement : Mapping Value
    pub target_time_s : Value
    pub applied_at : Value
    pub next_time_s : Value

module _ {num : Number} {P C : Type 0} (lit : Literals num) (w : World num P C) where
  open num use {Value, is_finite, le, lt, plus, minus, nought}

  abbrev require_request : Option (ActionRequest num) → M num P C (ActionRequest num)
  require_request none = raise (type_error "controller must return ActionRequest")
  require_request (some request) = pure request

  abbrev new_state : Option (Mapping (Payload Value)) → Run num P C → Run num P C
  new_state none s = s
  new_state (some state) s = record s { controller_state = state }

  abbrev timing_of : Cycle num → PlantObservation num → Timing num
  timing_of c obs = record {
    sample_time_s = obs.time_s;
    age_steps = obs.age_steps;
    control_period_s = w.timebase.control_period_s;
    plant_step_s = default_to w.timebase.control_period_s (quantum_of num w.timebase.plant_step_s);
    sample_offset_s = w.timebase.sample_offset_s;
    step_index = c.index;
  }

  -- `controller.observe(obs.controller_measurement(), controller_command, timing, controller_state)`
  abbrev controller_call :
      Cycle num
      → PlantObservation num
      → Mapping (Payload Value)
      → Run num P C
      → C
      → Result Thrown (Option (ActionRequest num)) × C
  controller_call c obs command s =
      w.observe_controller obs.measurement
        (set_default "measurement_key" (text w.primary_key) command) (timing_of c obs)
        s.controller_state

  pub ask_controller : Cycle num → PlantObservation num → M num P C (ActionRequest num)
  ask_controller c obs = do
    command ← lift (command_at num lit w.input_schedule obs.time_s)
    s ← get_state
    value ← call w "controller" "observe" c.index (on_controller (controller_call c obs command s))
    request ← require_request value
    modify (new_state request.state_update)
    pure request

  -- The request's times lie in the window, and its action goes through the policy and the checks.
  pub admit_action :
      Cycle num → PlantObservation num → ActionRequest num → M num P C (Value × Option Reason)
  admit_action c obs request = do
    raise_when
        (outside num (tolerance lit w) obs.time_s (endpoint num c) request.produced_time_s
          || outside num (tolerance lit w) obs.time_s (endpoint num c) request.target_time_s)
        (value_error "action timestamp violates timebase")
    raise_when
        (not w.target_time_allowed && far num (tolerance lit w) request.target_time_s obs.time_s)
        (value_error "timing policy disallows delayed target-time actions")
    (action, reason) ← call w "safety" "project_action" c.index (lift (w.project request.value))
    s ← get_state
    let context : CheckContext num = context_of lit w c.index "action" s
    check_safety lit w "check_action" (acted request action obs.measurement) context
        "safety plugin rejected action"
    check_applicability lit w "check_action" (acted request action obs.measurement) context
        "model envelope rejected an action"
    pure (action, reason)

  -- Until the target the last action goes on; then the new one, to the end of the window.
  pub hold_action : Cycle num → Value → Value → Run num P C → M num P C (Unit {0})
  hold_action c target hold s =
      if lt (tolerance lit w) hold
      then (do
        advanced ← advance_segments lit w c.index s.last_action hold s.current_time target
        modify (λ t. record t { current_time = time_or num t.current_time advanced }))
      else pure tt

  pub apply_action : Cycle num → Value → Value → M num P C Value
  unfolding hold_action
  apply_action c action target = do
    s ← get_state
    hold_action c target (max_of num nought (minus target s.current_time)) s
    t ← get_state
    ignored ←
        advance_segments lit w c.index action
          (max_of num nought (minus (endpoint num c) t.current_time)) t.current_time
          (endpoint num c)
    pure t.current_time

  pub end_window : Cycle num → PlantObservation num → Value → M num P C (PlantObservation num)
  end_window c obs reached = do
    next ← observe_plant lit w c.index "plant.advance() did not produce PlantObservation"
    check_validity lit w next
        (record {
          step_index = c.index;
          current_time_s = endpoint num c;
          previous_observation_time_s = some obs.time_s;
          primary_measurement = w.primary_key;
          phase = "advance_observation";
        })
        "advanced observation validity check failed"
    raise_when (le next.time_s reached || not (is_finite next.time_s))
        (value_error "plant time did not advance")
    raise_when (far num (tolerance lit w) next.time_s (endpoint num c))
        (value_error "plant did not reach the requested time window endpoint")
    pure next

  -- The window up to its sample row
  unfoldable pub window : ℕ → M num P C (Outcome num)
  unfolding begin_window reach_offset sample_plant ask_controller admit_action apply_action
      end_window context_of observe_plant check_validity
  window index = do
    c ← begin_window lit w index
    reach_offset lit w c
    obs ← sample_plant lit w c
    request ← ask_controller c obs
    (action, reason) ← admit_action c obs request
    let target : Value = clamp num obs.time_s (endpoint num c) request.target_time_s
    reached ← apply_action c action target
    next ← end_window c obs reached
    pure (record {
      time_s = reached;
      action = action;
      requested = request.value;
      reason = reason;
      measurement = obs.measurement;
      target_time_s = request.target_time_s;
      applied_at = target;
      next_time_s = next.time_s;
    })

  abbrev pub commit : ℕ → Outcome num → Run num P C → Run num P C
  commit index o s = record s {
    samples =
        s.samples ++ row_of num index o.time_s o.action o.requested o.reason o.measurement ∷ [];
    events =
        s.events
        ++ record {
          step_index = index;
          sample_time_s = o.time_s;
          action_time_s = o.target_time_s;
          next_time_s = o.next_time_s;
          action_applied_time_s = o.applied_at;
        }
          ∷ [];
    current_time = o.next_time_s;
    last_action = o.action;
  }

  unfoldable pub run_window : ℕ → M num P C (Unit {0})
  unfolding window
  run_window index = do outcome ← window index; modify (commit index outcome)
