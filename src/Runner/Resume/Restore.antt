-- ===== src/Runner/Resume/Restore.antt =====
-- The state that a run is resumed in, in `Runner.run` of src/pe_sim/runtime.py, and what becomes of a
-- checkpoint that `_write_checkpoint` wrote.
pub mod RoundTrip
use power_electronics_ai_sim.Base.{
  ℕ, ◌≤◌, ◌≡◌, refl, String, Bool, true, false, not, ◌&&◌, ◌||◌, Option, none, some, List, [], ◌∷◌,
  ◌++◌, length, ltb, ◌==◌, str_eq, is_some, Result, ok, err, arith, eq_refl, if◌then◌else◌,
  default_to,
}
use power_electronics_ai_sim.Number.{Number, min_of}
use power_electronics_ai_sim.Contracts.{Payload, Mapping}
use power_electronics_ai_sim.Checks.Observations.{whole}
use power_electronics_ai_sim.Runner.{Thrown, value_error, type_error}
use power_electronics_ai_sim.Runner.State.{Checkpoint, World, Run, M}
use power_electronics_ai_sim.Runner.World.{
  pure, raise, raise_when, lift, get_state, modify, on_plant, on_controller, ◌>>=◌, ◌>>◌, call,
}
use power_electronics_ai_sim.Runner.Resume.{
  Identity, text_length, same_hashes, same_ids, is_protocol, Saved, Accepted, unsigned,
  check_identity, check_hash, check_saved,
}

module _ (num : Number) where
  open num use {Value, is_finite, lt, minus, times, nought}

  -- What else is asked of the components and of the standard library when a run is resumed: the
  -- hash of a document, and the float of a count.
  pub record Resumption (P C : Type 0) : Type 0 where
    pub restore_plant : Mapping (Payload Value) → P → Result Thrown (Unit {0}) × P
    pub restore_controller : Option (Mapping (Payload Value) → C → Result Thrown (Unit {0}) × C)
    pub reset_controller :
        Mapping (Payload Value) → C → Result Thrown (Option (Mapping (Payload Value))) × C
    pub digest : Saved num → String
    pub of_count : ℕ → Value
    pub identity : Identity

  -- The document of `_write_checkpoint`, with its hash
  abbrev pub written : (Saved num → String) → Identity → Checkpoint num → Saved num
  written digest identity c =
      let d : Saved num = record {
        source_status = none;
        next_step_index = whole c.next_step_index;
        time_s = c.time_s;
        run_start_time = some c.run_start_time;
        last_action = c.last_action;
        plant_snapshot = some c.plant_snapshot;
        controller_state = some c.controller_state;
        samples = some c.samples;
        events = some c.events;
        identity = identity;
        checkpoint_hash = none;
      } in
      record d { checkpoint_hash = some (digest d) }

  -- What `_load_checkpoint` makes of a document, where the manifest of the run's directory names the
  -- status: `none` where there is no manifest, or none with a status.
  abbrev pub loaded : Option String → Saved num → Saved num
  loaded status d = record d { source_status = status }

module _ {num : Number} {P C : Type 0} (w : World num P C) (r : Resumption num P C) where
  open num use {Value, is_finite, lt, minus, times, nought}

  -- Whether the controller has both `snapshot` and `restore`
  abbrev pub has_protocol : Bool
  has_protocol = is_some w.snapshot_controller && is_some r.restore_controller

  abbrev kept_state : Option (Mapping (Payload Value)) → M num P C (Mapping (Payload Value))
  kept_state none = raise (type_error "controller.reset() must return a serializable mapping")
  kept_state (some state) = pure state

  -- The controller's `restore`, or its `reset` with the stored state
  restore_controller :
      Option (Mapping (Payload Value) → C → Result Thrown (Unit {0}) × C)
      → ℕ
      → Mapping (Payload Value)
      → M num P C (Mapping (Payload Value))
  restore_controller (some f) next state = do
    ignored ← call w "controller" "restore" next (on_controller (f state))
    pure state
  restore_controller none next state = do
    answer ← call w "controller" "reset" next (on_controller (r.reset_controller state))
    kept_state answer

  -- `run_start_time`, from the document or inferred from the completed windows
  abbrev start_of : Saved num → ℕ → Value
  start_of d next =
      default_to
        (minus d.time_s
          (min_of num (times (r.of_count next) w.timebase.control_period_s) w.timebase.duration_s))
        d.run_start_time

  -- From the document on: the index of the next window, and the start of the run.
  unfoldable pub resume : Saved num → M num P C (ℕ × Value)
  unfolding restore_controller
  resume d = do
    a ← lift (check_saved num r.digest (has_protocol) r.identity d)
    ignored ←
        call w "plant" "restore" a.next_step_index (on_plant (r.restore_plant a.plant_snapshot))
    state ← restore_controller r.restore_controller a.next_step_index a.controller_state
    modify (λ s. record s {
      controller_state = state;
      samples = a.samples;
      events = a.events;
      last_action = d.last_action;
      current_time = d.time_s;
    })
    raise_when (not (is_finite (start_of d a.next_step_index)))
        (value_error "checkpoint run_start_time must be finite")
    pure (a.next_step_index, start_of d a.next_step_index)
