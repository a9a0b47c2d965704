-- ===== src/Runner/Loop.antt =====
-- The loop of `Runner.run`, src/pe_sim/runtime.py: a window for each index, the checkpoints, and
-- the hooks that interrupt and cancel a run. The progress events are those of the module Events.
pub mod Keeping
pub mod Driven
pub mod Counting
pub mod Cadence
use Prim.Native.String.{◌++◌ as append}
use power_electronics_ai_sim.Base.{
  ℕ, zero, suc, ◌%◌, String, Bool, true, false, not, ◌&&◌, Option, none, some, List, [], ◌∷◌, ◌++◌,
  length, ◌==◌, leb, if◌then◌else◌, Result,
}
use power_electronics_ai_sim.Number.{Number}
use power_electronics_ai_sim.Contracts.{Payload, Mapping}
use power_electronics_ai_sim.Runner.{Thrown, interrupted, cancelled, type_error, Literals}
use power_electronics_ai_sim.Runner.State.{World, Checkpoint, Run, M}
use power_electronics_ai_sim.Runner.World.{
  pure, raise, raise_when, lift, get_state, modify, on_plant, on_controller, ◌>>=◌, ◌>>◌, call,
}
use power_electronics_ai_sim.Runner.Window.Step.{run_window}

-- `limit is not None and count >= limit`
abbrev pub reached : Option ℕ → ℕ → Bool
reached none count = false
reached (some limit) count = leb limit count

-- `interval and (index + 1) % interval == 0`
abbrev pub is_due : ℕ → ℕ → Bool
is_due interval index = not (interval == 0) && suc index % interval == 0

module _ {num : Number} {P C : Type 0} (w : World num P C) where
  plant_snapshot :
      ℕ
      → Option (P → Result Thrown (Mapping (Payload num.Value)) × P)
      → M num P C (Mapping (Payload num.Value))
  plant_snapshot next_index none = raise (type_error "plant missing snapshot() for checkpoint")
  plant_snapshot next_index (some snapshot) =
      call w "plant" "snapshot" next_index (on_plant snapshot)

  -- The controller's own snapshot, or the state that the runner keeps for it.
  controller_snapshot :
      ℕ
      → Option (C → Result Thrown (Mapping (Payload num.Value)) × C)
      → M num P C (Mapping (Payload num.Value))
  controller_snapshot next_index none = do s ← get_state; pure s.controller_state
  controller_snapshot next_index (some snapshot) =
      call w "controller" "snapshot" next_index (on_controller snapshot)

  abbrev checkpoint_of :
      ℕ → Mapping (Payload num.Value) → Mapping (Payload num.Value) → Run num P C → Checkpoint num
  checkpoint_of next_index plant_state controller_state s = record {
    next_step_index = next_index;
    time_s = s.current_time;
    run_start_time = w.run_start_time;
    last_action = s.last_action;
    plant_snapshot = plant_state;
    controller_state = controller_state;
    samples = s.samples;
    events = s.events;
  }

  abbrev add_checkpoint : Checkpoint num → Run num P C → Run num P C
  add_checkpoint c s = record s { checkpoints = s.checkpoints ++ c ∷ [] }

  -- `_write_checkpoint`
  unfoldable pub write_checkpoint : ℕ → M num P C (Unit {0})
  unfolding plant_snapshot controller_snapshot
  write_checkpoint next_index = do
    plant_state ← plant_snapshot next_index w.snapshot_plant
    controller_state ← controller_snapshot next_index w.snapshot_controller
    s ← get_state
    lift (w.write (checkpoint_of next_index plant_state controller_state s))
    modify (add_checkpoint (checkpoint_of next_index plant_state controller_state s))

  due_checkpoint : ℕ → M num P C (Unit {0})
  due_checkpoint index =
      if is_due w.checkpoint_interval_steps index then write_checkpoint (suc index) else pure tt

  -- What follows a window: the checkpoint that is due, and the hooks.
  after_window : ℕ → M num P C (Unit {0})
  unfolding due_checkpoint
  after_window index = do
    due_checkpoint index
    s ← get_state
    raise_when (reached w.interrupt_after_steps (length s.samples)) (
        interrupted
          (append "interrupted after " (append (w.show_count (length s.samples)) " steps")))
    raise_when (reached w.cancel_after_steps (length s.samples))
        (cancelled (append "cancelled after " (append (w.show_count (length s.samples)) " steps")))

module _ {num : Number} {P C : Type 0} (lit : Literals num) (w : World num P C) where
  -- `for index in range(next_step_index, n_steps)`, by the number of windows that remain
  unfoldable pub run_windows : ℕ → ℕ → M num P C (Unit {0})
  unfolding after_window
  run_windows zero index = pure tt
  run_windows (suc count) index = do
    run_window lit w index
    after_window w index
    run_windows count (suc index)
