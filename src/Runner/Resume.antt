-- ===== src/Runner/Resume.antt =====
-- Resuming a run from a checkpoint, in `Runner.run` of src/pe_sim/runtime.py: the checks of the
-- document, and the restored state. `float` and `int` have been applied to its numbers; the hash of a
-- document is a parameter. The `resume` event is left out.
pub mod Restore
pub mod Trust
mod Examples
use power_electronics_ai_sim.Base.{
  ℕ, suc, String, Bool, true, false, not, ◌&&◌, ◌||◌, Option, none, some, List, [], ◌∷◌, length,
  ltb, ◌==◌, str_eq, default_to, is_some, all, if◌then◌else◌, Result, ok, err, raise_if, ◌>>=◌,
  ◌>>◌,
}
use power_electronics_ai_sim.Number.{Number}
use power_electronics_ai_sim.Contracts.{Payload, Mapping, get}
use power_electronics_ai_sim.Checks.Observations.{Whole, whole, below}
use power_electronics_ai_sim.Runner.{Thrown, value_error}
use power_electronics_ai_sim.Runner.State.{Row, WindowEvent}

-- What a checkpoint says of the experiment that wrote it, or an experiment of itself.
pub record Identity : Type 0 where
  pub experiment_id : String
  pub plant_id : String
  pub controller_id : String
  pub plant_hash : String
  pub controller_hash : String
  pub contract_hashes : Mapping String
  pub experiment_spec_hash : String
  pub controller_state_protocol : String

abbrev pub text_length : String → ℕ
text_length String.[] = 0
text_length (String.◌∷◌ c s) = suc (text_length s)

abbrev found_hash : String → Option String → Bool
found_hash hash none = false
found_hash hash (some other) = str_eq hash other

-- `==` of two dicts of hashes
unfoldable pub same_hashes : Mapping String → Mapping String → Bool
same_hashes a b = length a == length b && all (λ e. found_hash e.1 (get e.0 b)) a

-- `status not in {None, "INCOMPLETE", "RUN_FAILED"}`, where the source is known
abbrev pub is_resumable : Option String → Bool
is_resumable none = true
is_resumable (some status) = str_eq status "INCOMPLETE" || str_eq status "RUN_FAILED"

abbrev pub same_ids : Identity → Identity → Bool
same_ids a b =
    str_eq a.experiment_id b.experiment_id
    && (str_eq a.plant_id b.plant_id && str_eq a.controller_id b.controller_id)

abbrev pub is_protocol : String → Bool
is_protocol s = str_eq s "snapshot_restore" || str_eq s "reset_serialized_state"

abbrev pub required {ℓ} : {A : Type ℓ} → Option A → String → Result Thrown A
required none message = err (value_error message)
required (some a) message = ok a

abbrev pub non_negative : Whole → Result Thrown ℕ
non_negative (whole n) = ok n
non_negative (below n) = err (value_error "checkpoint next_step_index must be non-negative")

module _ (num : Number) where
  open num use {Value, is_finite, lt, nought}

  -- The document. A field is `none` where it is no list, or no object; the status is that of the
  -- run that it was taken from.
  pub record Saved : Type 0 where
    pub source_status : Option String
    pub next_step_index : Whole
    pub time_s : Value
    pub run_start_time : Option Value
    pub last_action : Value
    pub plant_snapshot : Option (Mapping (Payload Value))
    pub controller_state : Option (Mapping (Payload Value))
    pub samples : Option (List (Row num))
    pub events : Option (List (WindowEvent num))
    pub identity : Identity
    pub checkpoint_hash : Option String

  -- What is used of an accepted document
  pub record Accepted : Type 0 where
    pub next_step_index : ℕ
    pub plant_snapshot : Mapping (Payload Value)
    pub controller_state : Mapping (Payload Value)
    pub samples : List (Row num)
    pub events : List (WindowEvent num)

  -- The document without its own hash, of which the hash is taken
  abbrev pub unsigned : Saved → Saved
  unsigned d = record d { source_status = none; checkpoint_hash = none }

  -- What the document must say for this experiment and its components
  unfoldable pub check_identity : Bool → Identity → Identity → Result Thrown (Unit {0})
  unfolding same_hashes
  check_identity has_restore expected found = do
    raise_if (not (str_eq found.plant_hash expected.plant_hash))
        (value_error "checkpoint plant identity mismatch")
    raise_if (not (str_eq found.controller_hash expected.controller_hash))
        (value_error "checkpoint controller identity mismatch")
    raise_if (not (same_hashes found.contract_hashes expected.contract_hashes))
        (value_error "checkpoint contract identity mismatch")
    raise_if (not (str_eq found.experiment_spec_hash expected.experiment_spec_hash))
        (value_error "checkpoint experiment specification mismatch")
    raise_if (not (is_protocol found.controller_state_protocol))
        (value_error "checkpoint controller state protocol is unsupported")
    raise_if (not (str_eq found.controller_state_protocol expected.controller_state_protocol))
        (value_error "checkpoint controller state protocol mismatch")
    raise_if (str_eq found.controller_state_protocol "snapshot_restore" && not has_restore)
        (value_error "checkpoint requires controller snapshot()/restore() protocol")

  unfoldable pub check_hash : (Saved → String) → Saved → Option String → Result Thrown (Unit {0})
  check_hash digest d recorded = do
    expected ← required recorded "checkpoint hash missing"
    raise_if (not (text_length expected == 64)) (value_error "checkpoint hash missing")
    raise_if (not (str_eq (digest (unsigned d)) expected)) (value_error "checkpoint hash mismatch")

  unfoldable pub check_origin :
      (Saved → String) → Bool → Identity → Saved → Result Thrown (Unit {0})
  unfolding check_identity check_hash
  check_origin digest has_restore expected d = do
    raise_if (not (same_ids d.identity expected))
        (value_error "checkpoint identity does not match experiment")
    check_hash digest d d.checkpoint_hash
    check_identity has_restore expected d.identity

  -- `digest` is the hash of the document, `has_restore` whether the controller has `snapshot` and
  -- `restore`.
  unfoldable pub check_saved : (Saved → String) → Bool → Identity → Saved → Result Thrown Accepted
  unfolding check_origin
  check_saved digest has_restore expected d = do
    raise_if (not (is_resumable d.source_status))
        (value_error "resume source must be INCOMPLETE or RUN_FAILED")
    next_index ← non_negative d.next_step_index
    raise_if (not (is_finite d.time_s) || lt d.time_s nought)
        (value_error "checkpoint time_s must be finite and non-negative")
    samples ← required d.samples "checkpoint samples and events must be arrays"
    events ← required d.events "checkpoint samples and events must be arrays"
    raise_if (ltb next_index (length samples))
        (value_error "checkpoint samples exceed next_step_index")
    plant_snapshot ← required d.plant_snapshot "checkpoint plant_snapshot must be an object"
    controller_state ← required d.controller_state "checkpoint controller_state must be an object"
    raise_if (not (is_finite d.last_action)) (value_error "checkpoint last_action must be finite")
    check_origin digest has_restore expected d
    ok (record {
      next_step_index = next_index;
      plant_snapshot = plant_snapshot;
      controller_state = controller_state;
      samples = samples;
      events = events;
    })
