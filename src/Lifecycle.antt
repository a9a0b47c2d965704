-- ===== src/Lifecycle.antt =====
-- The run lifecycle, src/pe_sim/runner/lifecycle.py: the transition matrix and the state machine
-- that keeps the log. A status is a string there; the eleven of the matrix are constructors here,
-- and any other string that a caller passes as a target is `unknown`.
pub mod Log
pub mod History
mod Examples
use power_electronics_ai_sim.Base.{
  ℕ, String, Bool, true, false, Option, List, [], ◌∷◌, ◌++◌, length, ◌==◌, any, if◌then◌else◌,
  Result, ok, err,
}

pub data Status : Type 0 where
  created running run_ok qualified learning_eligible : Status
  run_failed incomplete disqualified comparable learning_updated learning_rejected : Status

abbrev pub code : Status → ℕ
code created = 0
code running = 1
code run_ok = 2
code qualified = 3
code learning_eligible = 4
code run_failed = 5
code incomplete = 6
code disqualified = 7
code comparable = 8
code learning_updated = 9
code learning_rejected = 10

-- `_ALLOWED`
abbrev pub allowed : Status → List Status
allowed created = running ∷ run_failed ∷ incomplete ∷ []
allowed running = run_ok ∷ run_failed ∷ incomplete ∷ []
allowed run_ok = qualified ∷ disqualified ∷ []
allowed qualified = comparable ∷ learning_eligible ∷ []
allowed learning_eligible = learning_updated ∷ learning_rejected ∷ []
allowed run_failed = []
allowed incomplete = []
allowed disqualified = []
allowed comparable = []
allowed learning_updated = []
allowed learning_rejected = []

-- `TERMINAL_STATES`
abbrev pub terminal_states : List Status
terminal_states =
    run_failed ∷ incomplete ∷ disqualified ∷ comparable ∷ learning_updated ∷ learning_rejected ∷ []

abbrev pub contains : Status → List Status → Bool
contains s = any (λ t. code t == code s)

pub data Target : Type 0 where
  known : Status → Target
  unknown : String → Target

abbrev pub rule_version : String
rule_version = "runner-state-v2"

-- `time_s` is only stored, so its type is a parameter.
pub record Transition (Time : Type 0) : Type 0 where
  pub sequence : ℕ
  pub from_status : Status
  pub to_status : Status
  pub reason : String
  pub step_index : Option ℕ
  pub time_s : Option Time
  pub version : String

pub record Machine (Time : Type 0) : Type 0 where
  pub status : Status
  pub transitions : List (Transition Time)

-- What one call of `transition` is given.
pub record Request (Time : Type 0) : Type 0 where
  pub target : Target
  pub reason : String
  pub step_index : Option ℕ
  pub time_s : Option Time

-- `LifecycleTransitionError`
pub data TransitionError : Type 0 where
  invalid : Status → Target → TransitionError

unfoldable pub new : (Time : Type 0) → Machine Time
new Time = record { status = created; transitions = [] }

module _ {Time : Type 0} where
  unfoldable pub is_terminal : Machine Time → Bool
  is_terminal m = contains m.status terminal_states

  unfoldable pub can_transition : Machine Time → Target → Bool
  can_transition m (known t) = contains t (allowed m.status)
  can_transition m (unknown name) = false

  record_entry : Machine Time → Request Time → Status → Transition Time
  record_entry m r t = record {
    sequence = length m.transitions;
    from_status = m.status;
    to_status = t;
    reason = r.reason;
    step_index = r.step_index;
    time_s = r.time_s;
    version = rule_version;
  }

  accept : Machine Time → Request Time → Target → Machine Time
  unfolding record_entry
  accept m r (known t) = record {
    status = t;
    transitions = m.transitions ++ record_entry m r t ∷ [];
  }
  accept m r (unknown name) = m

  unfoldable pub transition : Machine Time → Request Time → Result TransitionError (Machine Time)
  unfolding can_transition accept
  transition m r =
      if can_transition m r.target
      then ok (accept m r r.target)
      else err (invalid m.status r.target)

  -- A caller that catches the error goes on with the machine as it was.
  abbrev pub kept : Machine Time → Result TransitionError (Machine Time) → Machine Time
  kept m (ok m') = m'
  kept m (err e) = m

  unfoldable pub drive : Machine Time → List (Request Time) → Machine Time
  drive m [] = m
  drive m (r ∷ rs) = drive (kept m (transition m r)) rs
