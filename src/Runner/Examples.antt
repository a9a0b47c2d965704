-- ===== src/Runner/Examples.antt =====
-- A run of two windows on a small bench: its plant counts time and keeps the actions that it was
-- advanced by. Times are whole units, and both literals are less than one.
use power_electronics_ai_sim.Base.{
  ◌≡◌, refl, true, false, Option, none, some, List, [], ◌∷◌, arith, All, Result, ok, err,
}
use power_electronics_ai_sim.Number.Scaled.{ℤ, pos, pos_part, scaled, scaled-Laws}
use power_electronics_ai_sim.Number.{InRange}
use power_electronics_ai_sim.Number.Comparisons.{scaled-Comparisons}
use power_electronics_ai_sim.Contracts.{Payload, real, Mapping, ActionRequest, PlantObservation}
use power_electronics_ai_sim.Actions.{BoundedActionPolicy, PolicyError, project_bounded}
use power_electronics_ai_sim.Lifecycle.{running}
use power_electronics_ai_sim.Checks.{CheckReport, incomplete_finding}
use power_electronics_ai_sim.Checks.Plugins.{Plugin, boolean, returned}
use power_electronics_ai_sim.Runner.{
  Thrown, value_error, Failure, scaled_literals, scaled-LiteralLaws,
}
use power_electronics_ai_sim.Runner.Schedule.{ScheduledInput, command_at, next_change_point}
use power_electronics_ai_sim.Runner.State.{World, Run, check_error, Subject, CheckContext}
use power_electronics_ai_sim.Runner.Loop.{run_windows}
use power_electronics_ai_sim.Runner.Loop.Driven.{policy_answer, run_windows_bounded}
use power_electronics_ai_sim.Runner.Loop.Counting.{CountedAfter, run_windows-Counted}
use power_electronics_ai_sim.Runner.Outcome.{handle_failure, run}
use power_electronics_ai_sim.Runner.Outcome.Handlers.{IsSettled, empty_failure_escapes}
use power_electronics_ai_sim.Runner.Outcome.Settled.{run-IsSettled}
use power_electronics_ai_sim.Runner.Failures.{failure_category}
use power_electronics_ai_sim.Runner.Segments.{segments, advance_segments}
use power_electronics_ai_sim.Runner.Segments.Termination.{Shrinks}
use power_electronics_ai_sim.Runner.Segments.Ending.{advance_segments-Ends}
use power_electronics_ai_sim.Runner.World.Statements.{Ended}
use power_electronics_ai_sim.Runner.Schedule.Changes.{IsNext, next_change_point-IsNext}
use power_electronics_ai_sim.Runner.Schedule.Constancy.{command_at_constant}

abbrev as_float : Payload ℤ → Option ℤ
as_float (real v) = some v
as_float p = none

pub record Bench : Type 0 where
  pub time : ℤ
  pub actions : List ℤ

abbrev observation_at : ℤ → PlantObservation scaled
observation_at t = record {
  time_s = t;
  measurement = ("vout", pos 5) ∷ [];
  truth = [];
  age_steps = 0;
  measurement_units = [];
}

abbrev advance_bench :
    ℤ → ℤ → Mapping (Payload ℤ) → Bench → Result Thrown (Option (PlantObservation scaled)) × Bench
advance_bench action duration external bench = (
  ok (some (observation_at (scaled.plus bench.time duration))),
  record { time = scaled.plus bench.time duration; actions = action ∷ bench.actions },
)

-- The request lies above the bounds, and is to be applied three units after the sample.
abbrev request_at : ℤ → ActionRequest scaled
request_at t = record {
  value = pos 25;
  unit = "normalized";
  produced_time_s = t;
  target_time_s = scaled.plus t (pos 3);
  diagnostics = [];
  state_update = some (("seen", real t) ∷ []);
}

abbrev bounds : BoundedActionPolicy scaled
bounds = record { minimum = pos 0; maximum = pos 10 }

abbrev policy_error : PolicyError → Thrown
policy_error e = value_error "non-finite action"

abbrev limits : Plugin (Subject scaled) (CheckContext scaled)
limits = record {
  id = "limits";
  method = λ name. some (λ subject context. returned (boolean true));
}

abbrev load_step : List (ScheduledInput scaled)
load_step = record { time_s = some (pos 6); entries = ("load", real (pos 3)) ∷ [] } ∷ []

abbrev pub bench_world : World scaled Bench (Unit {0})
bench_world = record {
  observe_plant = λ bench. (ok (some (observation_at bench.time)), bench);
  advance_plant = advance_bench;
  snapshot_plant = some (λ bench. (ok (("time", real bench.time) ∷ []), bench));
  observe_controller =
      λ measurement command timing state c. (ok (some (request_at timing.sample_time_s)), c);
  snapshot_controller = none;
  check_measurement = λ measurement. ok (boolean true);
  project = λ v. policy_answer policy_error (project_bounded scaled as_float bounds (real v));
  validity_chain = limits ∷ [];
  safety_chain = limits ∷ [];
  applicability_chain = [];
  check_samples = λ rows. ok (boolean true);
  qualification_chain = limits ∷ [];
  cancelled = λ i. false;
  write = λ c. ok tt;
  timebase = record {
    unit = "s";
    control_period_s = pos 10;
    duration_s = pos 20;
    plant_step_s = some (pos 4);
    sample_offset_s = pos 2;
    event_tolerance_s = pos 0;
  };
  input_schedule = load_step;
  primary_key = "vout";
  target_time_allowed = true;
  audit_enabled = true;
  run_start_time = pos 0;
  checkpoint_interval_steps = 1;
  interrupt_after_steps = none;
  cancel_after_steps = none;
  lower = λ s. s;
  show_count = λ n. "two";
  max_rounds = 10;
}

abbrev no_findings : CheckReport
no_findings = record {
  passed = true;
  findings = [];
  plugin_id = none;
  rule_version = "checks-v1";
  level = none;
  limitations = [];
}

abbrev pub fresh : Run scaled Bench (Unit {0})
fresh = record {
  plant = record { time = pos 0; actions = [] };
  controller = tt;
  controller_state = [];
  call_id = 0;
  calls = [];
  samples = [];
  events = [];
  safety_report = no_findings;
  validity_report = no_findings;
  applicability_report = no_findings;
  qualification_report = no_findings;
  machine = record { status = running; transitions = [] };
  failures = [];
  previous_observation_time = none;
  current_time = pos 0;
  last_action = pos 0;
  checkpoints = [];
}

InBounds : Bench → Type 0
InBounds bench = All (InRange scaled (pos 0) (pos 10)) bench.actions

run_windows_bounded_example :
    InBounds (run_windows scaled_literals bench_world 2 0 fresh).1.plant
    × InRange scaled
        (pos 0)
        (pos 10)
        (run_windows scaled_literals bench_world 2 0 fresh).1.last_action
unfolding InBounds
run_windows_bounded_example =
    run_windows_bounded scaled-Laws as_float InBounds scaled_literals bench_world policy_error
      bounds 2 0 fresh (record { minimum_finite = refl; maximum_finite = refl; ordered = refl })
      (λ v. refl)
      (record {
        observing = λ p h. h;
        advancing = λ a d x p allowed h. (allowed, h);
        snapshotting = λ p h. h;
      })
      tt (refl, refl)

run-IsSettled_example : IsSettled bench_world (run scaled_literals bench_world 2 0 fresh)
run-IsSettled_example = run-IsSettled scaled_literals bench_world 2 0 fresh refl

run_windows-Counted_example :
    CountedAfter scaled_literals bench_world [] 0 2
      (run_windows scaled_literals bench_world 2 0 fresh)
run_windows-Counted_example = run_windows-Counted scaled_literals bench_world 2 0 fresh refl tt

bench-Shrinks : Shrinks scaled-Comparisons scaled-LiteralLaws (pos 5) (some (pos 4)) pos_part
bench-Shrinks remaining h within = (ground arith, ground arith)

advance_segments-Ends_example :
    Ended (advance_segments scaled_literals bench_world 0 (pos 10) (pos 5) (pos 5) (pos 10) fresh).0
unfolding segments next_change_point
advance_segments-Ends_example =
    advance_segments-Ends scaled-Comparisons scaled-LiteralLaws bench_world (pos 5) pos_part
      (λ action duration external p. tt) bench-Shrinks 0 (pos 10) (pos 5) (pos 5) (pos 10) fresh
      ((refl, omega arith), ((refl, omega arith), tt))

command_at_constant_example :
    command_at scaled scaled_literals load_step (pos 5)
    ≡ command_at scaled scaled_literals load_step (pos 0)
unfolding next_change_point
command_at_constant_example =
    command_at_constant scaled-Laws scaled-Comparisons scaled-LiteralLaws load_step (pos 0) (pos 10)
      (pos 5) refl refl

next_change_point-IsNext_example :
    IsNext scaled-Comparisons scaled_literals
      (pos 5)
      (pos 10)
      load_step
      (next_change_point scaled scaled_literals load_step (pos 5) (pos 10))
next_change_point-IsNext_example =
    next_change_point-IsNext scaled-Comparisons scaled_literals (pos 5) (pos 10) load_step

abbrev silent : Failure
silent = record {
  exception_type = "SensorError";
  category = some "missing_measurement";
  message = "";
  report = none;
  is_timeout = false;
}

empty_failure_escapes_example :
    (handle_failure bench_world silent fresh).0 ≡ err (check_error incomplete_finding)
unfolding failure_category
empty_failure_escapes_example = empty_failure_escapes bench_world silent fresh refl refl refl
