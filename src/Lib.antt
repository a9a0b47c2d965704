-- ===== src/Lib.antt =====
-- pe-sim, a simulator that drives power converters by AI-written controllers and records what a run is
-- worth as evidence (sources under src/pe_sim/). This library models the parts that decide that worth
-- and that hold a controller to its contract; no part of it computes a waveform.
--
-- How the parts interact. Before a run, the capabilities of the plant and the controller are
-- negotiated. The runner drives a run through the states of the lifecycle. In each window
-- it asks the plant for an observation, has check plugins examine it, hands it to a controller, which
-- may be a compensator and may be wrapped in a protection, projects the action that it requests onto
-- the range of the actuator, and advances the plant. Events tell a client how far the run is. At
-- the end, the plugins qualify the samples, and the evidence level of the run is derived from its route,
-- its provenance and its qualification. A plant that simulates a whole run at once answers with a
-- trace, which is checked afterwards.
--
-- Which file models what:
--   * Lifecycle: src/pe_sim/runner/lifecycle.py. `transition` is `LifecycleStateMachine.transition`; the
--     log is a list, newest first.
--   * Checks, Checks.Plugins, Checks.Outcome: src/pe_sim/checks.py and src/pe_sim/qualification.py. A
--     report is a record, `merge` is `CheckReport.merge`, `run_plugins` is `run_plugins`; a plugin is a
--     parameter that answers with a value or raises.
--   * Checks.Samples: `qualify_samples` and `BasicQualificationPlugin` of src/pe_sim/qualification.py.
--   * Checks.Observations: `ObservationValidityPlugin` of src/pe_sim/checks.py.
--   * Contracts: src/pe_sim/contracts.py, the action request and the values of state mappings.
--   * Negotiation: `CapabilitySet`, `Timebase` and `negotiate_capabilities` of src/pe_sim/contracts.py.
--   * Actions: src/pe_sim/safety.py, the action policies and the observation guard.
--   * Compensator, Compensator.Stored: src/pe_sim/controllers.py, `DiscreteCompensator`. The delay line
--     is a record that the operations take and return.
--   * Protection, Protection.Checkpoint: src/pe_sim/protection.py, `ProtectedController`. The wrapped
--     controller is a parameter, with its own state, that may raise.
--   * Events: src/pe_sim/run_events.py. A sink is a parameter, with its own state, that accepts, raises an
--     `Exception` or raises what is none.
--   * TimeModel, TimeModel.Trace: src/pe_sim/time_model.py, the routes, their caps, and the checks of a
--     trace. Problem texts are constructors.
--   * Runner: `Runner.run` of src/pe_sim/runtime.py, its resume and its loop, with src/pe_sim/runner/audit.py.
--     Runner.State is the state of a run and the World of its plant, controller, policy, plugins and
--     writer, which are parameters that answer or raise; Runner.World its statements and `call`, which is
--     `AuditRecorder.call`. Runner.Schedule: `_command_at` and `_next_change_point`; Runner.Segments:
--     `_advance_segments`; Runner.Window and Runner.Window.Step: one control window; Runner.Loop: the
--     loop and `_write_checkpoint`; Runner.Failures: `_failure_record`; Runner.Outcome: the
--     qualification and the handlers; Runner.Resume and Runner.Resume.Restore: the checks of a
--     checkpoint document and the restored state, with the status that `_load_checkpoint` adds to it.
--   * Evidence: `_route_capabilities` and `_derive_evidence_level` of src/pe_sim/runtime.py.
--   * Base, Number: shared helpers. No code of its own.
--
-- How code becomes definitions. A method that changes its object takes the object's state and returns it,
-- also where it raises. A Python exception is the `err` of a `Result`. A dict is an association list. A
-- float is a value of a `Number`, a parameter; the theorems that need its order assume `Laws`, the total
-- order of the finite IEEE 754 values, and nothing of rounding, so that they hold of the program's
-- arithmetic. Comparisons says how any values compare, NaN included, and LiteralLaws what it is to add
-- 1e-12 or to subtract 1e-15. The scaled integers of Number.Scaled satisfy these laws and are what the
-- examples run on.
-- `as_float` is Python's `float()` on a value of a mapping, `none` where it raises.
--
-- Bounds and fuel. The two loops of `_advance_segments` run on fuel; every other loop runs over a list
-- or a count, and is structural recursion. The fuel of the outer loop is the number of scheduled inputs
-- and two; that of the inner one is a field of World. A loop that lacks fuel raises `out_of_fuel`, which
-- no handler catches. Python's integers are unbounded, and natural numbers stand for counts.
--
-- Not modelled: the start of a fresh run (reset and its first observation) and what is written after
-- it, studies, circuit topology and netlists, SPICE import, parameter records and claims, registries and
-- the validation of specifications, which are deterministic and would fit this style; and plants, metrics
-- and frequency analysis, which are floating-point computation, and files, processes and the command line.
pub mod Actions
pub mod Base
pub mod Negotiation
pub mod Number
pub mod Lifecycle
pub mod Checks
pub mod TimeModel
pub mod Evidence
pub mod Events
pub mod Contracts
pub mod Protection
pub mod Runner
pub mod Compensator
