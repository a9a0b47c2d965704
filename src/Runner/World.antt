-- ===== src/Runner/World.antt =====
-- Statements on the state of a run in src/pe_sim/runtime.py, and the audited call of
-- src/pe_sim/runner/audit.py.
pub mod Statements
pub mod Triples
use power_electronics_ai_sim.Base.{
  ℕ, suc, String, Bool, true, false, Option, none, some, List, [], ◌∷◌, ◌++◌, if◌then◌else◌, Result,
  ok, err,
}
use power_electronics_ai_sim.Number.{Number}
use power_electronics_ai_sim.Contracts.{Payload, Mapping, ActionRequest, PlantObservation}
use power_electronics_ai_sim.Negotiation.{Timebase}
use power_electronics_ai_sim.Actions.{Reason}
use power_electronics_ai_sim.Lifecycle.{Machine}
use power_electronics_ai_sim.Checks.{
  CheckError, incomplete_finding, unsupported_level, missing_findings, inconsistent_flag,
  level_mismatch, unsupported_result, CheckReport, merge, ok_report,
}
use power_electronics_ai_sim.Checks.Plugins.{Plugin, PluginValue, run_plugin}
use power_electronics_ai_sim.Runner.{Thrown, value_error, type_error}
use power_electronics_ai_sim.Runner.Schedule.{ScheduledInput}
use power_electronics_ai_sim.Runner.State.{
  Call, or_check_error, Row, Subject, CheckContext, WindowEvent, FailureEvent, Timing, Checkpoint,
  World, Run, Standing, M,
}

abbrev error_of {ℓ} : {A : Type ℓ} → Result Thrown A → Option Thrown
error_of (ok a) = none
error_of (err e) = some e

module _ {num : Number} {P C : Type 0} where
  abbrev pub pure : {A : Type 0} → A → M num P C A
  pure a s = (ok a, s)

  abbrev pub raise : {A : Type 0} → Thrown → M num P C A
  raise e s = (err e, s)

  abbrev pub raise_when : Bool → Thrown → M num P C (Unit {0})
  raise_when true e s = (err e, s)
  raise_when false e s = (ok tt, s)

  abbrev pub lift : {A : Type 0} → Result Thrown A → M num P C A
  lift r s = (r, s)

  abbrev pub get_state : M num P C (Run num P C)
  get_state s = (ok s, s)

  abbrev pub modify : (Run num P C → Run num P C) → M num P C (Unit {0})
  modify f s = (ok tt, f s)

  -- Statements on the plant or the controller alone
  abbrev with_plant :
      {A : Type 0} → Run num P C → Result Thrown A × P → Result Thrown A × Run num P C
  with_plant s (r, p) = (r, record s { plant = p })

  abbrev with_controller :
      {A : Type 0} → Run num P C → Result Thrown A × C → Result Thrown A × Run num P C
  with_controller s (r, c) = (r, record s { controller = c })

  abbrev pub on_plant : {A : Type 0} → (P → Result Thrown A × P) → M num P C A
  on_plant f s = with_plant s (f s.plant)

  abbrev pub on_controller : {A : Type 0} → (C → Result Thrown A × C) → M num P C A
  on_controller f s = with_controller s (f s.controller)

  abbrev pub continue :
      {A B : Type 0}
      → (A → M num P C B)
      → Result Thrown A × Run num P C
      → Result Thrown B × Run num P C
  continue k (err e, s) = (err e, s)
  continue k (ok a, s) = k a s

  infixl 5 ◌>>=◌ ◌>>◌
  unfoldable pub ◌>>=◌ : {A B : Type 0} → M num P C A → (A → M num P C B) → M num P C B
  ◌>>=◌ m k s = continue k (m s)

  abbrev pub ◌>>◌ : {A B : Type 0} → M num P C A → M num P C B → M num P C B
  ◌>>◌ m k = m >>= λ ignored. k

  -- The call's entry, appended when it ends, whether it returned or raised.
  log_call :
      {A : Type 0}
      → String
      → String
      → ℕ
      → ℕ
      → Result Thrown A × Run num P C
      → Result Thrown A × Run num P C
  log_call component method step_index call_id (r, s) = (
    r,
    record s {
      calls =
          s.calls
          ++ record {
            call_id = call_id;
            component = component;
            method = method;
            step_index = step_index;
            error = error_of r;
          }
            ∷ [];
    },
  )

  -- `AuditRecorder.call`
  unfoldable pub call :
      {A : Type 0} → World num P C → String → String → ℕ → M num P C A → M num P C A
  unfolding log_call
  call w component method step_index fn s =
      if w.audit_enabled
      then log_call component method step_index (suc s.call_id)
          (fn (record s { call_id = suc s.call_id }))
      else fn s

  run_audited_onto :
      World num P C
      → CheckReport
      → List (Plugin (Subject num) (CheckContext num))
      → String
      → Subject num
      → CheckContext num
      → M num P C CheckReport
  unfolding call
  run_audited_onto w report [] name subject context = pure report
  run_audited_onto w report (p ∷ ps) name subject context = do
    result ←
        call w context.phase p.id context.step_index
          (lift (or_check_error (run_plugin p name subject context)))
    run_audited_onto w (merge report result) ps name subject context

  -- `_run_plugins_audited`
  unfoldable pub run_plugins_audited :
      World num P C
      → List (Plugin (Subject num) (CheckContext num))
      → String
      → Subject num
      → CheckContext num
      → M num P C CheckReport
  unfolding run_audited_onto
  run_plugins_audited w = run_audited_onto w (ok_report none)
