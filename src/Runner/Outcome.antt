-- ===== src/Runner/Outcome.antt =====
-- How a run ends in `Runner.run`, src/pe_sim/runtime.py: the qualification after the loop, and the
-- three handlers of what is raised. The source appends their events to `events`; they stand in
-- `failures` here.
pub mod Handlers
pub mod Settled
use Prim.Native.String.{◌++◌ as append}
use power_electronics_ai_sim.Base.{
  ℕ, ◌+◌, String, Bool, true, false, Option, none, some, List, [], ◌∷◌, ◌++◌, length, any, str_eq,
  if◌then◌else◌, Result, ok, err,
}
use power_electronics_ai_sim.Number.{Number}
use power_electronics_ai_sim.Lifecycle.{
  Status, qualified, disqualified, run_ok, run_failed, incomplete, known, Machine, TransitionError,
  transition,
}
use power_electronics_ai_sim.Checks.{CheckReport, level, failed, failure_report, merge}
use power_electronics_ai_sim.Checks.Plugins.{normalise}
use power_electronics_ai_sim.Checks.Outcome.{Document, qualification_document}
use power_electronics_ai_sim.Runner.{
  Thrown, Failure, interrupted, cancelled, out_of_fuel, plain, Literals,
}
use power_electronics_ai_sim.Runner.State.{
  World, Run, M, FailureEvent, failure, checkpoint_failure, sampled, CheckContext, or_check_error,
}
use power_electronics_ai_sim.Runner.World.{
  pure, raise, lift, get_state, modify, ◌>>=◌, ◌>>◌, call, run_plugins_audited,
}
use power_electronics_ai_sim.Runner.Loop.{write_checkpoint, run_windows}
use power_electronics_ai_sim.Runner.Failures.{failure_category, observation_failures}

-- What a run records: the qualification document, and what ended it, if anything did.
pub record Conclusion : Type 0 where
  pub document : Document
  pub error : Option Thrown

abbrev pub has_findings : Option CheckReport → Bool
has_findings none = false
has_findings (some r) = elim r.findings [ [] ↦ false | f ∷ fs ↦ true ]

abbrev pub failure_reasons : String → List String
failure_reasons category =
    category ∷ (if str_eq category "timing_violation" then "runtime_error" ∷ [] else [])

module _ {num : Number} {P C : Type 0} (w : World num P C) where
  abbrev moved :
      Result TransitionError (Machine num.Value)
      → Run num P C
      → Result Thrown (Unit {0}) × Run num P C
  moved (ok m) s = (ok tt, record s { machine = m })
  moved (err e) s = (err (plain "LifecycleTransitionError" "invalid run state transition"), s)

  -- `machine.transition(...)`
  pub move : Status → String → ℕ → M num P C (Unit {0})
  move target reason step_index s =
      moved
        (transition s.machine (record {
          target = known target;
          reason = reason;
          step_index = some step_index;
          time_s = some s.current_time;
        }))
        s

  pub merge_qualification : CheckReport → M num P C (Unit {0})
  merge_qualification report =
      modify (λ s. record s { qualification_report = merge s.qualification_report report })

  -- What follows the loop: the qualification callback, the chain of plugins, and the document.
  pub qualify : ℕ → M num P C Document
  unfolding merge_qualification
  qualify n_steps = do
    s ← get_state
    answer ← call w "qualification" "check" n_steps (lift (w.check_samples s.samples))
    legacy ← lift (or_check_error (normalise (some "legacy-qualification") answer))
    merge_qualification legacy
    plugins ←
        run_plugins_audited w w.qualification_chain "check_samples" (sampled s.samples) (record {
          step_index = n_steps;
          current_time_s = s.current_time;
          previous_observation_time_s = none;
          primary_measurement = w.primary_key;
          phase = "postrun";
        })
    merge_qualification plugins
    t ← get_state
    lift (or_check_error (qualification_document t.qualification_report none none))

  pub judge : ℕ → Bool → M num P C (Unit {0})
  unfolding move
  judge n_steps true = move qualified "qualification_passed" n_steps
  judge n_steps false = move disqualified "qualification_failed" n_steps

  pub complete : ℕ → Document → M num P C Conclusion
  unfolding move judge
  complete n_steps document = do
    move run_ok "completed" n_steps
    s ← get_state
    judge n_steps s.qualification_report.passed
    pure (record { document = document; error = none })

  pub note_failure : FailureEvent num → M num P C (Unit {0})
  note_failure event = modify (λ s. record s { failures = s.failures ++ event ∷ [] })

  pub failed_document : List String → M num P C Document
  failed_document reasons = do
    s ← get_state
    lift (
        or_check_error
          (qualification_document s.qualification_report (some (level failed)) (some reasons)))

  -- `try: ... except Exception`: an interrupt is no `Exception`.
  caught : Result Thrown (Unit {0}) × Run num P C → Result Thrown (Unit {0}) × Run num P C
  unfolding note_failure
  caught (ok u, s) = (ok u, s)
  caught (err (interrupted text), s) = (err (interrupted text), s)
  caught (err out_of_fuel, s) = (err out_of_fuel, s)
  caught (err e, s) = note_failure (checkpoint_failure e (length s.samples) s.current_time) s

  pub try_checkpoint : M num P C (Unit {0})
  unfolding caught
  try_checkpoint s = caught (write_checkpoint w (length s.samples) s)

  -- The handlers of `KeyboardInterrupt` and of `SimulationCancelledError`
  pub handle_incomplete : String → Thrown → M num P C Conclusion
  unfolding note_failure move try_checkpoint failed_document
  handle_incomplete category e = do
    s ← get_state
    note_failure (failure category e (length s.samples) s.current_time)
    move incomplete category (length s.samples)
    try_checkpoint
    document ← failed_document ("incomplete" ∷ category ∷ [])
    pure (record { document = document; error = some e })

  -- A rejected observation that no plugin saw is put into the validity report.
  pub note_observation : Failure → String → M num P C (Unit {0})
  note_observation f category =
      if has_findings f.report
      then pure tt
      else if any (λ c. str_eq category c) observation_failures
      then (do
        report ← lift (
            or_check_error (
              failure_report category f.message (append "runner." category)
                (some "runner-observation-boundary")))
        modify (λ s. record s { validity_report = merge s.validity_report report }))
      else pure tt

  -- The handler of `Exception`
  pub handle_failure : Failure → M num P C Conclusion
  unfolding note_observation note_failure move failed_document
  handle_failure f = do
    s ← get_state
    let category : String = failure_category w f s.calls
    note_observation f category
    note_failure (failure category (Thrown.failed f) (length s.samples) s.current_time)
    move run_failed category (length s.samples)
    document ← failed_document (failure_reasons category)
    pure (record { document = document; error = some (Thrown.failed f) })

  pub settle : Result Thrown Conclusion × Run num P C → Result Thrown Conclusion × Run num P C
  unfolding handle_incomplete handle_failure
  settle (ok c, s) = (ok c, s)
  settle (err (interrupted text), s) = handle_incomplete "interrupted" (interrupted text) s
  settle (err (cancelled text), s) = handle_incomplete "cancelled" (cancelled text) s
  settle (err (Thrown.failed f), s) = handle_failure f s
  settle (err out_of_fuel, s) = (err out_of_fuel, s)

module _ {num : Number} {P C : Type 0} (lit : Literals num) (w : World num P C) where
  -- The `try` of `Runner.run` from its loop on, over `n` windows from `i` on
  body : ℕ → ℕ → M num P C Conclusion
  unfolding qualify complete
  body n i = do run_windows lit w n i; document ← qualify w (i + n); complete w (i + n) document

  unfoldable pub run : ℕ → ℕ → M num P C Conclusion
  unfolding body settle
  run n i s = settle w (body n i s)
