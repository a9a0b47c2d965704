-- ===== src/Lifecycle/Examples.antt =====
-- Runs of the lifecycle machine, and the theorems about it at concrete inputs.
use power_electronics_ai_sim.Base.{ℕ, ◌≡◌, refl, List, [], ◌∷◌, none, some}
use power_electronics_ai_sim.Lifecycle.{
  running, run_ok, qualified, comparable, run_failed, known, unknown, Machine, Request, Target, new,
  transition, drive,
}
use power_electronics_ai_sim.Lifecycle.Log.{IsLogged, drive-IsLogged}
use power_electronics_ai_sim.Lifecycle.History.{Explains, history, drive-HasHistory}

abbrev to : Target → Request ℕ
to t = record { target = t; reason = "test"; step_index = some 0; time_s = none }

-- The third and the fourth request are refused.
abbrev script : List (Request ℕ)
script =
    to (known running)
    ∷ to (known run_ok)
    ∷ to (known comparable)
    ∷ to (unknown "DONE")
    ∷ to (known qualified)
    ∷ to (known comparable)
    ∷ to (known run_failed)
    ∷ []

history-script : history (drive (new ℕ) script) ≡ running ∷ run_ok ∷ qualified ∷ comparable ∷ []
unfolding drive transition new
history-script = refl

drive-IsLogged_example : IsLogged (drive (new ℕ) script)
drive-IsLogged_example = drive-IsLogged script

drive-HasHistory_example : Explains (drive (new ℕ) script).status (history (drive (new ℕ) script))
drive-HasHistory_example = drive-HasHistory script

abbrev failed_run : Machine ℕ
failed_run = record { status = run_failed; transitions = [] }
