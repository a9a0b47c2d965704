-- ===== src/Runner/Segments.antt =====
-- `_advance_segments` of src/pe_sim/runtime.py: one action over a duration, split at the changes of
-- the input schedule and into solve steps. The times at which its two loops turn do not depend on
-- what the plant answers, so they are computed first, on fuel, and the plant is called for each.
pub mod Termination
pub mod Ending
pub mod Driving
use power_electronics_ai_sim.Base.{
  ℕ, zero, suc, ◌+◌, Bool, false, not, ◌&&◌, ◌||◌, Option, none, some, List, [], ◌∷◌, length,
  default_to, if◌then◌else◌, Result, ok, err,
}
use power_electronics_ai_sim.Number.{Number, min_of}
use power_electronics_ai_sim.Contracts.{Payload, Mapping, PlantObservation}
use power_electronics_ai_sim.Runner.{Thrown, value_error, out_of_fuel, Literals}
use power_electronics_ai_sim.Runner.Schedule.{ScheduledInput, command_at, next_change_point}
use power_electronics_ai_sim.Runner.State.{World, M}
use power_electronics_ai_sim.Runner.World.{pure, raise_when, lift, on_plant, ◌>>=◌, ◌>>◌, call}

abbrev pub also {ℓ} : {A : Type ℓ} → A → Option (List A) → Option (List A)
also x none = none
also x (some xs) = some (x ∷ xs)

module _ (num : Number) where
  open num use {Value, is_finite, le, lt, plus, minus, nought}

  -- `abs(a - b) > tolerance`
  abbrev pub far : Value → Value → Value → Bool
  far tolerance a b = lt tolerance (minus a b) || lt tolerance (minus b a)

  -- `float(plant_step) if plant_step else None`
  abbrev pub quantum_of : Option Value → Option Value
  quantum_of none = none
  quantum_of (some step) = if le step nought && le nought step then none else some step

  -- `remaining if quantum is None else min(quantum, remaining)`
  abbrev pub solve_step : Option Value → Value → Value
  solve_step none remaining = remaining
  solve_step (some quantum) remaining = min_of num quantum remaining

  -- The solve steps of one segment: `while remaining > 1e-15`.
  unfoldable pub solve_steps : Literals num → Option Value → ℕ → Value → Option (List Value)
  solve_steps lit quantum zero remaining = if lt lit.femto remaining then none else some []
  solve_steps lit quantum (suc n) remaining =
      let later = solve_steps lit quantum n (minus remaining (solve_step quantum remaining)) in
      if lt lit.femto remaining then also (solve_step quantum remaining) later else some []

  -- `end_time if change is None else change`
  abbrev pub segment_end : Literals num → List (ScheduledInput num) → Value → Value → Value
  segment_end lit schedule end_time start =
      default_to end_time (next_change_point num lit schedule start end_time)

  -- Where the segments start and end: `while segment_start < end_time - 1e-15`.
  unfoldable pub segments :
      Literals num → List (ScheduledInput num) → Value → ℕ → Value → Option (List (Value × Value))
  segments lit schedule end_time zero start =
      if lt start (minus end_time lit.femto) then none else some []
  segments lit schedule end_time (suc n) start =
      let later = segments lit schedule end_time n (segment_end lit schedule end_time start) in
      if lt start (minus end_time lit.femto)
      then also (start, segment_end lit schedule end_time start) later
      else some []

  -- An observation that does not stand at the expected end
  abbrev pub misses : Value → Value → Option (PlantObservation num) → Bool
  misses tolerance expected none = false
  misses tolerance expected (some obs) =
      not (is_finite obs.time_s) || far tolerance obs.time_s expected

abbrev pub or_out_of_fuel {ℓ} : {A : Type ℓ} → Option A → Result Thrown A
or_out_of_fuel none = err out_of_fuel
or_out_of_fuel (some a) = ok a

-- The later of two observations that were answered
abbrev pub latest {ℓ} : {A : Type ℓ} → Option A → Option A → Option A
latest last none = last
latest last (some value) = some value

module _ {num : Number} {P C : Type 0} where
  advance_steps :
      World num P C
      → ℕ
      → num.Value
      → Mapping (Payload num.Value)
      → List num.Value
      → Option (PlantObservation num)
      → M num P C (Option (PlantObservation num))
  advance_steps w step_index action external [] last = pure last
  advance_steps w step_index action external (d ∷ ds) last = do
    value ← call w "plant" "advance" step_index (on_plant (w.advance_plant action d external))
    advance_steps w step_index action external ds (latest last value)

  advance_each :
      Literals num
      → World num P C
      → ℕ
      → num.Value
      → List (num.Value × num.Value)
      → Option (PlantObservation num)
      → M num P C (Option (PlantObservation num))
  unfolding advance_steps
  advance_each lit w step_index action [] last = pure last
  advance_each lit w step_index action ((start, end) ∷ rest) last = do
    external ← lift (command_at num lit w.input_schedule start)
    steps ← lift (
        or_out_of_fuel (
          solve_steps num lit (quantum_of num w.timebase.plant_step_s) w.max_rounds
            (num.minus end start)))
    last ← advance_steps w step_index action external steps last
    advance_each lit w step_index action rest last

  -- `_advance_segments(plant, action, duration, schedule, start_time_s, ...)`
  unfoldable pub advance_segments :
      Literals num
      → World num P C
      → ℕ
      → num.Value
      → num.Value
      → num.Value
      → num.Value
      → M num P C (Option (PlantObservation num))
  unfolding advance_each
  advance_segments lit w step_index action duration start expected_end =
      if num.le duration lit.femto then pure none else (do
        bounds ← lift (
            or_out_of_fuel (
              segments num lit w.input_schedule (num.plus start duration)
                (length w.input_schedule + 2) start))
        last ← advance_each lit w step_index action bounds none
        raise_when (misses num w.timebase.event_tolerance_s expected_end last)
            (value_error "plant did not reach the requested time window endpoint")
        pure last)
