-- ===== src/Runner/Segments/Ending.antt =====
-- `_advance_segments` of src/pe_sim/runtime.py ends, given a plant whose calls end.
use power_electronics_ai_sim.Base.{
  ℕ, ◌+◌, ◌≤◌, ◌≡◌, true, inl, inr, Option, none, some, List, [], ◌∷◌, length, arith, All,
  Bool-cases, is_some,
}
use power_electronics_ai_sim.Number.{Number}
use power_electronics_ai_sim.Number.Comparisons.{Comparisons}
use power_electronics_ai_sim.Contracts.{Payload, Mapping, PlantObservation}
use power_electronics_ai_sim.Runner.{Literals, LiteralLaws, value_error}
use power_electronics_ai_sim.Runner.Schedule.{
  ScheduledInput, by_time, apply_inputs, command_at, is_invalid,
}
use power_electronics_ai_sim.Runner.State.{World, Run, M}
use power_electronics_ai_sim.Runner.World.{pure, lift, raise_when, ◌>>=◌, ◌>>◌}
use power_electronics_ai_sim.Runner.World.Statements.{
  Ended, Ends, >>=-Ends, call-Ends, on_plant-Ends, raise_when-Ends,
}
use power_electronics_ai_sim.Runner.Segments.{
  quantum_of, segments, or_out_of_fuel, latest, misses, advance_steps, advance_each,
  advance_segments,
}
use power_electronics_ai_sim.Runner.Segments.Termination.{Shrinks, solve_steps_end, segments_end}

module _ {num : Number} where
  apply_inputs-Ended :
      (lit : Literals num) (t : num.Value) (rest : List (ScheduledInput num))
      (command : Mapping (Payload num.Value))
      → Ended (apply_inputs num lit t rest command)
  unfolding apply_inputs
  apply_inputs-Ended lit t [] command = tt
  apply_inputs-Ended lit t (item ∷ rest) command = elim (Bool-cases (is_invalid num item)) [
    | inl bad ↦ rw bad tt
    | inr good ↦ rw good (apply_inputs-Ended lit t rest _)
  ]

  pub command_at-Ended :
      (lit : Literals num) (schedule : List (ScheduledInput num)) (t : num.Value)
      → Ended (command_at num lit schedule t)
  unfolding command_at
  command_at-Ended lit schedule t = apply_inputs-Ended lit t (by_time num schedule) _

or_out_of_fuel-Ended {ℓ} : {A : Type ℓ} (o : Option A) → is_some o ≡ true → Ended (or_out_of_fuel o)
or_out_of_fuel-Ended none h = absurd (ground arith)
or_out_of_fuel-Ended (some a) h = tt

module _ (num : Number) where
  -- Every segment is within the bound, and there is fuel for its solve steps.
  abbrev pub RoundsFit :
      num.Value → (num.Value → ℕ) → ℕ → Option (List (num.Value × num.Value)) → Type 0
  RoundsFit bound rounds n none = Unit
  RoundsFit bound rounds n (some bounds) =
      All (λ b. (num.le (num.minus b.1 b.0) bound ≡ true) × (rounds (num.minus b.1 b.0) ≤ n)) bounds

module _ {num : Number} {P C : Type 0} where
  open num use {Value, minus}

  -- The plant's `advance` returns or raises, whatever it is given.
  abbrev pub PlantEnds : World num P C → Type 0
  PlantEnds w =
      (action duration : Value) (external : Mapping (Payload Value)) (p : P)
      → Ended (w.advance_plant action duration external p).0

  advance_steps-Ends :
      (w : World num P C) (i : ℕ) (action : Value) (external : Mapping (Payload Value))
      (ds : List Value) (last : Option (PlantObservation num))
      → PlantEnds w
      → Ends (advance_steps w i action external ds last)
  unfolding advance_steps
  advance_steps-Ends w i action external [] last ends = λ s. tt
  advance_steps-Ends w i action external (d ∷ ds) last ends =
      >>=-Ends _ _
        (call-Ends w "plant" "advance" i _
          (on_plant-Ends (w.advance_plant action d external) (ends action d external)))
        (λ value. advance_steps-Ends w i action external ds (latest last value) ends)

  module _ (cmp : Comparisons num) {lit : Literals num} (literal : LiteralLaws num lit)
      (w : World num P C) (bound : Value) (rounds : Value → ℕ) (ends : PlantEnds w)
      (shrinks : Shrinks cmp literal bound (quantum_of num w.timebase.plant_step_s) rounds) where
    advance_each-Ends :
        (i : ℕ) (action : Value) (bounds : List (Value × Value))
        (last : Option (PlantObservation num))
        → RoundsFit num bound rounds w.max_rounds (some bounds)
        → Ends (advance_each lit w i action bounds last)
    unfolding advance_each
    advance_each-Ends i action [] last fit = λ s. tt
    advance_each-Ends i action ((start, end) ∷ rest) last ((within, fit), fits) =
        >>=-Ends _ _ (λ s. command_at-Ended lit w.input_schedule start)
          (λ external.
            >>=-Ends _ _
              (λ s. or_out_of_fuel-Ended _ (
                solve_steps_end cmp literal bound _ rounds w.max_rounds (minus end start) shrinks
                  within fit))
              (λ steps.
                >>=-Ends _ _ (advance_steps-Ends w i action external steps last ends)
                  (λ later. advance_each-Ends i action rest later fits)))

    -- The statements after the bounds of the segments are known
    abbrev from_bounds :
        ℕ → Value → Value → List (Value × Value) → M num P C (Option (PlantObservation num))
    from_bounds i action expected bounds = do
      last ← advance_each lit w i action bounds none
      raise_when (misses num w.timebase.event_tolerance_s expected last)
          (value_error "plant did not reach the requested time window endpoint")
      pure last

    within_bounds :
        (i : ℕ) (action expected : Value) (bounds : Option (List (Value × Value)))
        → is_some bounds ≡ true
        → RoundsFit num bound rounds w.max_rounds bounds
        → Ends (
            lift {num = num} {P = P} {C = C} (or_out_of_fuel bounds)
            >>= from_bounds i action expected)
    unfolding ◌>>=◌
    within_bounds i action expected none h fit = absurd (ground arith)
    within_bounds i action expected (some bounds) h fit =
        >>=-Ends _ _ (advance_each-Ends i action bounds none fit) (λ last.
          >>=-Ends _ _
            (raise_when-Ends (misses num w.timebase.event_tolerance_s expected last) _ tt)
            (λ u s. tt))

    -- Where the plant's calls end, the segments are within a bound below which each solve step
    -- shortens what remains, and the inner fuel covers every segment, `_advance_segments` returns or
    -- raises: the fuel of the outer loop is enough.
    pub advance_segments-Ends :
        (i : ℕ) (action duration start expected : Value) (s : Run num P C)
        → RoundsFit num bound rounds w.max_rounds (
            segments num lit w.input_schedule
              (num.plus start duration)
              (length w.input_schedule + 2)
              start)
        → Ended (advance_segments lit w i action duration start expected s).0
    unfolding advance_segments
    advance_segments-Ends i action duration start expected s fit =
        elim (Bool-cases (num.le duration lit.femto)) [
          | inl none_left ↦ rw none_left tt
          | inr some_left ↦ rw some_left (
              within_bounds i action expected _
                (segments_end cmp literal w.input_schedule (num.plus start duration) start) fit s)
        ]
