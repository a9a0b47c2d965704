-- ===== src/TimeModel/Trace.antt =====
-- The post-hoc checks of a whole-run trace, src/pe_sim/time_model.py: `TraceContract` and
-- `validate_whole_run_result`. A problem is a constructor here, with the sample index that its text
-- names; the texts themselves are left out.
pub mod Valid
use power_electronics_ai_sim.Base.{
  ℕ, zero, suc, ◌+◌, String, Bool, true, false, not, Option, none, some, List, [], ◌∷◌, ◌++◌,
  length, ◌==◌, str_eq, if◌then◌else◌, Result, ok, err, ◌>>=◌, ◌>>◌, raise_if,
}
use power_electronics_ai_sim.Number.{Number}

-- A Python value where the code expects a number: a `bool`; an `int` or `float` as `float()` gives
-- it; an `int` too large for `float()`; anything else.
pub data Datum (Value : Type 0) : Type 0 where
  boolean : Bool → Datum Value
  number : Value → Datum Value
  too_large : Datum Value
  no_number : Datum Value

-- A value with length and indexed access, or one that is not sample-like.
pub data Axis (Value : Type 0) : Type 0 where
  samples : List (Datum Value) → Axis Value
  no_sequence : Axis Value

pub data Label : Type 0 where
  time_s : Label
  signal : String → Label

pub data Problem : Type 0 where
  not_sequence : Label → Problem
  not_real : Label → ℕ → Problem
  no_samples : Problem
  not_increasing : ℕ → Problem
  early_start late_start short_end overrun : Problem
  wide_gap : ℕ → Problem
  no_mapping no_signals : Problem
  misaligned : String → Problem

pub data ArgumentError : Type 0 where
  not_finite not_positive negative unsupported_schema : ArgumentError

-- `expected is None or sample_count == expected`
abbrev pub agrees : Option ℕ → ℕ → Bool
agrees none n = true
agrees (some m) n = n == m

module _ (num : Number) where
  open num use {Value, is_finite, le, lt, plus, minus, nought}

  -- `_strict_float`
  unfoldable pub strict_float : Datum Value → Result ArgumentError Value
  strict_float (number v) = if is_finite v then ok v else err not_finite
  strict_float (boolean b) = err not_finite
  strict_float too_large = err not_finite
  strict_float no_number = err not_finite

  pub record TraceContract : Type 0 where
    pub cadence_s : Value
    pub coverage_tolerance_s : Value

  abbrev pub trace_contract_schema : String
  trace_contract_schema = "pe-sim.trace-contract.v1"

  -- `TraceContract(...)` with its `__post_init__`
  unfoldable pub trace_contract :
      Datum Value → Datum Value → String → Result ArgumentError TraceContract
  unfolding strict_float
  trace_contract cadence tolerance schema = do
    c ← strict_float cadence
    raise_if (le c nought) not_positive
    t ← strict_float tolerance
    raise_if (lt t nought) negative
    raise_if (not (str_eq schema trace_contract_schema)) unsupported_schema
    ok (record { cadence_s = c; coverage_tolerance_s = t })

  -- `WholeRunResult`; its final state and metadata are not read by the checks.
  pub record WholeRunResult : Type 0 where
    pub time_axis : Axis Value
    -- `none` if `signals` is not a mapping
    pub signals : Option (List (String × Axis Value))

  -- `_number_problem(value, label) is None`, with the float that the caller then takes
  abbrev pub real_of : Datum Value → Option Value
  real_of (number v) = if is_finite v then some v else none
  real_of (boolean b) = none
  real_of too_large = none
  real_of no_number = none

  -- The problems of `_finite_values`, from index `i` on.
  value_problems : Label → ℕ → List (Datum Value) → List Problem
  value_problems l i [] = []
  value_problems l i (d ∷ ds) =
      let rest = value_problems l (i + 1) ds in
      elim (real_of d) [ none ↦ not_real l i ∷ rest | some v ↦ rest ]

  -- The numbers of `_finite_values`.
  numbers : List (Datum Value) → List Value
  numbers [] = []
  numbers (d ∷ ds) = let rest = numbers ds in elim (real_of d) [ none ↦ rest | some v ↦ v ∷ rest ]

  -- The result of `_finite_values`: `None` when a value was left out.
  unfoldable pub finite_values : List (Datum Value) → Option (List Value)
  unfolding numbers
  finite_values ds = if length (numbers ds) == length ds then some (numbers ds) else none

  order_problems : Value → ℕ → List Value → List Problem
  order_problems previous i [] = []
  order_problems previous i (t ∷ ts) =
      (if le t previous then not_increasing i ∷ [] else []) ++ order_problems t (i + 1) ts

  start_problems : TraceContract → Value → List Problem
  start_problems c first =
      if lt first (minus nought c.coverage_tolerance_s)
      then early_start ∷ []
      else if lt c.coverage_tolerance_s first
      then late_start ∷ []
      else []

  end_problems : TraceContract → Value → Value → List Problem
  end_problems c duration last =
      if lt last (minus duration c.coverage_tolerance_s)
      then short_end ∷ []
      else if lt (plus duration c.coverage_tolerance_s) last
      then overrun ∷ []
      else []

  gap_problems : TraceContract → Value → ℕ → List Value → List Problem
  gap_problems c previous i [] = []
  gap_problems c previous i (t ∷ ts) =
      (if lt (plus c.cadence_s c.coverage_tolerance_s) (minus t previous)
        then wide_gap i ∷ []
        else [])
      ++ gap_problems c t (i + 1) ts

  abbrev pub last_of : Value → List Value → Value
  last_of t [] = t
  last_of t (u ∷ us) = last_of u us

  -- `_check_time_axis`, on at least one time
  check_time_axis : TraceContract → Value → Value → List Value → List Problem
  unfolding order_problems start_problems end_problems gap_problems
  check_time_axis c duration t ts =
      order_problems t 1 ts
      ++ (start_problems c t ++ (end_problems c duration (last_of t ts) ++ gap_problems c t 1 ts))

  axis_problems : TraceContract → Value → Option (List Value) → List Problem
  unfolding check_time_axis
  axis_problems c duration none = []
  axis_problems c duration (some []) = []
  axis_problems c duration (some (t ∷ ts)) = check_time_axis c duration t ts

  time_problems : TraceContract → Value → Axis Value → List Problem
  unfolding value_problems finite_values axis_problems
  time_problems c duration no_sequence = not_sequence time_s ∷ []
  time_problems c duration (samples []) = no_samples ∷ []
  time_problems c duration (samples (d ∷ ds)) =
      value_problems time_s 0 (d ∷ ds) ++ axis_problems c duration (finite_values (d ∷ ds))

  -- `time_count`
  abbrev pub count_of : Axis Value → Option ℕ
  count_of no_sequence = none
  count_of (samples ds) = some (length ds)

  signal_problems : Option ℕ → String → Axis Value → List Problem
  unfolding value_problems
  signal_problems expected name no_sequence = not_sequence (signal name) ∷ []
  signal_problems expected name (samples ds) =
      (if agrees expected (length ds) then [] else misaligned name ∷ [])
      ++ value_problems (signal name) 0 ds

  signals_problems : Option ℕ → List (String × Axis Value) → List Problem
  unfolding signal_problems
  signals_problems expected [] = []
  signals_problems expected ((name, axis) ∷ rest) =
      signal_problems expected name axis ++ signals_problems expected rest

  mapping_problems : Option ℕ → Option (List (String × Axis Value)) → List Problem
  unfolding signals_problems
  mapping_problems expected none = no_mapping ∷ []
  mapping_problems expected (some []) = no_signals ∷ []
  mapping_problems expected (some (s ∷ ss)) = signals_problems expected (s ∷ ss)

  unfoldable pub validate_whole_run_result :
      WholeRunResult → TraceContract → Datum Value → Result ArgumentError (List Problem)
  unfolding strict_float time_problems mapping_problems
  validate_whole_run_result result contract duration_s = do
    duration ← strict_float duration_s
    raise_if (le duration nought) not_positive
    ok (
        time_problems contract duration result.time_axis
        ++ mapping_problems (count_of result.time_axis) result.signals)
