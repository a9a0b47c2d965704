-- ===== src/Compensator.antt =====
-- Discrete compensators, src/pe_sim/controllers.py: `DiscreteCompensator`, its difference equation,
-- and its delay line. The designs that compute coefficients are left out.
pub mod Stored
pub mod Histories
pub mod Saturation
pub mod Reference
pub mod Checkpoints
mod Examples
use power_electronics_ai_sim.Base.{
  ℕ, suc, String, Bool, true, false, not, ◌&&◌, ◌||◌, Option, none, some, List, [], ◌∷◌, ◌++◌, map,
  length, replicate, take, drop_last, default_to, ltb, ◌==◌, str_eq, if◌then◌else◌, Result, ok, err,
  ◌>>=◌, ◌>>◌, raise_if,
}
use power_electronics_ai_sim.Number.{Number, clamp}
use power_electronics_ai_sim.Contracts.{
  Payload, text, real, Mapping, get, list_eq, ContractError, ActionRequest, action_request,
}

pub data CompensatorError : Type 0 where
  not_a_number not_finite numerator_length denominator_length unpaired_limits : CompensatorError
  limits_not_ordered empty_name input_not_finite output_not_finite index_error : CompensatorError
  no_coefficients coefficients_differ history_length : CompensatorError
  missing_measurement missing_sample_time : CompensatorError
  contract : ContractError → CompensatorError

module _ (num : Number) where
  open num use {Value, is_finite, lt, plus, minus, times, nought, one}

  -- `_finite_number`: Python's `float`, which takes a boolean too, and `math.isfinite`
  unfoldable pub finite_number :
      (Payload Value → Option Value) → Payload Value → Result CompensatorError Value
  finite_number as_float p = elim (as_float p) [
    | none ↦ err not_a_number
    | some v ↦ if is_finite v then ok v else err not_finite
  ]

  -- `tuple(_finite_number(value, ...) for value in values)`
  unfoldable pub finite_numbers :
      (Payload Value → Option Value) → List (Payload Value) → Result CompensatorError (List Value)
  unfolding finite_number
  finite_numbers as_float [] = ok []
  finite_numbers as_float (p ∷ ps) = do
    v ← finite_number as_float p
    vs ← finite_numbers as_float ps
    ok (v ∷ vs)

  pub record Limits : Type 0 where
    pub output_min : Value
    pub output_max : Value

  pub record Compensator : Type 0 where
    pub numerator : List Value
    pub denominator : List Value
    pub limits : Option Limits
    pub measurement_key : String
    pub name : String

  -- `_x_history` and `_y_history`, most recent first
  pub record DelayLine : Type 0 where
    pub x_history : List Value
    pub y_history : List Value

  -- The arguments of `DiscreteCompensator(...)`.
  pub record Arguments : Type 0 where
    pub numerator : List (Payload Value)
    pub denominator : List (Payload Value)
    pub output_min : Option (Payload Value)
    pub output_max : Option (Payload Value)
    pub measurement_key : String
    pub name : String

  paired_limits :
      (Payload Value → Option Value)
      → Option (Payload Value)
      → Option (Payload Value)
      → Result CompensatorError (Option Limits)
  unfolding finite_number
  paired_limits as_float none none = ok none
  paired_limits as_float (some low) (some high) = do
    output_min ← finite_number as_float low
    output_max ← finite_number as_float high
    raise_if (not (lt output_min output_max)) limits_not_ordered
    ok (some (record { output_min = output_min; output_max = output_max }))
  paired_limits as_float low high = err unpaired_limits

  -- `[0.0] * order`, twice
  abbrev pub empty_line : List Value → DelayLine
  empty_line denominator = record {
    x_history = replicate (length denominator) nought;
    y_history = replicate (length denominator) nought;
  }

  -- `DiscreteCompensator(...)`; the order is `len(denominator)`, one less than `len(numerator)`.
  unfoldable pub discrete_compensator :
      (Payload Value → Option Value) → Arguments → Result CompensatorError (Compensator × DelayLine)
  unfolding finite_numbers paired_limits
  discrete_compensator as_float a = do
    b ← finite_numbers as_float a.numerator
    raise_if (ltb (length b) 2 || ltb 4 (length b)) numerator_length
    d ← finite_numbers as_float a.denominator
    raise_if (not (suc (length d) == length b)) denominator_length
    limits ← paired_limits as_float a.output_min a.output_max
    raise_if (str_eq a.measurement_key "" || str_eq a.name "") empty_name
    ok (
      record {
        numerator = b;
        denominator = d;
        limits = limits;
        measurement_key = a.measurement_key;
        name = a.name;
      },
      empty_line d,
    )

  -- The loop over the coefficients after `b0`; a history that is too short is an `IndexError`.
  unfoldable pub accumulate :
      Value → List Value → List Value → List Value → List Value → Result CompensatorError Value
  accumulate output [] xs ds ys = ok output
  accumulate output (b ∷ bs) (x ∷ xs) (d ∷ ds) (y ∷ ys) =
      accumulate (minus (plus output (times b x)) (times d y)) bs xs ds ys
  accumulate output (b ∷ bs) xs ds ys = err index_error

  -- `output`, from the error and the delay line
  unfoldable pub difference_equation :
      Compensator → Value → List Value → List Value → Result CompensatorError Value
  unfolding accumulate
  difference_equation c error xs ys = elim c.numerator [
    | [] ↦ err index_error
    | b0 ∷ bs ↦ accumulate (times b0 error) bs xs c.denominator ys
  ]

  -- `min(max(output, self.output_min), self.output_max)`, where there are limits
  abbrev pub limited : Option Limits → Value → Value
  limited none output = output
  limited (some l) output = clamp num l.output_min l.output_max output

  abbrev pub shift : Value → Value → DelayLine → DelayLine
  shift error applied h = record {
    x_history = error ∷ drop_last h.x_history;
    y_history = applied ∷ drop_last h.y_history;
  }

  abbrev pub x_names : List String
  x_names = "x1" ∷ "x2" ∷ "x3" ∷ []

  abbrev pub y_names : List String
  y_names = "y1" ∷ "y2" ∷ "y3" ∷ []

  abbrev labelled : List String → List Value → Mapping (Payload Value)
  labelled (n ∷ ns) (v ∷ vs) = (n, real v) ∷ labelled ns vs
  labelled ns vs = []

  -- `_state_update`; construction keeps the order at 3 or less, so that the names suffice.
  unfoldable pub state_update : DelayLine → Value → Mapping (Payload Value)
  state_update h output =
      labelled x_names h.x_history ++ (labelled y_names h.y_history ++ ("output", real output) ∷ [])

  pub record Sample : Type 0 where
    pub measurement : Mapping (Payload Value)
    pub command : Mapping (Payload Value)
    pub timing : Mapping (Payload Value)

  pub record Inputs : Type 0 where
    pub measured : Value
    pub vref : Value
    pub now : Value

  abbrev float_of : (Payload Value → Option Value) → Payload Value → Result CompensatorError Value
  float_of as_float p = elim (as_float p) [ none ↦ err not_a_number | some v ↦ ok v ]

  abbrev found : Option (Payload Value) → CompensatorError → Result CompensatorError (Payload Value)
  found none e = err e
  found (some p) e = ok p

  -- What `observe` reads of its arguments.
  unfoldable pub inputs :
      (Payload Value → Option Value) → Compensator → Sample → Result CompensatorError Inputs
  inputs as_float c s = do
    reading ← found (get c.measurement_key s.measurement) missing_measurement
    measured ← float_of as_float reading
    vref ← float_of as_float (default_to (real one) (get "vref" s.command))
    stamp ← found (get "sample_time_s" s.timing) missing_sample_time
    now ← float_of as_float stamp
    raise_if (not (is_finite measured && (is_finite vref && is_finite now))) input_not_finite
    ok (record { measured = measured; vref = vref; now = now })

  pub finite_output : Compensator → Value → List Value → List Value → Result CompensatorError Value
  unfolding difference_equation
  finite_output c error xs ys = do
    output ← difference_equation c error xs ys
    raise_if (not (is_finite output)) output_not_finite
    ok output

  abbrev as_compensator_error {ℓ} :
      {A : Type ℓ} → Result ContractError A → Result CompensatorError A
  as_compensator_error (ok a) = ok a
  as_compensator_error (err e) = err (contract e)

  request : Value → Value → DelayLine → Result CompensatorError (ActionRequest num)
  unfolding state_update
  request now applied h = as_compensator_error (
      action_request num (record {
        value = applied;
        unit = "normalized";
        produced_time_s = now;
        target_time_s = now;
        diagnostics = [];
        state_update = some (state_update h applied);
      }))

  -- The end of `observe`, from an output on: it stores the applied value and then answers.
  store :
      Compensator
      → Inputs
      → Value
      → DelayLine
      → Result CompensatorError (ActionRequest num) × DelayLine
  unfolding request
  store c n output h =
      let applied : Value = limited c.limits output in
      let after : DelayLine = shift (minus n.vref n.measured) applied h in
      (request n.now applied after, after)

  unfoldable pub observe :
      (Payload Value → Option Value)
      → Compensator
      → Sample
      → DelayLine
      → Result CompensatorError (ActionRequest num) × DelayLine
  unfolding inputs finite_output store
  observe as_float c s h = elim (inputs as_float c s) [
    | err e ↦ (err e, h)
    | ok n ↦ elim (finite_output c (minus n.vref n.measured) h.x_history h.y_history) [
      | err e ↦ (err e, h)
      | ok output ↦ store c n output h
    ]
  ]
