-- ===== src/Runner.antt =====
-- The run loop of src/pe_sim/runtime.py: what its parts share. Plants, controllers and the wall clock
-- are not called here; the module World takes them as parameters.
pub mod Schedule
pub mod State
pub mod World
pub mod Segments
pub mod Window
pub mod Loop
pub mod Failures
pub mod Outcome
pub mod Resume
mod Examples
use power_electronics_ai_sim.Base.{
  ℕ, String, ◌≡◌, refl, true, false, arith, Bool, Option, none, some, List, [], ◌∷◌,
}
use power_electronics_ai_sim.Number.{Number}
use power_electronics_ai_sim.Number.Scaled.{ℤ, pos, scaled}
use power_electronics_ai_sim.Checks.{CheckReport}

-- An `Exception`: its type's name, the `category` that its class or instance carries, its text, and
-- the report of a `CheckFailureError`.
pub record Failure : Type 0 where
  pub exception_type : String
  pub category : Option String
  pub message : String
  pub report : Option CheckReport
  -- `isinstance(exc, TimeoutError)`
  pub is_timeout : Bool

-- What ends the body of the run before its end: `KeyboardInterrupt`, `SimulationCancelledError`, or
-- any other `Exception`. `out_of_fuel` is no exception: it says that a loop of the model was given
-- too little fuel to end.
pub data Thrown : Type 0 where
  interrupted cancelled : String → Thrown
  failed : Failure → Thrown
  out_of_fuel : Thrown

abbrev pub plain : String → String → Thrown
plain exception_type message = failed (record {
  exception_type = exception_type;
  category = none;
  message = message;
  report = none;
  is_timeout = false;
})

abbrev pub value_error : String → Thrown
value_error = plain "ValueError"

abbrev pub type_error : String → Thrown
type_error = plain "TypeError"

-- The literals 1e-12 and 1e-15, and the default reference 1.0.
pub record Literals (num : Number) : Type 0 where
  pub pico : num.Value
  pub femto : num.Value

-- What IEEE 754 gives for adding or subtracting a positive literal, NaN included.
pub record LiteralLaws (num : Number) (lit : Literals num) : Type 0 where
  pub pico_above : (v : num.Value) → num.le v v ≡ true → num.le v (num.plus v lit.pico) ≡ true
  pub plus_monotone :
      (a b : num.Value)
      → num.le a b ≡ true
      → num.le (num.plus a lit.pico) (num.plus b lit.pico) ≡ true
  pub femto_below : (v : num.Value) → num.lt v (num.minus v lit.femto) ≡ false

-- Both literals as no unit of the scaled numbers: whole microseconds are exact.
abbrev pub scaled_literals : Literals scaled
scaled_literals = record { pico = pos 0; femto = pos 0 }

pub scaled-LiteralLaws : LiteralLaws scaled scaled_literals
scaled-LiteralLaws = record {
  pico_above = λ v h. ground arith;
  plus_monotone = λ a b h. ground arith;
  femto_below = λ v. ground arith;
}
