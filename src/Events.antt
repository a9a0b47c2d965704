-- ===== src/Events.antt =====
-- Run events, src/pe_sim/run_events.py: `RunEventEmitter.emit`, `ProgressPolicy` and `progress_due`.
-- A sink is code of the caller: a parameter that accepts an event or raises, and keeps a state of its
-- own. `except Exception` catches what it raises, but for a KeyboardInterrupt or a SystemExit. Event data are plain values, on which src/pe_sim/jsonutil.py's `json_safe` is `json_value`.
pub mod Delivery
pub mod Rate
mod Examples
use power_electronics_ai_sim.Base.{
  ℕ, zero, suc, ◌%◌, ◌-◌, String, Bool, true, false, not, ◌&&◌, ◌||◌, Option, none, some, List, [],
  ◌∷◌, map, ltb, leb, ◌==◌, str_eq, if◌then◌else◌, Result, ok, err, ◌>>=◌, ◌>>◌, raise_if,
}
use power_electronics_ai_sim.Number.{Number}
use power_electronics_ai_sim.Contracts.{
  Payload, text, real, natural, negative, flag, nothing, other, Mapping,
}

pub data EventError : Type 0 where
  empty_event_name sink_not_callable not_an_integer not_positive : EventError
  not_a_number not_finite_positive zero_division : EventError
  -- A KeyboardInterrupt or a SystemExit of the sink
  interrupted : EventError

-- How a call of a sink ends: it accepts the event, raises an `Exception`, or raises what is none.
pub data SinkAnswer : Type 0 where
  accepts raises interrupts : SinkAnswer

module _ (num : Number) where
  open num use {Value, is_finite, lt, le, minus, nought}

  -- `json_safe` of a plain value
  unfoldable pub json_value : Payload Value → Payload Value
  json_value (real v) = if is_finite v then real v else nothing
  json_value (text s) = text s
  json_value (natural n) = natural n
  json_value (negative n) = negative n
  json_value (flag b) = flag b
  json_value nothing = nothing
  json_value other = nothing

  -- `json_safe` of a mapping of plain values
  abbrev json_entries : Mapping (Payload Value) → Mapping (Payload Value)
  json_entries [] = []
  json_entries ((k, p) ∷ rest) = (k, json_value p) ∷ json_entries rest

  -- What `RunEvent.to_dict` gives, less the schema tag.
  pub record RunEvent : Type 0 where
    pub sequence : ℕ
    pub event : String
    pub run_id : String
    pub data_entries : Mapping (Payload Value)

  unfoldable pub to_dict : RunEvent → RunEvent
  to_dict e = record e { data_entries = json_entries e.data_entries }

  -- The arguments of a call of `emit`.
  pub record Emission : Type 0 where
    pub event : String
    pub run_id : String
    pub data_entries : Mapping (Payload Value)

  -- A sink: how its call with an event ends, and its state after that.
  abbrev pub Sink : Type 0 → Type 0
  Sink S = RunEvent → S → SinkAnswer × S

  pub record Emitter (S : Type 0) : Type 0 where
    pub sink : Option (Sink S)
    pub sequence : ℕ
    pub delivered : ℕ
    pub dropped : ℕ

  module _ {S : Type 0} where
    -- `RunEventEmitter(sink)`
    unfoldable pub new_emitter : Option (Sink S) → Emitter S
    new_emitter sink = record { sink = sink; sequence = 0; delivered = 0; dropped = 0 }

    abbrev pub payload_of : Emitter S → Emission → RunEvent
    payload_of e m = to_dict (record {
      sequence = e.sequence;
      event = m.event;
      run_id = m.run_id;
      data_entries = m.data_entries;
    })

    counted : Emitter S → SinkAnswer × S → Result EventError Bool × Emitter S × S
    counted e (accepts, s) =
        (ok true, record e { sequence = suc e.sequence; delivered = suc e.delivered }, s)
    counted e (raises, s) =
        (ok false, record e { sequence = suc e.sequence; dropped = suc e.dropped }, s)
    counted e (interrupts, s) = (err interrupted, record e { sequence = suc e.sequence }, s)

    -- `RunEventEmitter.emit`
    unfoldable pub emit : Emission → Emitter S → S → Result EventError Bool × Emitter S × S
    unfolding counted to_dict
    emit m e s = elim e.sink [
      | none ↦ (ok false, e, s)
      | some sink ↦
          if str_eq m.event ""
          then (err empty_event_name, e, s)
          else counted e (sink (payload_of e m) s)
    ]

    -- Calls of `emit` one after the other, whether they raise or not.
    abbrev pub emit_all : List Emission → Emitter S → S → Emitter S × S
    emit_all [] e s = (e, s)
    emit_all (m ∷ ms) e s = let after = emit m e s in emit_all ms after.1 after.2

  -- A `ProgressPolicy` whose sink is set, with its checked intervals.
  pub record ProgressPolicy : Type 0 where
    pub interval_steps : Option ℕ
    pub interval_s : Option Value

  checked_steps : Option (Payload Value) → Result EventError (Option ℕ)
  checked_steps none = ok none
  checked_steps (some (natural n)) = if n == 0 then err not_positive else ok (some n)
  checked_steps (some (negative n)) = err not_positive
  checked_steps (some p) = err not_an_integer

  positive_seconds : Option Value → Result EventError (Option Value)
  positive_seconds none = err not_a_number
  positive_seconds (some v) =
      if not (is_finite v) || le v nought then err not_finite_positive else ok (some v)

  checked_seconds :
      (Payload Value → Option Value) → Option (Payload Value) → Result EventError (Option Value)
  unfolding positive_seconds
  checked_seconds as_float none = ok none
  checked_seconds as_float (some (real v)) = positive_seconds (some v)
  checked_seconds as_float (some (natural n)) = positive_seconds (as_float (natural n))
  checked_seconds as_float (some (negative n)) = positive_seconds (as_float (negative n))
  checked_seconds as_float (some p) = err not_a_number

  -- `ProgressPolicy(sink, interval_steps, interval_s)`; the flag says whether the sink is callable.
  unfoldable pub progress_policy :
      (Payload Value → Option Value)
      → Bool
      → Option (Payload Value)
      → Option (Payload Value)
      → Result EventError ProgressPolicy
  unfolding checked_steps checked_seconds
  progress_policy as_float callable steps seconds = do
    raise_if (not callable) sink_not_callable
    interval_steps ← checked_steps steps
    interval_s ← checked_seconds as_float seconds
    ok (record { interval_steps = interval_steps; interval_s = interval_s })

  -- The end of `progress_due`, by the clock
  time_due : Option Value → Option Value → Option Value → Bool
  time_due none wall last = false
  time_due (some interval) none last = false
  time_due (some interval) (some wall) none = true
  time_due (some interval) (some wall) (some last) = le interval (minus wall last)

  steps_due : ℕ → Option ℕ → Result EventError Bool
  steps_due count none = ok false
  steps_due count (some zero) = err zero_division
  steps_due count (some (suc k)) = ok (count % suc k == 0)

  -- `progress_due`; a modulus of zero is a `ZeroDivisionError`.
  unfoldable pub progress_due :
      ℕ → ProgressPolicy → Option Value → Option Value → Result EventError Bool
  unfolding time_due steps_due
  progress_due zero policy wall last = ok false
  progress_due (suc n) policy wall last = do
    by_steps ← steps_due (suc n) policy.interval_steps
    ok (by_steps || time_due policy.interval_s wall last)
