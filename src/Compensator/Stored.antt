-- ===== src/Compensator/Stored.antt =====
-- Checkpoints of discrete compensators, src/pe_sim/controllers.py: `reset`, `snapshot`, `restore` and
-- `_load_history` of `DiscreteCompensator`.
use power_electronics_ai_sim.Base.{
  String, not, ◌||◌, Option, none, some, List, [], ◌∷◌, map, length, default_to, ◌==◌, Result, ok,
  err, ◌>>=◌, ◌>>◌, raise_if,
}
use power_electronics_ai_sim.Number.{Number}
use power_electronics_ai_sim.Contracts.{Payload, text, real, Mapping, get, list_eq}
use power_electronics_ai_sim.Compensator.{
  CompensatorError, no_coefficients, coefficients_differ, history_length, index_error, Compensator,
  DelayLine, finite_numbers, state_update, x_names, y_names,
}

module _ (num : Number) where
  open num use {Value, nought}

  -- A state as `reset` and `restore` read it. `coefficients` and `history` are mappings of two
  -- lists, `none` where there is no mapping; each list may be missing.
  pub record Stored : Type 0 where
    pub coefficients : Option (Option (List (Payload Value)) × Option (List (Payload Value)))
    pub history : Option (Option (List (Payload Value)) × Option (List (Payload Value)))
    pub entries : Mapping (Payload Value)

  abbrev pub named : List String → List Value → Mapping (Payload Value) → List (Payload Value)
  named (n ∷ ns) (v ∷ vs) entries = default_to (real nought) (get n entries) ∷ named ns vs entries
  named ns vs entries = []

  unfoldable pub stored_values :
      Stored → DelayLine num → List (Payload Value) × List (Payload Value)
  stored_values state h = elim state.history [
    | some (x, y) ↦ (default_to [] x, default_to [] y)
    | none ↦ (
      named (x_names num) h.x_history state.entries,
      named (y_names num) h.y_history state.entries,
    )
  ]

  unfoldable pub load_values :
      (Payload Value → Option Value)
      → List (Payload Value)
      → List (Payload Value)
      → DelayLine num
      → Result CompensatorError (DelayLine num)
  load_values as_float xs ys h = do
    raise_if (not (length xs == length h.x_history) || not (length ys == length h.y_history))
        history_length
    x_loaded ← finite_numbers num as_float xs
    y_loaded ← finite_numbers num as_float ys
    ok (record { x_history = x_loaded; y_history = y_loaded })

  -- `_load_history`: both lists are checked before one is stored.
  unfoldable pub load_history :
      (Payload Value → Option Value)
      → Stored
      → DelayLine num
      → Result CompensatorError (DelayLine num)
  unfolding finite_numbers stored_values load_values
  load_history as_float state h =
      load_values as_float (stored_values state h).0 (stored_values state h).1 h

  -- `self._state_update(self._y_history[0])`
  unfoldable pub first_update :
      DelayLine num → List Value → Result CompensatorError (Mapping (Payload Value))
  unfolding state_update
  first_update h [] = err index_error
  first_update h (y ∷ ys) = ok (state_update num h y)

  abbrev pub loaded :
      DelayLine num
      → Result CompensatorError (DelayLine num)
      → Result CompensatorError (Mapping (Payload Value)) × DelayLine num
  loaded h (err e) = (err e, h)
  loaded h (ok h') = (first_update h' h'.y_history, h')

  unfoldable pub reset :
      (Payload Value → Option Value)
      → Stored
      → DelayLine num
      → Result CompensatorError (Mapping (Payload Value)) × DelayLine num
  unfolding load_history first_update
  reset as_float state h = loaded h (load_history as_float state h)

  -- The limits, which nothing reads back, are left out.
  unfoldable pub snapshot : Compensator num → DelayLine num → Stored
  snapshot c h = record {
    coefficients = some (some (map real c.numerator), some (map real c.denominator));
    history = some (some (map real h.x_history), some (map real h.y_history));
    entries = ("measurement_key", text c.measurement_key) ∷ ("name", text c.name) ∷ [];
  }

  unfoldable pub matching :
      (Payload Value → Option Value) → Compensator num → Stored → Result CompensatorError (Unit {0})
  matching as_float c state = elim state.coefficients [
    | none ↦ err no_coefficients
    | some (b, a) ↦
        raise_if
          (not (list_eq num as_float (default_to [] b) (map real c.numerator))
            || not (list_eq num as_float (default_to [] a) (map real c.denominator)))
          coefficients_differ
  ]

  unfoldable pub restore :
      (Payload Value → Option Value)
      → Compensator num
      → Stored
      → DelayLine num
      → Result CompensatorError (Mapping (Payload Value)) × DelayLine num
  unfolding matching load_history first_update
  restore as_float c state h = loaded h (matching as_float c state >> load_history as_float state h)
