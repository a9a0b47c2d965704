-- ===== src/Runner/Schedule.antt =====
-- The input schedule, src/pe_sim/runtime.py: `_command_at` and `_next_change_point`.
pub mod Changes
pub mod Constancy
use power_electronics_ai_sim.Base.{
  Bool, true, not, ◌&&◌, ◌||◌, Option, none, some, List, [], ◌∷◌, default_to, if◌then◌else◌, Result,
  ok, ◌>>◌, raise_if,
}
use power_electronics_ai_sim.Number.{Number}
use power_electronics_ai_sim.Contracts.{Payload, real, Mapping, update}
use power_electronics_ai_sim.Runner.{Thrown, value_error, Literals}

module _ (num : Number) where
  open num use {Value, is_finite, le, lt, plus, minus, nought, one}

  -- An item: its `time_s`, `none` where it has none, and its other entries.
  pub record ScheduledInput : Type 0 where
    pub time_s : Option Value
    pub entries : Mapping (Payload Value)

  -- `float(item.get("time_s", 0.0))`
  abbrev pub start_of : ScheduledInput → Value
  start_of item = default_to nought item.time_s

  -- Equal times keep their order.
  unfoldable pub insert : ScheduledInput → List ScheduledInput → List ScheduledInput
  insert item [] = item ∷ []
  insert item (other ∷ rest) =
      let later = insert item rest in
      if lt (start_of other) (start_of item) then other ∷ later else item ∷ other ∷ rest

  -- `sorted(schedule, key=...)`
  unfoldable pub by_time : List ScheduledInput → List ScheduledInput
  unfolding insert
  by_time [] = []
  by_time (item ∷ rest) = insert item (by_time rest)

  abbrev pub has_started : Literals num → Value → ScheduledInput → Bool
  has_started lit time_s item = le (start_of item) (plus time_s lit.pico)

  abbrev pub is_invalid : ScheduledInput → Bool
  is_invalid item = not (is_finite (start_of item)) || lt (start_of item) nought

  unfoldable pub apply_inputs :
      Literals num
      → Value
      → List ScheduledInput
      → Mapping (Payload Value)
      → Result Thrown (Mapping (Payload Value))
  apply_inputs lit time_s [] command = ok command
  apply_inputs lit time_s (item ∷ rest) command = do
    raise_if (is_invalid item) (value_error "invalid input schedule time")
    apply_inputs lit time_s rest
        (if has_started lit time_s item then update command item.entries else command)

  unfoldable pub command_at :
      Literals num → List ScheduledInput → Value → Result Thrown (Mapping (Payload Value))
  unfolding by_time apply_inputs
  command_at lit schedule time_s =
      apply_inputs lit time_s (by_time schedule) (("vref", real one) ∷ [])

  -- `change is None or start < change`
  abbrev pub earlier : Value → Option Value → Bool
  earlier start none = true
  earlier start (some change) = lt start change

  -- `start > after_s + 1e-12 and start <= until_s - 1e-12`
  abbrev pub is_change : Literals num → Value → Value → Value → Bool
  is_change lit after until start =
      lt (plus after lit.pico) start && le start (minus until lit.pico)

  unfoldable pub change_from :
      Literals num → Value → Value → List ScheduledInput → Option Value → Option Value
  change_from lit after until [] change = change
  change_from lit after until (item ∷ rest) change = change_from lit after until rest (
      if is_change lit after until (start_of item) && earlier (start_of item) change
      then some (start_of item)
      else change)

  unfoldable pub next_change_point :
      Literals num → List ScheduledInput → Value → Value → Option Value
  unfolding change_from
  next_change_point lit schedule after until = change_from lit after until schedule none
