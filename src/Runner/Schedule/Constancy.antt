-- ===== src/Runner/Schedule/Constancy.antt =====
-- Between two change points the command of src/pe_sim/runtime.py stays the same.
use power_electronics_ai_sim.Base.{
  ◌≡◌, refl, true, false, Option, none, some, List, [], ◌∷◌, arith, All, Bool-cases, inl, inr,
}
use power_electronics_ai_sim.Number.{Number, Laws}
use power_electronics_ai_sim.Number.Comparisons.{Comparisons}
use power_electronics_ai_sim.Contracts.{Payload, Mapping}
use power_electronics_ai_sim.Runner.{Literals, LiteralLaws}
use power_electronics_ai_sim.Runner.Schedule.{
  ScheduledInput, start_of, insert, by_time, has_started, is_invalid, is_change, apply_inputs,
  command_at, next_change_point,
}
use power_electronics_ai_sim.Runner.Schedule.Changes.{IsNext, NoneBefore, next_change_point-IsNext}

module _ {num : Number} (P : ScheduledInput num → Type 0) where
  insert-All :
      (item : ScheduledInput num) (rest : List (ScheduledInput num))
      → P item
      → All P rest
      → All P (insert num item rest)
  unfolding insert
  insert-All item [] h hs = (h, hs)
  insert-All item (other ∷ rest) h (k, ks) =
      elim (Bool-cases (num.lt (start_of num other) (start_of num item))) [
        | inl later ↦ rw later (k, insert-All item rest h ks)
        | inr here ↦ rw here (h, (k, ks))
      ]

  by_time-All : (rest : List (ScheduledInput num)) → All P rest → All P (by_time num rest)
  unfolding by_time
  by_time-All [] h = h
  by_time-All (item ∷ rest) (h, hs) = insert-All item (by_time num rest) h (by_time-All rest hs)

module _ {num : Number} (laws : Laws num) (cmp : Comparisons num) {lit : Literals num}
    (literal : LiteralLaws num lit) where
  open num use {Value, le, lt, plus, minus}

  -- A time not before `after` that comes, with the tolerance, before the end of the segment.
  abbrev pub Within : Value → Option Value → Value → Type 0
  Within until none t = le (plus t lit.pico) (minus until lit.pico) ≡ true
  Within until (some c) t = lt (plus t lit.pico) c ≡ true

  abbrev Agree : Value → Value → ScheduledInput num → Type 0
  Agree a b item = has_started num lit a item ≡ has_started num lit b item

  apply_inputs-Agree :
      (a b : Value) (rest : List (ScheduledInput num)) (command : Mapping (Payload Value))
      → All (Agree a b) rest
      → apply_inputs num lit a rest command ≡ apply_inputs num lit b rest command
  unfolding apply_inputs
  apply_inputs-Agree a b [] command h = refl
  apply_inputs-Agree a b (item ∷ rest) command (h, hs) = elim (Bool-cases (is_invalid num item)) [
    | inl bad ↦ rw bad refl
    | inr good ↦ rw (good, h) (apply_inputs-Agree a b rest _ hs)
  ]

  started_before :
      (after t : Value) (item : ScheduledInput num)
      → le after t ≡ true
      → has_started num lit after item ≡ true
      → has_started num lit t item ≡ true
  started_before after t item h k =
      laws.le_trans (start_of num item) (plus after lit.pico) (plus t lit.pico) k
        (literal.plus_monotone after t h)

  -- An item that has started by a time in the segment had started at its beginning, if it is no
  -- change.
  started_early :
      (after until t : Value) (item : ScheduledInput num)
      → le after t ≡ true
      → has_started num lit t item ≡ true
      → le (start_of num item) (minus until lit.pico) ≡ true
      → is_change num lit after until (start_of num item) ≡ false
      → has_started num lit after item ≡ true
  started_early after until t item h k inside no_change =
      cmp.le_of_not_lt (plus after lit.pico) (start_of num item)
        (cmp.le_self_right after (plus after lit.pico)
          (literal.pico_above after (cmp.le_self_left after t h)))
        (cmp.le_self_left (start_of num item) (plus t lit.pico) k) (ground arith)

  agrees :
      (after t : Value) (item : ScheduledInput num)
      → le after t ≡ true
      → (has_started num lit t item ≡ true → has_started num lit after item ≡ true)
      → Agree t after item
  agrees after t item h back = elim (Bool-cases (has_started num lit t item)) [
    | inl started ↦ ground (arith, back started)
    | inr not_started ↦ elim (Bool-cases (has_started num lit after item)) [
      | inl before ↦ ground (arith, started_before after t item h before)
      | inr same ↦ ground arith
    ]
  ]

  none-Agree :
      (after until t : Value) (schedule : List (ScheduledInput num))
      → le after t ≡ true
      → le (plus t lit.pico) (minus until lit.pico) ≡ true
      → IsNext cmp lit after until schedule none
      → All (Agree t after) schedule
  none-Agree after until t [] h w n = tt
  none-Agree after until t (item ∷ rest) h w (n, ns) = (
    agrees after t item h (λ k.
        started_early after until t item h k
          (laws.le_trans (start_of num item) (plus t lit.pico) (minus until lit.pico) k w) n),
    none-Agree after until t rest h w ns,
  )

  some-Agree :
      (after until t c : Value) (schedule : List (ScheduledInput num))
      → le after t ≡ true
      → lt (plus t lit.pico) c ≡ true
      → is_change num lit after until c ≡ true
      → NoneBefore cmp lit after until c schedule
      → All (Agree t after) schedule
  some-Agree after until t c [] h w hc n = tt
  some-Agree after until t c (item ∷ rest) h w hc (n, ns) = (
    agrees after t item h (λ k.
        let early : lt (start_of num item) c ≡ true =
          cmp.lt_of_le_of_lt (start_of num item) (plus t lit.pico) c k w in
        let no_change : is_change num lit after until (start_of num item) ≡ false = ground arith in
        started_early after until t item h k
          (laws.le_trans (start_of num item) c (minus until lit.pico)
            (cmp.le_of_lt (start_of num item) c early) (ground arith))
          no_change),
    some-Agree after until t c rest h w hc ns,
  )

  next-Agree :
      (after until t : Value) (schedule : List (ScheduledInput num)) (next : Option Value)
      → le after t ≡ true
      → Within until next t
      → IsNext cmp lit after until schedule next
      → All (Agree t after) schedule
  next-Agree after until t schedule none h w n = none-Agree after until t schedule h w n
  next-Agree after until t schedule (some c) h w (hc, _, n) =
      some-Agree after until t c schedule h w hc n

  -- From `after` on, as long as a time stays 1e-12 before the next change point, or 2e-12 before
  -- `until` where there is none, the command is the one at `after`.
  pub command_at_constant :
      (schedule : List (ScheduledInput num)) (after until t : Value)
      → le after t ≡ true
      → Within until (next_change_point num lit schedule after until) t
      → command_at num lit schedule t ≡ command_at num lit schedule after
  unfolding command_at
  command_at_constant schedule after until t h w =
      apply_inputs-Agree t after (by_time num schedule) _ (
        by_time-All (Agree t after) schedule (
          next-Agree after until t schedule _ h w
            (next_change_point-IsNext cmp lit after until schedule)))
