-- ===== src/Runner/Segments/Termination.antt =====
-- The loops of `_advance_segments`, src/pe_sim/runtime.py, end.
use power_electronics_ai_sim.Base.{
  ℕ, zero, suc, ◌+◌, ◌≤◌, ◌<◌, ◌≡◌, refl, true, false, inl, inr, Option, none, some, List, [], ◌∷◌,
  length, arith, Bool-cases, is_some, if◌then◌else◌, default_to,
}
use power_electronics_ai_sim.Number.{Number}
use power_electronics_ai_sim.Number.Comparisons.{Comparisons}
use power_electronics_ai_sim.Runner.{Literals, LiteralLaws}
use power_electronics_ai_sim.Runner.Schedule.{ScheduledInput, start_of}
use power_electronics_ai_sim.Runner.Schedule.Changes.{Among, IsNext, next_change_point-IsNext}
use power_electronics_ai_sim.Runner.Segments.{also, solve_step, solve_steps, segments}

is_some-also {ℓ} :
    {A : Type ℓ} (x : A) (xs : Option (List A)) → is_some xs ≡ true → is_some (also x xs) ≡ true
is_some-also x none h = h
is_some-also x (some xs) h = refl

module _ {num : Number} (cmp : Comparisons num) {lit : Literals num}
    (literal : LiteralLaws num lit) where
  open num use {Value, le, lt, plus, minus}

  -- How many items start after a time.
  abbrev pending : Value → List (ScheduledInput num) → ℕ
  pending after [] = 0
  pending after (item ∷ rest) =
      let later = pending after rest in
      if lt (plus after lit.pico) (start_of num item) then suc later else later

  pending-bound :
      (after : Value) (rest : List (ScheduledInput num)) → pending after rest ≤ length rest
  pending-bound after [] = omega arith
  pending-bound after (item ∷ rest) = ground (arith, pending-bound after rest)

  still_pending :
      (s c x : Value)
      → lt (plus s lit.pico) c ≡ true
      → lt (plus c lit.pico) x ≡ true
      → lt (plus s lit.pico) x ≡ true
  still_pending s c x h k =
      let next : lt c x ≡ true =
        cmp.lt_of_le_of_lt c (plus c lit.pico) x
          (literal.pico_above c (cmp.le_self_of_lt (plus s lit.pico) c h)) k in
      cmp.lt_of_le_of_lt (plus s lit.pico) c x (cmp.le_of_lt (plus s lit.pico) c h) next

  no_longer_pending : (s c : Value) → lt (plus s lit.pico) c ≡ true → lt (plus c lit.pico) c ≡ false
  no_longer_pending s c h = elim (Bool-cases (lt (plus c lit.pico) c)) [
    | inl above ↦ absurd (
        ground (
          arith,
          cmp.lt_irrefl_any c,
          cmp.lt_of_le_of_lt c (plus c lit.pico) c
              (literal.pico_above c (cmp.le_self_of_lt (plus s lit.pico) c h)) above,
        ))
    | inr below ↦ below
  ]

  pending_falls :
      (s c : Value) (rest : List (ScheduledInput num))
      → lt (plus s lit.pico) c ≡ true
      → pending c rest ≤ pending s rest
  pending_falls s c [] h = omega arith
  pending_falls s c (item ∷ rest) h =
      ground (arith, pending_falls s c rest h, still_pending s c (start_of num item) h)

  pending_drops :
      (s c : Value) (rest : List (ScheduledInput num))
      → lt (plus s lit.pico) c ≡ true
      → Among c rest
      → pending c rest < pending s rest
  pending_drops s c [] h a = absurd a
  pending_drops s c (item ∷ rest) h (inl here) =
      rw here (ground (arith, pending_falls s c rest h, no_longer_pending s c h))
  pending_drops s c (item ∷ rest) h (inr later) =
      ground (arith, pending_drops s c rest h later, still_pending s c (start_of num item) h)

  at_end :
      (schedule : List (ScheduledInput num)) (end_time : Value) (n : ℕ)
      → is_some (segments num lit schedule end_time n end_time) ≡ true
  unfolding segments
  at_end schedule end_time zero = rw (literal.femto_below end_time) refl
  at_end schedule end_time (suc n) = rw (literal.femto_below end_time) refl

  after_next :
      (schedule : List (ScheduledInput num)) (start end_time : Value) (n : ℕ) (next : Option Value)
      → pending start schedule + 1 ≤ n
      → IsNext cmp lit start end_time schedule next
      → ((c : Value)
          → pending c schedule + 2 ≤ n
          → is_some (segments num lit schedule end_time n c) ≡ true)
      → is_some (segments num lit schedule end_time n (default_to end_time next)) ≡ true
  after_next schedule start end_time n none h x later = at_end schedule end_time n
  after_next schedule start end_time n (some c) h (hc, among, _) later =
      later c (omega (arith, pending_drops start c schedule (ground arith) among))

  segments-some :
      (schedule : List (ScheduledInput num)) (end_time : Value) (n : ℕ) (start : Value)
      → pending start schedule + 2 ≤ n
      → is_some (segments num lit schedule end_time n start) ≡ true
  unfolding segments
  segments-some schedule end_time zero start h = absurd (omega arith)
  segments-some schedule end_time (suc n) start h =
      elim (Bool-cases (lt start (minus end_time lit.femto))) [
        | inl more ↦ rw more (
            is_some-also _ _ (
              after_next schedule start end_time n _ (omega arith)
                (next_change_point-IsNext cmp lit start end_time schedule)
                (segments-some schedule end_time n)))
        | inr done ↦ rw done refl
      ]

  -- The outer loop ends: it turns at most once for every item of the schedule and once more.
  pub segments_end :
      (schedule : List (ScheduledInput num)) (end_time start : Value)
      → is_some (segments num lit schedule end_time (length schedule + 2) start) ≡ true
  segments_end schedule end_time start =
      segments-some schedule end_time (length schedule + 2) start
        (omega (arith, pending-bound start schedule))

  -- Each solve step brings a remaining time within a bound closer to its end, and keeps it within
  -- the bound. A double that is too large for the step is not shortened by it, hence the bound.
  abbrev pub Shrinks : Value → Option Value → (Value → ℕ) → Type 0
  Shrinks bound quantum rounds =
      (remaining : Value)
      → lt lit.femto remaining ≡ true
      → le remaining bound ≡ true
      → (le (minus remaining (solve_step num quantum remaining)) bound ≡ true)
        × (rounds (minus remaining (solve_step num quantum remaining)) < rounds remaining)

  -- The inner loop ends, with fuel for as many turns as the measure of what remains.
  pub solve_steps_end :
      (bound : Value) (quantum : Option Value) (rounds : Value → ℕ) (n : ℕ) (remaining : Value)
      → Shrinks bound quantum rounds
      → le remaining bound ≡ true
      → rounds remaining ≤ n
      → is_some (solve_steps num lit quantum n remaining) ≡ true
  unfolding solve_steps
  solve_steps_end bound quantum rounds zero remaining shrinks within h =
      elim (Bool-cases (lt lit.femto remaining)) [
        | inl more ↦ absurd (omega (arith, (shrinks remaining more within).1))
        | inr done ↦ rw done refl
      ]
  solve_steps_end bound quantum rounds (suc n) remaining shrinks within h =
      elim (Bool-cases (lt lit.femto remaining)) [
        | inl more ↦
            let (still, fewer) = shrinks remaining more within in
            rw more (
              is_some-also _ _
                (solve_steps_end bound quantum rounds n _ shrinks still (omega (arith, fewer))))
        | inr done ↦ rw done refl
      ]
