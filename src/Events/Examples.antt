-- ===== src/Events/Examples.antt =====
-- A sink that takes every second event, and a rate limit of three samples.
use power_electronics_ai_sim.Base.{
  ◌<◌, ◌≡◌, refl, Bool, true, false, not, Option, some, none, List, [], ◌∷◌, ok, err, ◌↔◌,
  if◌then◌else◌,
}
use Prim.Native.Nat.{◌∣◌}
use power_electronics_ai_sim.Number.Scaled.{ℤ, pos, negsuc, scaled}
use power_electronics_ai_sim.Contracts.{Payload, real, natural, negative, flag}
use power_electronics_ai_sim.Events.{
  accepts, raises, interrupts, interrupted, Sink, Emission, emit, emit_all, new_emitter,
  ProgressPolicy, progress_policy, progress_due,
}
use power_electronics_ai_sim.Events.Delivery.{
  recording, IsAccounted, Answers, emit_all-numbered, emit-Answers,
}
use power_electronics_ai_sim.Events.Rate.{progress_due_steps}

-- Its state says whether it takes the next event.
abbrev every_second : Sink scaled Bool
every_second e takes = (if takes then accepts else raises, not takes)

abbrev hung : Sink scaled Bool
hung e takes = (interrupts, takes)

abbrev progress : Emission scaled
progress = record {
  event = "run.progress";
  run_id = "r1";
  data_entries = ("sample", natural 3) ∷ [];
}

abbrev unnamed : Emission scaled
unnamed = record progress { event = "" }

abbrev emissions : List (Emission scaled)
emissions = progress ∷ unnamed ∷ progress ∷ progress ∷ []

emit_all-numbered_example :
    IsAccounted
      (emit_all scaled emissions (new_emitter scaled (some (recording every_second))) ([], true))
emit_all-numbered_example = emit_all-numbered every_second emissions true

-- Two of the three events that have a name are delivered.
two_delivered :
    (emit_all scaled emissions (new_emitter scaled (some every_second)) true).0.delivered ≡ 2
unfolding emit new_emitter
two_delivered = refl

-- An interrupt of the sink comes out, after the attempt was counted.
interrupt_comes_out :
    (emit scaled progress (new_emitter scaled (some hung)) true).0 ≡ err interrupted
unfolding emit new_emitter
interrupt_comes_out = refl

emit-Answers_example :
    Answers
      (some every_second)
      false
      progress
      (new_emitter scaled (some every_second))
      true
      (emit scaled progress (new_emitter scaled (some every_second)) true)
unfolding new_emitter
emit-Answers_example = emit-Answers progress (new_emitter scaled (some every_second)) true

abbrev as_float : Payload ℤ → Option ℤ
as_float (real v) = some v
as_float (natural n) = some (pos n)
as_float (negative n) = some (negsuc n)
as_float (flag b) = some (if b then pos 1 else pos 0)
as_float p = none

abbrev by_three : ProgressPolicy scaled
by_three = record { interval_steps = some 3; interval_s = none }

progress_due_steps_example :
    (progress_due scaled 6 by_three (some (pos 1)) none ≡ ok true) ↔ ((0 < 6) × (3 ∣ 6))
unfolding progress_policy
progress_due_steps_example =
    progress_due_steps scaled as_float true (some (natural 3)) none by_three 3 6 (some (pos 1)) none
      refl refl refl
