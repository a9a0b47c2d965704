-- ===== src/Compensator/Examples.antt =====
-- An integrating compensator of order 1 with saturation, y[n] = x[n] + x[n-1] + y[n-1], limited to 5.
use power_electronics_ai_sim.Base.{
  ◌≡◌, refl, ◌⊎◌, true, Option, some, none, List, [], ◌∷◌, ok, err, if◌then◌else◌,
}
use power_electronics_ai_sim.Number.{clamp}
use power_electronics_ai_sim.Number.Scaled.{ℤ, pos, negsuc, scaled, scaled-Laws}
use power_electronics_ai_sim.Contracts.{Payload, real, natural, negative, flag, ActionRequest}
use power_electronics_ai_sim.Compensator.{
  CompensatorError, Compensator, DelayLine, Arguments, Sample, discrete_compensator, observe,
  state_update,
}
use power_electronics_ai_sim.Compensator.Stored.{restore, snapshot}
use power_electronics_ai_sim.Compensator.Histories.{
  IsCompensator, IsLine, discrete_compensator-IsCompensator,
}
use power_electronics_ai_sim.Compensator.Saturation.{InLimits, IsFirst, observe_saturates}
use power_electronics_ai_sim.Compensator.Checkpoints.{
  Call, observed, restored, after_all, after, compensator-IsLine, restore-snapshot_line,
}
use power_electronics_ai_sim.Compensator.Reference.{run, reference_run, before_all, run-reference}

abbrev pub as_float : Payload ℤ → Option ℤ
as_float (real v) = some v
as_float (natural n) = some (pos n)
as_float (negative n) = some (negsuc n)
as_float (flag b) = some (if b then pos 1 else pos 0)
as_float p = none

abbrev arguments : Arguments scaled
arguments = record {
  numerator = real (pos 1) ∷ real (pos 1) ∷ [];
  denominator = real (negsuc 0) ∷ [];
  output_min = some (real (pos 0));
  output_max = some (real (pos 5));
  measurement_key = "vout";
  name = "integrator";
}

abbrev integrator : Compensator scaled
integrator = record {
  numerator = pos 1 ∷ pos 1 ∷ [];
  denominator = negsuc 0 ∷ [];
  limits = some (record { output_min = pos 0; output_max = pos 5 });
  measurement_key = "vout";
  name = "integrator";
}

abbrev fresh : DelayLine scaled
fresh = record { x_history = pos 0 ∷ []; y_history = pos 0 ∷ [] }

built : discrete_compensator scaled as_float arguments ≡ ok (integrator, fresh)
unfolding discrete_compensator
built = refl

integrator-IsCompensator : IsCompensator integrator × IsLine integrator fresh
integrator-IsCompensator =
    discrete_compensator-IsCompensator scaled as_float refl arguments integrator fresh built

abbrev sample : ℤ → Sample scaled
sample v = record {
  measurement = ("vout", real v) ∷ [];
  command = ("vref", real (pos 2)) ∷ [];
  timing = ("sample_time_s", real (pos 0)) ∷ [];
}

-- The error is 2 at each sample: 2, then 2 + 2 + 2 = 6, which is limited to 5.
saturates :
    after_all scaled-Laws as_float integrator
      (observed (sample (pos 0)) ∷ observed (sample (pos 0)) ∷ [])
      fresh
    ≡ record { x_history = pos 2 ∷ []; y_history = pos 5 ∷ [] }
unfolding after_all after observe clamp
saturates = refl

observe_saturates_example :
    ((e : CompensatorError) × (observe scaled as_float integrator (sample (pos 0)) fresh
        ≡ (err e, fresh)))
    ⊎ ((q : ActionRequest scaled) × ((observe scaled as_float integrator (sample (pos 0)) fresh).0
          ≡ ok q)
        × (true ≡ true)
        × InLimits scaled-Laws integrator.limits q.value
        × IsFirst scaled-Laws q.value
            (observe scaled as_float integrator (sample (pos 0)) fresh).1.y_history)
observe_saturates_example =
    observe_saturates scaled-Laws as_float integrator (sample (pos 0)) fresh
      integrator-IsCompensator.0

abbrev calls : List (Call scaled)
calls = observed (sample (pos 0)) ∷ restored (snapshot scaled integrator fresh) ∷ []

compensator-IsLine_example :
    IsLine integrator (after_all scaled-Laws as_float integrator calls fresh)
compensator-IsLine_example =
    compensator-IsLine scaled-Laws as_float arguments integrator fresh calls built

abbrev later : DelayLine scaled
later = record { x_history = pos 2 ∷ []; y_history = pos 5 ∷ [] }

later-IsLine : IsLine integrator later
later-IsLine = record { inputs_kept = refl; outputs_kept = refl; outputs_finite = (refl, tt) }

restore-snapshot_line_example :
    (y : ℤ) × IsFirst scaled-Laws y (pos 5 ∷ [])
    × (restore scaled as_float integrator (snapshot scaled integrator later) fresh
        ≡ (ok (state_update scaled later y), later))
restore-snapshot_line_example =
    restore-snapshot_line scaled-Laws as_float (λ v. refl) integrator later fresh
      integrator-IsCompensator.0 later-IsLine integrator-IsCompensator.1 (refl, tt)

run-reference_example :
    run scaled as_float integrator (sample (pos 0) ∷ sample (pos 1) ∷ sample (pos 2) ∷ []) fresh
    ≡ reference_run scaled as_float integrator
        (sample (pos 0) ∷ sample (pos 1) ∷ sample (pos 2) ∷ [])
        (before_all scaled integrator)
run-reference_example =
    run-reference scaled as_float integrator (sample (pos 0) ∷ sample (pos 1) ∷ sample (pos 2) ∷ [])
      integrator-IsCompensator.0
