-- ===== src/Actions/Examples.antt =====
-- A duty limited to 0 .. 9, and a measurement of two values.
use power_electronics_ai_sim.Base.{◌≡◌, refl, Option, some, none, [], ◌∷◌, ok, if◌then◌else◌}
use power_electronics_ai_sim.Number.{InRange, clamp}
use power_electronics_ai_sim.Number.Scaled.{ℤ, pos, negsuc, scaled, scaled-Laws}
use power_electronics_ai_sim.Contracts.{Payload, real, natural, negative, flag, text, Mapping}
use power_electronics_ai_sim.Actions.{
  upper, BoundedActionPolicy, bounded_action_policy, project_action,
}
use power_electronics_ai_sim.Actions.Projection.{
  Cases, project_action-Cases, project_action_settles,
}

abbrev as_float : Payload ℤ → Option ℤ
as_float (real v) = some v
as_float (natural n) = some (pos n)
as_float (negative n) = some (negsuc n)
as_float (flag b) = some (if b then pos 1 else pos 0)
as_float p = none

abbrev duty : BoundedActionPolicy scaled
duty = record { minimum = pos 0; maximum = pos 9 }

project_action-Cases_example :
    Cases scaled-Laws as_float duty
      (pos 12)
      (project_action scaled as_float (natural 12) (some (real (pos 0))) (some (natural 9)))
unfolding bounded_action_policy
project_action-Cases_example =
    project_action-Cases scaled-Laws as_float (real (pos 0)) (natural 9) (natural 12) duty (pos 12)
      refl refl refl

project_action_settles_example :
    (b : BoundedActionPolicy scaled) × (bounded_action_policy scaled as_float
        (real (pos 0))
        (natural 9)
      ≡ ok b)
    × InRange scaled b.minimum b.maximum (pos 9)
    × (project_action scaled as_float (real (pos 9)) (some (real (pos 0))) (some (natural 9))
        ≡ ok (pos 9, none))
unfolding project_action clamp
project_action_settles_example =
    project_action_settles scaled-Laws as_float (real (pos 0)) (natural 9) (natural 12) (pos 9)
      (some upper) refl refl

abbrev measured : Mapping (Payload ℤ)
measured = ("vout", real (pos 5)) ∷ ("label", text "on") ∷ []
