-- ===== src/Negotiation/Examples.antt =====
-- A plant with events and a controller, and a schedule with one load step.
use power_electronics_ai_sim.Base.{
  String, ◌≡◌, ◌↔◌, refl, Option, some, none, List, [], ◌∷◌, ok, err, if◌then◌else◌,
}
use power_electronics_ai_sim.Number.Scaled.{ℤ, pos, negsuc, scaled}
use power_electronics_ai_sim.Contracts.{Payload, real, natural, negative, flag}
use power_electronics_ai_sim.Negotiation.{
  missing_capability, CapabilitySet, Declared, declared_mapping, listed, several, Timebase,
  timebase, Item, event_item, from_value, negotiate_capabilities, supported, missing, split_colon,
}
use power_electronics_ai_sim.Negotiation.Requirements.{IsGranted, negotiate_capabilities-IsGranted}

abbrev as_float : Payload ℤ → Option ℤ
as_float (real v) = some v
as_float (natural n) = some (pos n)
as_float (negative n) = some (negsuc n)
as_float (flag b) = some (if b then pos 1 else pos 0)
as_float p = none

abbrev declared : Declared scaled
declared = declared_mapping (record {
  names = some (several ("events" ∷ "snapshot" ∷ []));
  features = none;
  capabilities = none;
  event_types = some (several ("load_step" ∷ []));
  control_period_s = some (natural 10);
  observation_period_s = none;
})

abbrev plant : CapabilitySet scaled
plant = record {
  names = "events" ∷ "snapshot" ∷ [];
  event_types = "load_step" ∷ [];
  control_period_s = some (pos 10);
  observation_period_s = none;
}

abbrev controller : CapabilitySet scaled
controller = record {
  names = "discrete_control" ∷ [];
  event_types = [];
  control_period_s = none;
  observation_period_s = none;
}

abbrev clock : Timebase scaled
clock = record {
  unit = "s";
  control_period_s = pos 10;
  duration_s = pos 100;
  plant_step_s = some (pos 10);
  sample_offset_s = pos 0;
  event_tolerance_s = pos 0;
}

clock_accepted : timebase scaled clock ≡ ok clock
unfolding timebase
clock_accepted = refl

abbrev required : List String
required = "plant:snapshot" ∷ "discrete_control" ∷ []

abbrev schedule : List Item
schedule = event_item none (some (some "load_step")) ∷ []

negotiate_capabilities-IsGranted_example :
    (negotiate_capabilities scaled as_float declared
        (listed ("discrete_control" ∷ []))
        (some clock)
        required
        schedule
      ≡ ok (plant, controller))
    ↔ IsGranted scaled plant controller (some clock) required schedule
unfolding from_value
negotiate_capabilities-IsGranted_example =
    negotiate_capabilities-IsGranted scaled as_float declared (listed ("discrete_control" ∷ []))
      plant controller (some clock) required schedule refl refl

-- The requirement that no side meets is named.
refused :
    negotiate_capabilities scaled as_float declared
      (listed [])
      none
      ("plant:snapshot" ∷ "controller:reset" ∷ [])
      []
    ≡ err (missing_capability ("controller:reset" ∷ []))
unfolding negotiate_capabilities from_value supported missing split_colon
refused = refl
