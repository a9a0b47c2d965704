-- ===== src/Evidence/Examples.antt =====
-- The recorded evidence level at concrete inputs.
use power_electronics_ai_sim.Base.{◌≤◌, ◌≡◌, refl, ◌↔◌, ◌⊎◌, none, some, [], ◌∷◌, ok, err}
use power_electronics_ai_sim.Lifecycle.{qualified, run_ok}
use power_electronics_ai_sim.Checks.{assessed, partial}
use power_electronics_ai_sim.TimeModel.{
  EvidenceLevel, diagnostic_only, cap_evidence_level_for, comparable, functional, limited, stepped,
  kernel, window, RouteCapabilities, route, contradictory_route, evidence_rank, evidence_cap_for,
}
use power_electronics_ai_sim.Evidence.{
  RunFacts, formal_comparison, exploratory, derive_evidence_level, route_capabilities,
}
use power_electronics_ai_sim.Evidence.Comparable.{
  IsComparable, derive_evidence_level_comparable, derive_evidence_level_capped,
}

abbrev in_kernel : RouteCapabilities
in_kernel = record { time_model = stepped; control_location = kernel; event_granularity = window }

abbrev reviewed : RunFacts
reviewed = record {
  status = qualified;
  mode = formal_comparison;
  worktree_status = "clean";
  environment_status = "known";
  backends = some (some "known" ∷ some "known" ∷ []);
  review_status = some "reviewed";
  verification_status = some "verified";
  qualification_level = assessed;
}

reviewed_is_comparable : derive_evidence_level reviewed in_kernel ≡ ok comparable
unfolding derive_evidence_level cap_evidence_level_for
reviewed_is_comparable = refl

partial_is_limited :
    derive_evidence_level (record reviewed { qualification_level = partial }) in_kernel ≡ ok limited
unfolding derive_evidence_level cap_evidence_level_for
partial_is_limited = refl

defaults :
    (route_capabilities "stepped" none none ≡ ok in_kernel)
    × (route_capabilities "whole_run" (some "kernel") none ≡ err contradictory_route)
unfolding route_capabilities route
defaults = (refl, refl)

accepted : route "stepped" "kernel" "window" ≡ ok in_kernel
unfolding route
accepted = refl

derive_evidence_level_comparable_example :
    (derive_evidence_level reviewed in_kernel ≡ ok comparable) ↔ IsComparable reviewed in_kernel
derive_evidence_level_comparable_example = derive_evidence_level_comparable reviewed in_kernel

abbrev trial : RunFacts
trial = record reviewed { mode = exploratory }

derive_evidence_level_capped_example :
    (level : EvidenceLevel) × (cap : EvidenceLevel) × (derive_evidence_level trial in_kernel
      ≡ ok level)
    × (evidence_cap_for in_kernel ≡ ok cap)
    × (evidence_rank level ≤ evidence_rank cap)
    × (((qualified ≡ run_ok) ⊎ (qualified ≡ qualified)) ⊎ (level ≡ diagnostic_only))
    × ((exploratory ≡ formal_comparison) ⊎ (evidence_rank level ≤ evidence_rank functional))
derive_evidence_level_capped_example =
    derive_evidence_level_capped "stepped" "kernel" "window" trial in_kernel accepted
