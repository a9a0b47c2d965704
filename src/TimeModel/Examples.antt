-- ===== src/TimeModel/Examples.antt =====
-- Routes and whole-run traces at concrete inputs; times count microseconds.
use power_electronics_ai_sim.Base.{ℕ, ◌≡◌, refl, ◌↔◌, ◌⊎◌, true, List, [], ◌∷◌, some, ok, err}
use power_electronics_ai_sim.Number.Scaled.{ℤ, pos, scaled}
use power_electronics_ai_sim.TimeModel.{
  stepped, kernel, model, window, EvidenceLevel, limited, comparable, RouteCapabilities,
  contradictory_route, route, evidence_cap_for, cap_evidence_level, route_limitations,
}
use power_electronics_ai_sim.TimeModel.Caps.{route_has_cap}
use power_electronics_ai_sim.TimeModel.Trace.{
  Datum, boolean, number, samples, TraceContract, WholeRunResult, Problem, trace_contract,
  validate_whole_run_result, strict_float, signal, not_real, wide_gap, short_end, misaligned,
}
use power_electronics_ai_sim.TimeModel.Trace.Valid.{IsValidTrace, validate_whole_run_result_iff}

abbrev in_model : RouteCapabilities
in_model = record { time_model = stepped; control_location = model; event_granularity = window }

accepted : route "stepped" "model" "window" ≡ ok in_model
unfolding route
accepted = refl

contradiction_refused : route "whole_run" "kernel" "window" ≡ err contradictory_route
unfolding route
contradiction_refused = refl

route_has_cap_example :
    (cap : EvidenceLevel) × (evidence_cap_for in_model ≡ ok cap)
    × ((cap ≡ comparable) ↔ ((stepped ≡ stepped) × (model ≡ kernel)))
    × ((cap ≡ comparable) ⊎ (cap ≡ limited))
route_has_cap_example = route_has_cap "stepped" "model" "window" in_model accepted

legacy_forms :
    (cap_evidence_level "comparable" "whole_run" ≡ ok limited)
    × (route_limitations "stepped" ≡ ok [])
unfolding cap_evidence_level route_limitations
legacy_forms = (refl, refl)

abbrev num : ℕ → Datum ℤ
num n = number (pos n)

-- A sample every 10 us, with 1 us of slack.
abbrev contract : TraceContract scaled
contract = record { cadence_s = pos 10; coverage_tolerance_s = pos 1 }

abbrev good : WholeRunResult scaled
good = record {
  time_axis = samples (num 0 ∷ num 10 ∷ num 21 ∷ []);
  signals = some (("vout", samples (num 5 ∷ num 6 ∷ num 6 ∷ [])) ∷ []);
}

abbrev bad : WholeRunResult scaled
bad = record {
  time_axis = samples (num 0 ∷ num 12 ∷ []);
  signals = some (("vout", samples (num 5 ∷ boolean true ∷ num 6 ∷ [])) ∷ []);
}

good_trace : validate_whole_run_result scaled good contract (num 20) ≡ ok []
unfolding validate_whole_run_result
good_trace = refl

bad_trace :
    validate_whole_run_result scaled bad contract (num 20)
    ≡ ok (short_end ∷ wide_gap 1 ∷ misaligned "vout" ∷ not_real (signal "vout") 1 ∷ [])
unfolding validate_whole_run_result
bad_trace = refl

validate_whole_run_result_iff_example :
    (problems : List Problem) × (validate_whole_run_result scaled good contract (num 20)
      ≡ ok problems)
    × ((problems ≡ []) ↔ IsValidTrace scaled good contract (pos 20))
unfolding strict_float
validate_whole_run_result_iff_example =
    validate_whole_run_result_iff scaled good contract (num 20) (pos 20) refl refl

accepted_contract : trace_contract scaled (num 10) (num 1) "pe-sim.trace-contract.v1" ≡ ok contract
unfolding trace_contract
accepted_contract = refl
