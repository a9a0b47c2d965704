-- ===== src/TimeModel/Caps.antt =====
-- The evidence cap of a declared route: every route has one, and no level passes it.
use power_electronics_ai_sim.Base.{
  ◌≤◌, String, ◌≡◌, ◌↔◌, ◌⊎◌, inl, inr, true, some, [], leb, str_eq, eq_iff, Bool-cases, arith,
  if◌then◌else◌, ok,
}
use power_electronics_ai_sim.TimeModel.{
  TimeModel, stepped, ControlLocation, kernel, continuous, EvidenceLevel, limited, comparable,
  RouteCapabilities, route, evidence_rank, evidence_cap_for, cap_evidence_level_for,
  route_limitations_for, evidence_cap, formal_comparison_allowed, evidence_level_of,
}

-- The cap of a route that is not contradictory.
abbrev cap_of : TimeModel → ControlLocation → EvidenceLevel
cap_of stepped kernel = comparable
cap_of t c = limited

evidence_cap_for-cap_of :
    (time location granularity : String) (r : RouteCapabilities)
    → route time location granularity ≡ ok r
    → evidence_cap_for r ≡ ok (cap_of r.time_model r.control_location)
unfolding route evidence_cap_for
evidence_cap_for-cap_of time location granularity r h = ground arith

-- A route that construction accepts has an evidence cap; the cap is `comparable` exactly if the
-- kernel owns the clock and closes the loop, and `limited` otherwise.
pub route_has_cap :
    (time location granularity : String) (r : RouteCapabilities)
    → route time location granularity ≡ ok r
    → (cap : EvidenceLevel) × (evidence_cap_for r ≡ ok cap)
      × ((cap ≡ comparable) ↔ ((r.time_model ≡ stepped) × (r.control_location ≡ kernel)))
      × ((cap ≡ comparable) ⊎ (cap ≡ limited))
route_has_cap time location granularity r h = (
  cap_of r.time_model r.control_location,
  evidence_cap_for-cap_of time location granularity r h,
  ground arith,
  ground arith,
)

-- Capping a known level on an accepted route never raises, and gives the weaker of the level and the
-- route's cap: its rank is at most both, and it is one of them.
pub cap_evidence_level_for_meet :
    (time location granularity name : String) (r : RouteCapabilities) (level : EvidenceLevel)
    → route time location granularity ≡ ok r
    → evidence_level_of name ≡ some level
    → (cap : EvidenceLevel) × (capped : EvidenceLevel) × (evidence_cap_for r ≡ ok cap)
      × (cap_evidence_level_for name r ≡ ok capped)
      × (evidence_rank capped ≤ evidence_rank level)
      × (evidence_rank capped ≤ evidence_rank cap)
      × ((capped ≡ level) ⊎ (capped ≡ cap))
unfolding cap_evidence_level_for
cap_evidence_level_for_meet time location granularity name r level h l =
    let cap = cap_of r.time_model r.control_location in
    let found = evidence_cap_for-cap_of time location granularity r h in
    (
      cap,
      if leb (evidence_rank level) (evidence_rank cap) then level else cap,
      found,
      rw (l, found),
      ground arith,
      ground arith,
      ground arith,
    )

-- A route reports no limitation exactly if its cap is `comparable` and it is declared for
-- continuous events.
pub route_limitations_for_empty :
    (r : RouteCapabilities)
    → (route_limitations_for r ≡ [])
      ↔ ((evidence_cap_for r ≡ ok comparable) × (r.event_granularity ≡ continuous))
unfolding route_limitations_for evidence_cap_for
route_limitations_for_empty r = ground arith

-- The one-field form agrees: a time model may claim a formal comparison exactly if its cap is
-- `comparable`.
pub formal_comparison_allowed_iff :
    (time : String) → (formal_comparison_allowed time ≡ true) ↔ (evidence_cap time ≡ ok comparable)
unfolding formal_comparison_allowed evidence_cap
formal_comparison_allowed_iff time = elim (Bool-cases (str_eq time "whole_run")) [
  | inl whole ↦ rw ((eq_iff time "whole_run").0 whole) (ground arith)
  | inr other ↦ rw other (ground arith)
]
