-- ===== src/TimeModel.antt =====
-- Who owns the clock, src/pe_sim/time_model.py: the declared route, its evidence cap and its
-- limitations. The checks of a whole-run trace are in the module Trace.
pub mod Caps
pub mod Trace
mod Examples
use power_electronics_ai_sim.Base.{
  ℕ, String, Bool, true, false, Option, none, some, List, [], ◌∷◌, ◌++◌, leb, str_eq, if◌then◌else◌,
  Result, ok, err, ◌>>=◌, ◌>>◌, raise_if,
}

pub data TimeModel : Type 0 where
  stepped whole_run : TimeModel

pub data ControlLocation : Type 0 where
  kernel model : ControlLocation

pub data EventGranularity : Type 0 where
  window continuous : EventGranularity

-- `RUNTIME_EVIDENCE_LEVELS`, weakest first
pub data EvidenceLevel : Type 0 where
  diagnostic_only functional limited comparable : EvidenceLevel

-- The `ValueError`s.
pub data RouteError : Type 0 where
  unknown_time_model unknown_control_location unknown_event_granularity : String → RouteError
  contradictory_route no_cap_declared : RouteError
  unknown_level : String → RouteError

-- `x not in TIME_MODELS` and the like, with the constant that a known text names.
abbrev pub time_model_of : String → Option TimeModel
time_model_of s =
    if str_eq s "stepped"
    then some stepped
    else if str_eq s "whole_run"
    then some whole_run
    else none

abbrev pub control_location_of : String → Option ControlLocation
control_location_of s =
    if str_eq s "kernel" then some kernel else if str_eq s "model" then some model else none

abbrev pub event_granularity_of : String → Option EventGranularity
event_granularity_of s =
    if str_eq s "window"
    then some window
    else if str_eq s "continuous"
    then some continuous
    else none

abbrev pub evidence_level_of : String → Option EvidenceLevel
evidence_level_of s =
    if str_eq s "diagnostic_only"
    then some diagnostic_only
    else if str_eq s "functional"
    then some functional
    else if str_eq s "limited"
    then some limited
    else if str_eq s "comparable"
    then some comparable
    else none

abbrev pub or_raise {ℓ κ} : {E : Type κ} {A : Type ℓ} → Option A → E → Result E A
or_raise none e = err e
or_raise (some a) e = ok a

pub record RouteCapabilities : Type 0 where
  pub time_model : TimeModel
  pub control_location : ControlLocation
  pub event_granularity : EventGranularity

abbrev contradicts : TimeModel → ControlLocation → Bool
contradicts whole_run kernel = true
contradicts t c = false

-- `RouteCapabilities(...)` with its `__post_init__`
unfoldable pub route : String → String → String → Result RouteError RouteCapabilities
route time location granularity = do
  t ← or_raise (time_model_of time) (unknown_time_model time)
  c ← or_raise (control_location_of location) (unknown_control_location location)
  g ← or_raise (event_granularity_of granularity) (unknown_event_granularity granularity)
  raise_if (contradicts t c) contradictory_route
  ok (record { time_model = t; control_location = c; event_granularity = g })

-- `_legacy_capabilities`
unfoldable pub legacy_capabilities : String → Result RouteError RouteCapabilities
unfolding route
legacy_capabilities time =
    route time (if str_eq time "whole_run" then "model" else "kernel") "window"

-- `_ROUTE_EVIDENCE_CAP`
abbrev pub route_evidence_cap : TimeModel → ControlLocation → Option EvidenceLevel
route_evidence_cap stepped kernel = some comparable
route_evidence_cap stepped model = some limited
route_evidence_cap whole_run model = some limited
route_evidence_cap whole_run kernel = none

-- `_EVIDENCE_RANK`
abbrev pub evidence_rank : EvidenceLevel → ℕ
evidence_rank diagnostic_only = 0
evidence_rank functional = 1
evidence_rank limited = 2
evidence_rank comparable = 3

unfoldable pub evidence_cap_for : RouteCapabilities → Result RouteError EvidenceLevel
evidence_cap_for r = or_raise (route_evidence_cap r.time_model r.control_location) no_cap_declared

abbrev weaker : EvidenceLevel → EvidenceLevel → EvidenceLevel
weaker level cap = if leb (evidence_rank level) (evidence_rank cap) then level else cap

unfoldable pub cap_evidence_level_for : String → RouteCapabilities → Result RouteError EvidenceLevel
unfolding evidence_cap_for
cap_evidence_level_for name r = do
  level ← or_raise (evidence_level_of name) (unknown_level name)
  cap ← evidence_cap_for r
  ok (weaker level cap)

-- `_ROUTE_INHERENT_LIMITATIONS`, by `route_inherent_limitations_for`
unfoldable pub route_inherent_limitations_for : RouteCapabilities → List String
route_inherent_limitations_for r = elim r.time_model [
  | stepped ↦ []
  | whole_run ↦ "in_run_enforcement_unavailable" ∷ "post_hoc_validation_only" ∷ []
]

abbrev control_limitations : ControlLocation → List String
control_limitations model = "actuator_control_in_model" ∷ []
control_limitations kernel = []

abbrev event_limitations : EventGranularity → List String
event_limitations window = "events_quantized_to_control_windows" ∷ []
event_limitations continuous = []

unfoldable pub route_limitations_for : RouteCapabilities → List String
unfolding route_inherent_limitations_for
route_limitations_for r =
    (route_inherent_limitations_for r ++ control_limitations r.control_location)
    ++ event_limitations r.event_granularity

unfoldable pub evidence_cap : String → Result RouteError EvidenceLevel
unfolding legacy_capabilities evidence_cap_for
evidence_cap time = do r ← legacy_capabilities time; evidence_cap_for r

unfoldable pub cap_evidence_level : String → String → Result RouteError EvidenceLevel
unfolding legacy_capabilities cap_evidence_level_for
cap_evidence_level name time = do r ← legacy_capabilities time; cap_evidence_level_for name r

unfoldable pub formal_comparison_allowed : String → Bool
formal_comparison_allowed time = str_eq time "stepped"

unfoldable pub route_limitations : String → Result RouteError (List String)
unfolding legacy_capabilities route_inherent_limitations_for
route_limitations time = do r ← legacy_capabilities time; ok (route_inherent_limitations_for r)
