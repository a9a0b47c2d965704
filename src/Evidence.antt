-- ===== src/Evidence.antt =====
-- The evidence level that a run records, src/pe_sim/runtime.py: `_route_capabilities` and
-- `_derive_evidence_level`.
pub mod Comparable
mod Examples
use power_electronics_ai_sim.Base.{
  String, Bool, true, false, not, ◌&&◌, ◌||◌, Option, none, some, List, [], ◌∷◌, any, str_eq,
  if◌then◌else◌, Result, ok, err,
}
use power_electronics_ai_sim.Lifecycle.{Status, run_ok, qualified}
use power_electronics_ai_sim.Checks.{Level, assessed, partial, failed}
use power_electronics_ai_sim.TimeModel.{
  EvidenceLevel, diagnostic_only, RouteError, RouteCapabilities, route, cap_evidence_level_for,
}

abbrev or_text : Option String → String → String
or_text none d = d
or_text (some s) d = s

-- `_route_capabilities`: the caller's declarations, or the route's own defaults
unfoldable pub route_capabilities :
    String → Option String → Option String → Result RouteError RouteCapabilities
route_capabilities time location granularity =
    route time (or_text location (if str_eq time "whole_run" then "model" else "kernel"))
      (or_text granularity "window")

pub data Mode : Type 0 where
  exploratory formal_comparison : Mode

-- What the derivation reads of the run: a missing or malformed entry is `none`.
pub record RunFacts : Type 0 where
  pub status : Status
  pub mode : Mode
  pub worktree_status : String
  pub environment_status : String
  -- `none` if `backends` is not a list; a member is `none` if it is not a mapping
  pub backends : Option (List (Option String))
  pub review_status : Option String
  pub verification_status : Option String
  pub qualification_level : Level

abbrev completed : Status → Bool
completed run_ok = true
completed qualified = true
completed s = false

abbrev is_formal : Mode → Bool
is_formal formal_comparison = true
is_formal exploratory = false

abbrev pub says : String → Option String → Bool
says word none = false
says word (some s) = str_eq s word

abbrev backends_known : Option (List (Option String)) → Bool
backends_known none = false
backends_known (some bs) = not (any (λ b. not (says "known" b)) bs)

abbrev by_qualification : Level → RouteCapabilities → Result RouteError EvidenceLevel
by_qualification failed r = ok diagnostic_only
by_qualification partial r = cap_evidence_level_for "limited" r
by_qualification assessed r = cap_evidence_level_for "comparable" r

unfoldable pub derive_evidence_level :
    RunFacts → RouteCapabilities → Result RouteError EvidenceLevel
derive_evidence_level f r =
    if not (completed f.status)
    then ok diagnostic_only
    else if not (is_formal f.mode)
    then cap_evidence_level_for "functional" r
    else if not (str_eq f.worktree_status "clean")
    then cap_evidence_level_for "limited" r
    else if not (str_eq f.environment_status "known")
    then cap_evidence_level_for "limited" r
    else if not (backends_known f.backends)
    then cap_evidence_level_for "limited" r
    else if not (says "reviewed" f.review_status)
    then cap_evidence_level_for "limited" r
    else if not (says "verified" f.verification_status)
    then cap_evidence_level_for "limited" r
    else by_qualification f.qualification_level r
