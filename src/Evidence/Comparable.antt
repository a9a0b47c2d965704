-- ===== src/Evidence/Comparable.antt =====
-- Exactly when a run is recorded as comparable, and what an incomplete one may claim.
use power_electronics_ai_sim.Base.{
  ◌≤◌, String, ◌≡◌, ◌≢◌, refl, ◌↔◌, ◌⊎◌, true, not, Option, none, some, List, [], ◌∷◌, any, All,
  eq_iff, arith, Result, ok, err,
}
use mathlib.Core.Path.{subst}
use power_electronics_ai_sim.Lifecycle.{run_ok, qualified}
use power_electronics_ai_sim.Checks.{assessed}
use power_electronics_ai_sim.TimeModel.{
  EvidenceLevel, diagnostic_only, functional, limited, comparable, stepped, kernel, RouteError,
  RouteCapabilities, route, cap_evidence_level_for, evidence_rank, evidence_cap_for,
}
use power_electronics_ai_sim.TimeModel.Caps.{route_has_cap}
use power_electronics_ai_sim.Evidence.{
  RunFacts, formal_comparison, says, backends_known, derive_evidence_level,
}

-- What a comparable run has to show.
pub record IsComparable (f : RunFacts) (r : RouteCapabilities) : Type 0 where
  pub finished : (f.status ≡ run_ok) ⊎ (f.status ≡ qualified)
  pub formal : f.mode ≡ formal_comparison
  pub clean : f.worktree_status ≡ "clean"
  pub environment : f.environment_status ≡ "known"
  pub backends :
      (bs : List (Option String)) × (f.backends ≡ some bs) × All (λ b. b ≡ some "known") bs
  pub reviewed : f.review_status ≡ some "reviewed"
  pub verified : f.verification_status ≡ some "verified"
  pub qualification : f.qualification_level ≡ assessed
  pub clock : r.time_model ≡ stepped
  pub loop : r.control_location ≡ kernel

says_iff : (word : String) (o : Option String) → (says word o ≡ true) ↔ (o ≡ some word)
says_iff word none = ground arith
says_iff word (some s) = ground (arith, eq_iff s word)

All-known_iff :
    (bs : List (Option String))
    → (not (any (λ b. not (says "known" b)) bs) ≡ true) ↔ All (λ b. b ≡ some "known") bs
All-known_iff [] = (λ h. tt, λ h. refl)
All-known_iff (b ∷ bs) = ground (arith, says_iff "known" b, All-known_iff bs)

backends_known_iff :
    (o : Option (List (Option String)))
    → (backends_known o ≡ true)
      ↔ ((bs : List (Option String)) × (o ≡ some bs) × All (λ b. b ≡ some "known") bs)
backends_known_iff none = (λ h. absurd (cc), λ h. absurd (cc (h.1)))
backends_known_iff (some bs) = (
  λ h. (bs, refl, (All-known_iff bs).0 h),
  λ h.
      let same : h.0 ≡ bs = cc (h.1) in
      (All-known_iff bs).1 (subst (All (λ b. b ≡ some "known")) same h.2),
)

cap_functional : (r : RouteCapabilities) → cap_evidence_level_for "functional" r ≢ ok comparable
unfolding cap_evidence_level_for
cap_functional r = ground arith

cap_limited : (r : RouteCapabilities) → cap_evidence_level_for "limited" r ≢ ok comparable
unfolding cap_evidence_level_for
cap_limited r = ground arith

cap_comparable :
    (r : RouteCapabilities)
    → (cap_evidence_level_for "comparable" r ≡ ok comparable)
      ↔ ((r.time_model ≡ stepped) × (r.control_location ≡ kernel))
unfolding cap_evidence_level_for
cap_comparable r = ground arith

-- A run is recorded as `comparable` exactly if it completed, was a formal comparison from a clean
-- worktree in a known environment with every backend known, its plant is reviewed and verified, its
-- qualification is `assessed`, and the kernel owns the clock and the loop.
pub derive_evidence_level_comparable :
    (f : RunFacts) (r : RouteCapabilities)
    → (derive_evidence_level f r ≡ ok comparable) ↔ IsComparable f r
unfolding derive_evidence_level
derive_evidence_level_comparable f r = (
  λ h. record {
    finished = ground (arith, cap_functional r, cap_limited r);
    formal = ground (arith, cap_functional r, cap_limited r);
    clean = ground (arith, eq_iff f.worktree_status "clean", cap_functional r, cap_limited r);
    environment =
        ground (arith, eq_iff f.environment_status "known", cap_functional r, cap_limited r);
    backends = (backends_known_iff f.backends).0 (ground (arith, cap_functional r, cap_limited r));
    reviewed =
        (says_iff "reviewed" f.review_status).0 (ground (arith, cap_functional r, cap_limited r));
    verified =
        (says_iff "verified" f.verification_status).0
          (ground (arith, cap_functional r, cap_limited r));
    qualification = ground (arith, cap_functional r, cap_limited r);
    clock = ground (arith, cap_functional r, cap_limited r, cap_comparable r);
    loop = ground (arith, cap_functional r, cap_limited r, cap_comparable r);
  },
  λ v. ground (
    arith,
    (eq_iff f.worktree_status "clean").1 v.clean,
    (eq_iff f.environment_status "known").1 v.environment,
    (backends_known_iff f.backends).1 v.backends,
    (says_iff "reviewed" f.review_status).1 v.reviewed,
    (says_iff "verified" f.verification_status).1 v.verified,
    cap_comparable r,
  ),
)

-- Every cap admits `functional` and `limited`, and `comparable` becomes the cap.
capped_words :
    (r : RouteCapabilities) (cap : EvidenceLevel)
    → evidence_cap_for r ≡ ok cap
    → (cap ≡ comparable) ⊎ (cap ≡ limited)
    → (cap_evidence_level_for "functional" r ≡ ok functional)
      × (cap_evidence_level_for "limited" r ≡ ok limited)
      × (cap_evidence_level_for "comparable" r ≡ ok cap)
unfolding cap_evidence_level_for
capped_words r cap found either = ground arith

abbrev level_of : Result RouteError EvidenceLevel → EvidenceLevel
level_of (ok l) = l
level_of (err e) = diagnostic_only

-- On an accepted route the derivation never raises and never passes the route's cap; a run that did
-- not complete is `diagnostic_only`, and an exploratory run is at most `functional`.
pub derive_evidence_level_capped :
    (time location granularity : String) (f : RunFacts) (r : RouteCapabilities)
    → route time location granularity ≡ ok r
    → (level : EvidenceLevel) × (cap : EvidenceLevel) × (derive_evidence_level f r ≡ ok level)
      × (evidence_cap_for r ≡ ok cap)
      × (evidence_rank level ≤ evidence_rank cap)
      × (((f.status ≡ run_ok) ⊎ (f.status ≡ qualified)) ⊎ (level ≡ diagnostic_only))
      × ((f.mode ≡ formal_comparison) ⊎ (evidence_rank level ≤ evidence_rank functional))
unfolding derive_evidence_level
derive_evidence_level_capped time location granularity f r h =
    let (cap, found, known, either) = route_has_cap time location granularity r h in
    let words = capped_words r cap found either in
    (
      level_of (derive_evidence_level f r),
      cap,
      ground (arith, words),
      found,
      ground (arith, words),
      ground (arith, words),
      ground (arith, words),
    )
