-- ===== src/Checks/Merging.antt =====
-- What merging reports keeps: findings, blocking, and the flag.
use power_electronics_ai_sim.Base.{◌≡◌, refl, not, ◌||◌, any-append, Option, String}
use power_electronics_ai_sim.Checks.{CheckReport, finding_blocking, blocking, merge, ok_report}

-- The flag tells whether a finding blocks.
abbrev pub IsConsistent : CheckReport → Type 0
IsConsistent r = r.passed ≡ not (blocking r)

pub blocking-merge : (a b : CheckReport) → blocking (merge a b) ≡ (blocking a || blocking b)
unfolding merge blocking
blocking-merge a b = any-append finding_blocking a.findings b.findings

pub merge-IsConsistent : (a b : CheckReport) → IsConsistent (merge a b)
merge-IsConsistent a b = rw blocking-merge (unfold merge in refl)

pub ok_report-IsConsistent : (id : Option String) → IsConsistent (ok_report id)
unfolding ok_report blocking
ok_report-IsConsistent id = refl
