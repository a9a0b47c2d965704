-- ===== src/Checks/Outcome/Levels.antt =====
-- The level of merged reports, and where the recorded outcome agrees with the reports' flags.
use power_electronics_ai_sim.Base.{
  ◌≡◌, refl, ◌↔◌, true, false, arith, none, some, any-append, ok, leb, if◌then◌else◌,
}
use power_electronics_ai_sim.Checks.{
  CheckReport, Level, level, level_order, assessed, failed, is_warning, blocking, effective_level,
  merge, finding_blocking,
}
use power_electronics_ai_sim.Checks.Merging.{IsConsistent}
use power_electronics_ai_sim.Checks.Outcome.{
  from_report, Document, qualification_document, document_of,
}

abbrev pub worst : Level → Level → Level
worst a b = if leb (level_order b) (level_order a) then a else b

-- Two reports that declare no level and whose flags agree with their findings merge to the worse of
-- their levels, and the merged flag is true exactly if that level is not `failed`.
pub level-merge :
    (a b : CheckReport)
    → IsConsistent a
    → IsConsistent b
    → a.level ≡ none
    → b.level ≡ none
    → (effective_level (merge a b) ≡ worst (effective_level a) (effective_level b))
      × (((merge a b).passed ≡ false) ↔ (effective_level (merge a b) ≡ failed))
unfolding effective_level merge blocking
level-merge a b ca cb na nb = ground (
  arith,
  any-append finding_blocking a.findings b.findings,
  any-append (λ f. is_warning f.severity) a.findings b.findings,
)

-- Where a report declares no level, the recorded outcome passes exactly if the report does.
pub outcome_passed :
    (r : CheckReport) → IsConsistent r → r.level ≡ none → (from_report r).passed ≡ r.passed
unfolding from_report effective_level
outcome_passed r c n = ground arith

-- A level that one report declares hides the other's failure: a report that declares `assessed`,
-- merged with any report that blocks and declares no level, gives a report whose flag is false and
-- whose recorded document passes at level `assessed`.
pub declared_level_hides :
    (a b : CheckReport)
    → a.level ≡ some (level assessed)
    → b.level ≡ none
    → blocking b ≡ true
    → ((merge a b).passed ≡ false)
      × ((d : Document) × (qualification_document (merge a b) none none ≡ ok d)
          × (d.passed ≡ true)
          × (d.level ≡ assessed))
unfolding merge effective_level qualification_document from_report
declared_level_hides a b la lb blocks =
    (ground arith, (document_of (from_report (merge a b)), refl, ground arith, ground arith))
