-- ===== src/Checks/Outcome.antt =====
-- The qualification outcome, src/pe_sim/qualification.py: the level of a report, and the document
-- that the runner records.
pub mod Levels
use power_electronics_ai_sim.Base.{
  ◌≡◌, refl, ◌↔◌, ◌⊎◌, Bool, true, false, not, ◌&&◌, ◌||◌, String, List, [], ◌∷◌, arith, Option,
  none, some, any, all, Result, ok, err, ◌>>=◌, ◌>>◌, raise_if,
}
use power_electronics_ai_sim.Checks.{
  CheckError, level_mismatch, CheckFinding, CheckReport, Level, LevelWord, level, assessed, partial,
  failed, is_warning, blocking, effective_level, derived_level, normalize, reasons, merge,
  worse_level,
}
use power_electronics_ai_sim.Checks.Merging.{IsConsistent, merge-IsConsistent, blocking-merge}

abbrev is_failed : Level → Bool
is_failed failed = true
is_failed l = false

abbrev same : Bool → Bool → Bool
same true b = b
same false b = not b

pub record QualificationOutcome : Type 0 where
  pub level : Level
  pub passed : Bool
  pub reasons : List String
  pub limitations : List String
  pub findings : List CheckFinding
  pub rule_version : String

-- `QualificationOutcome.from_report`
unfoldable pub from_report : CheckReport → QualificationOutcome
from_report r = record {
  level = effective_level r;
  passed = not (is_failed (effective_level r));
  reasons = reasons r;
  limitations = r.limitations;
  findings = r.findings;
  rule_version = r.rule_version;
}

-- The document of an outcome; `checks` is the report's own `to_dict`, of which the flag and the
-- level are kept.
pub record Document : Type 0 where
  pub passed : Bool
  pub level : Level
  pub reasons : List String
  pub limitations : List String
  pub checks_passed : Bool
  pub checks_level : Level

-- `QualificationOutcome.to_report`
unfoldable pub to_report : QualificationOutcome → CheckReport
to_report o = record {
  passed = o.passed;
  findings = o.findings;
  plugin_id = none;
  rule_version = o.rule_version;
  level = some (level o.level);
  limitations = o.limitations;
}

abbrev document_of : QualificationOutcome → Document
document_of o = record {
  passed = o.passed;
  level = o.level;
  reasons = o.reasons;
  limitations = o.limitations;
  checks_passed = not (blocking (to_report o));
  checks_level = effective_level (to_report o);
}

-- The document with the level that the runner selects, if it selects one.
selected : Option LevelWord → Document → Result CheckError Document
selected none d = ok d
selected (some w) d = do
  l ← normalize w
  ok (record d {
    level = l;
    passed = not (is_failed l);
    checks_level = l;
    checks_passed = not (is_failed l);
  })

abbrev with_reasons : Option (List String) → Document → Document
with_reasons none d = d
with_reasons (some rs) d = record d { reasons = rs }

unfoldable pub qualification_document :
    CheckReport → Option LevelWord → Option (List String) → Result CheckError Document
unfolding selected to_report
qualification_document r w rs = do
  d ← selected w (document_of (from_report r))
  ok (with_reasons rs d)
