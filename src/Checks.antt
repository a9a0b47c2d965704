-- ===== src/Checks.antt =====
-- Structured check results, src/pe_sim/checks.py: findings, reports, the qualification ladder, and
-- how reports merge. A finding's `evidence`, a payload that nothing here reads, is left out.
pub mod Plugins
pub mod Merging
pub mod Observations
pub mod Samples
pub mod Outcome
mod Examples
use power_electronics_ai_sim.Base.{
  ℕ, String, Bool, true, false, not, ◌&&◌, ◌||◌, Option, none, some, List, [], ◌∷◌, ◌++◌, map, any,
  leb, str_eq, if◌then◌else◌, Result, ok, err,
}

pub data CheckError : Type 0 where
  incomplete_finding unsupported_level missing_findings inconsistent_flag : CheckError
  level_mismatch unsupported_result : CheckError

-- The four severities; construction refuses any other string.
pub data Severity : Type 0 where
  info warning error fatal : Severity

pub record CheckFinding : Type 0 where
  pub rule_id : String
  pub category : String
  pub message : String
  pub severity : Severity
  pub passed : Bool
  pub stop_requested : Bool
  pub plugin_id : Option String

-- `CheckFinding.__post_init__`
unfoldable pub post_init : CheckFinding → Result CheckError CheckFinding
post_init f =
    if str_eq f.rule_id "" || (str_eq f.category "" || str_eq f.message "")
    then err incomplete_finding
    else ok f

abbrev pub is_severe : Severity → Bool
is_severe error = true
is_severe fatal = true
is_severe s = false

abbrev pub is_warning : Severity → Bool
is_warning warning = true
is_warning s = false

unfoldable pub finding_blocking : CheckFinding → Bool
finding_blocking f = not f.passed && (f.stop_requested || is_severe f.severity)

-- `CHECK_LEVELS`
pub data Level : Type 0 where
  assessed partial failed : Level

-- What a report's `level` may hold: a current level, a legacy one, or any other string.
pub data LevelWord : Type 0 where
  level : Level → LevelWord
  full limited : LevelWord
  other : String → LevelWord

-- `_LEVEL_ORDER`
abbrev pub level_order : Level → ℕ
level_order assessed = 0
level_order partial = 1
level_order failed = 2

-- `normalize_check_level`
unfoldable pub normalize : LevelWord → Result CheckError Level
normalize (level l) = ok l
normalize full = ok assessed
normalize limited = ok partial
normalize (other s) = err unsupported_level

abbrev pub ranked : Option LevelWord → Option Level
ranked (some (level l)) = some l
ranked w = none

-- The later of two, the first of equals, as `max` with a key gives it.
abbrev pub worse : Option Level → Option Level → Option LevelWord
worse none none = none
worse none (some b) = some (level b)
worse (some a) none = some (level a)
worse (some a) (some b) = some (level (if leb (level_order b) (level_order a) then a else b))

-- `_worse_level`: only the current words are kept.
unfoldable pub worse_level : Option LevelWord → Option LevelWord → Option LevelWord
worse_level left right = worse (ranked left) (ranked right)

pub record CheckReport : Type 0 where
  pub passed : Bool
  pub findings : List CheckFinding
  pub plugin_id : Option String
  pub rule_version : String
  pub level : Option LevelWord
  pub limitations : List String

abbrev pub default_version : String
default_version = "checks-v1"

-- `CheckReport.ok`
unfoldable pub ok_report : Option String → CheckReport
ok_report id = record {
  passed = true;
  findings = [];
  plugin_id = id;
  rule_version = default_version;
  level = none;
  limitations = [];
}

unfoldable pub single_report : CheckFinding → Option String → CheckReport
unfolding finding_blocking
single_report f id = record (ok_report id) { passed = not (finding_blocking f); findings = f ∷ [] }

-- `CheckReport.failure` with its default severity "error".
unfoldable pub failure_report :
    String → String → String → Option String → Result CheckError CheckReport
unfolding post_init single_report
failure_report category message rule_id id =
    elim (post_init (record {
      rule_id = if str_eq rule_id "" then category else rule_id;
      category = category;
      message = message;
      severity = error;
      passed = false;
      stop_requested = false;
      plugin_id = id;
    })) [ ok f ↦ ok (single_report f id) | err e ↦ err e ]

unfoldable pub blocking : CheckReport → Bool
unfolding finding_blocking
blocking r = any finding_blocking r.findings

-- `CheckReport.effective_level`, where no level is declared or the declared one is unknown
unfoldable pub derived_level : CheckReport → Level
unfolding blocking
derived_level r =
    if blocking r || not r.passed
    then failed
    else if any (λ f. is_warning f.severity) r.findings
    then partial
    else assessed

unfoldable pub effective_level : CheckReport → Level
unfolding normalize derived_level
effective_level r = elim r.level [
  | none ↦ derived_level r
  | some w ↦ elim (normalize w) [ ok l ↦ l | err e ↦ derived_level r ]
]

abbrev pub failed_categories : List CheckFinding → List String
failed_categories [] = []
failed_categories (f ∷ fs) =
    if f.passed then failed_categories fs else f.category ∷ failed_categories fs

unfoldable pub reasons : CheckReport → List String
reasons r = elim (failed_categories r.findings) [
  | [] ↦ if r.passed then [] else "check_failed" ∷ []
  | c ∷ cs ↦ c ∷ cs
]

abbrev pub without : String → List String → List String
without x [] = []
without x (y ∷ ys) = let rest = without x ys in if str_eq y x then rest else y ∷ rest

-- `tuple(dict.fromkeys(values))`: the first of equal values is kept.
abbrev pub distinct : List String → List String
distinct [] = []
distinct (x ∷ xs) = x ∷ without x (distinct xs)

unfoldable pub merge : CheckReport → CheckReport → CheckReport
unfolding blocking worse_level
merge a b = record {
  passed = not (blocking a || blocking b);
  findings = a.findings ++ b.findings;
  plugin_id = a.plugin_id;
  rule_version = a.rule_version;
  level = worse_level a.level b.level;
  limitations = distinct (a.limitations ++ b.limitations);
}
