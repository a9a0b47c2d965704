-- ===== src/Checks/Plugins.antt =====
-- Running check plugins, src/pe_sim/checks.py: `normalise_check_result`, `run_plugin`, `run_plugins`.
-- A plugin is code of the caller: a parameter that answers or raises.
pub mod FailClosed
use Prim.Native.Char.{code}
use Prim.Native.String.{◌++◌ as append}
use power_electronics_ai_sim.Base.{
  String, Bool, true, false, not, ◌||◌, Option, none, some, List, [], ◌∷◌, ◌==◌, str_eq, is_some,
  if◌then◌else◌, Result, ok, err, ◌>>=◌, ◌>>◌, raise_if,
}
use power_electronics_ai_sim.Checks.{
  CheckError, missing_findings, inconsistent_flag, unsupported_result, CheckFinding, error,
  post_init, CheckReport, ok_report, single_report, failure_report, blocking, merge,
}

-- What a plugin method may return. `unsupported` is any other Python value.
pub data Reasons : Type 0 where
  one : String → Reasons
  many : List String → Reasons

pub record FailedMapping : Type 0 where
  pub passed : Bool
  pub category : Option String
  pub message : Option String
  pub rule_id : Option String

pub data PluginValue : Type 0 where
  nothing : PluginValue
  report : CheckReport → PluginValue
  finding : CheckFinding → PluginValue
  boolean : Bool → PluginValue
  pair : Bool → Reasons → PluginValue
  mapping : FailedMapping → PluginValue
  unsupported : PluginValue

-- An `Exception` that plugin code raised: its type's name and its text.
pub record Raised : Type 0 where
  pub exception_type : String
  pub text : String

pub data Answer : Type 0 where
  returned : PluginValue → Answer
  raised : Raised → Answer

-- `a or b` on optional strings: an empty one is false.
abbrev pub or_id : Option String → Option String → Option String
or_id none b = b
or_id (some a) b = if str_eq a "" then b else some a

abbrev pub or_text : String → String → String
or_text a b = if str_eq a "" then b else a

abbrev pub get_or_text : Option String → String → String
get_or_text none d = d
get_or_text (some s) d = s

-- `reason.split(":", 1)[0]`
before_colon : String → String
before_colon String.[] = ""
before_colon (String.◌∷◌ c s) =
    let rest = before_colon s in if code c == 58 then "" else String.◌∷◌ c rest

-- A copy of each finding, with the plugin's id where it names none. Each copy is constructed anew.
named_findings : Option String → List CheckFinding → Result CheckError (List CheckFinding)
named_findings id [] = ok []
named_findings id (f ∷ fs) = do
  g ← post_init (record f { plugin_id = or_id f.plugin_id id })
  gs ← named_findings id fs
  ok (g ∷ gs)

legacy_finding : Option String → String → CheckFinding
legacy_finding id reason = record {
  rule_id = "legacy_checker";
  category = or_text (before_colon reason) "check_failed";
  message = reason;
  severity = error;
  passed = false;
  stop_requested = false;
  plugin_id = id;
}

default_finding : Option String → CheckFinding
default_finding id = record {
  rule_id = "legacy_checker";
  category = "check_failed";
  message = "plugin returned false";
  severity = error;
  passed = false;
  stop_requested = false;
  plugin_id = id;
}

legacy_findings : Option String → List String → Result CheckError (List CheckFinding)
unfolding legacy_finding before_colon
legacy_findings id [] = ok []
legacy_findings id (s ∷ ss) = do
  f ← post_init (legacy_finding id s)
  fs ← legacy_findings id ss
  ok (f ∷ fs)

abbrev reason_list : Reasons → List String
reason_list (one s) = s ∷ []
reason_list (many ss) = ss

-- `or (CheckFinding("legacy_checker", "check_failed", ...),)`
abbrev or_default : Option String → List CheckFinding → List CheckFinding
or_default id [] = default_finding id ∷ []
or_default id (f ∷ fs) = f ∷ fs

abbrev is_empty : List CheckFinding → Bool
is_empty [] = true
is_empty (f ∷ fs) = false

abbrev same : Bool → Bool → Bool
same true b = b
same false b = not b

-- The branch of `normalise_check_result` for a report.
normalise_report : Option String → CheckReport → Result CheckError CheckReport
unfolding named_findings
normalise_report id r = do
  findings ← named_findings id r.findings
  raise_if (if r.passed then false else is_empty findings) missing_findings
  let copy : CheckReport = record {
    passed = not (blocking (record r { findings = findings }));
    findings = findings;
    plugin_id = or_id r.plugin_id id;
    rule_version = r.rule_version;
    level = r.level;
    limitations = r.limitations;
  }
  raise_if (not (same r.passed copy.passed)) inconsistent_flag
  ok copy

-- The branch for a single finding.
normalise_finding : Option String → CheckFinding → Result CheckError CheckReport
normalise_finding id f =
    if is_some f.plugin_id || not (is_some id)
    then ok (single_report f (or_id id f.plugin_id))
    else (do
      g ← post_init (record f { plugin_id = id })
      ok (single_report g (or_id id g.plugin_id)))

-- The branch for a failed `(False, reasons)`.
normalise_reasons : Option String → Reasons → Result CheckError CheckReport
unfolding legacy_findings default_finding
normalise_reasons id rs = do
  findings ← legacy_findings id (reason_list rs)
  ok (record (ok_report id) { passed = false; findings = or_default id findings })

normalise_mapping : Option String → FailedMapping → Result CheckError CheckReport
normalise_mapping id m =
    let category = get_or_text m.category "check_failed" in
    failure_report category (get_or_text m.message "plugin returned a failed result")
      (get_or_text m.rule_id category) id

unfoldable pub normalise : Option String → PluginValue → Result CheckError CheckReport
unfolding normalise_report normalise_finding normalise_reasons normalise_mapping
normalise id nothing = ok (ok_report id)
normalise id (report r) = normalise_report id r
normalise id (finding f) = normalise_finding id f
normalise id (boolean passed) =
    if passed
    then ok (ok_report id)
    else failure_report "check_failed" "plugin returned false" "" id
normalise id (pair passed rs) = if passed then ok (ok_report id) else normalise_reasons id rs
normalise id (mapping m) = if m.passed then ok (ok_report id) else normalise_mapping id m
normalise id unsupported = err unsupported_result

-- A plugin: `plugin_identity`, and the methods that it has for a subject in a context.
pub record Plugin (Subject Context : Type 0) : Type 0 where
  pub id : String
  pub method : String → Option (Subject → Context → Answer)

abbrev or_method {ℓ} : {A : Type ℓ} → Option A → Option A → Option A
or_method none b = b
or_method (some a) b = some a

answer_report : String → Answer → Result CheckError CheckReport
answer_report id (returned v) = normalise (some id) v
answer_report id (raised x) =
    failure_report "checker_error"
      (append id (append " raised " (append x.exception_type (append ": " x.text))))
      (append id ".execution") (some id)

module _ {Subject Context : Type 0} where
  -- The plugin's method, or its `check`; a plugin that has neither passes.
  unfoldable pub run_plugin :
      Plugin Subject Context → String → Subject → Context → Result CheckError CheckReport
  unfolding answer_report
  run_plugin p name subject context = elim (or_method (p.method name) (p.method "check")) [
    | none ↦ ok (ok_report (some p.id))
    | some f ↦ answer_report p.id (f subject context)
  ]

  unfoldable pub run_onto :
      CheckReport
      → List (Plugin Subject Context)
      → String
      → Subject
      → Context
      → Result CheckError CheckReport
  run_onto done [] name subject context = ok done
  run_onto done (p ∷ ps) name subject context = do
    r ← run_plugin p name subject context
    run_onto (merge done r) ps name subject context

  unfoldable pub run_plugins :
      List (Plugin Subject Context) → String → Subject → Context → Result CheckError CheckReport
  unfolding run_onto
  run_plugins = run_onto (ok_report none)
