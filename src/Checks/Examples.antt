-- ===== src/Checks/Examples.antt =====
-- Check reports and plugin chains at concrete inputs.
use power_electronics_ai_sim.Base.{
  ℕ, ◌≡◌, refl, ◌↔◌, true, false, String, List, [], ◌∷◌, All, none, some, ok,
}
use power_electronics_ai_sim.Checks.{
  post_init, CheckFinding, CheckReport, level, assessed, failed, warning, error, ok_report,
  failure_report, blocking, merge, effective_level,
}
use power_electronics_ai_sim.Checks.Merging.{IsConsistent}
use power_electronics_ai_sim.Checks.Plugins.{
  Plugin, Answer, nothing, pair, many, returned, raised, Raised, run_plugin, run_plugins, normalise,
}
use power_electronics_ai_sim.Checks.Plugins.FailClosed.{
  Passes, run_plugins_passed, run_plugins_raising,
}
use power_electronics_ai_sim.Checks.Outcome.{Document, qualification_document}
use power_electronics_ai_sim.Checks.Outcome.Levels.{worst, level-merge, declared_level_hides}

abbrev plugin : String → (ℕ → ℕ → Answer) → Plugin ℕ ℕ
plugin id f = record { id = id; method = λ name. some f }

abbrev quiet : Plugin ℕ ℕ
quiet = plugin "quiet" (λ s c. returned nothing)

abbrev crash : Raised
crash = record { exception_type = "KeyError"; text = "vout" }

abbrev crashing : Plugin ℕ ℕ
crashing = plugin "crashing" (λ s c. raised crash)

-- A legacy plugin: `(False, ["drift: 3 percent"])`.
abbrev legacy : Plugin ℕ ℕ
legacy = plugin "legacy" (λ s c. returned (pair false (many ("drift: 3 percent" ∷ []))))

abbrev chain : List (Plugin ℕ ℕ)
chain = quiet ∷ legacy ∷ []

abbrev drift : CheckFinding
drift = record {
  rule_id = "legacy_checker";
  category = "drift";
  message = "drift: 3 percent";
  severity = error;
  passed = false;
  stop_requested = false;
  plugin_id = some "legacy";
}

abbrev clean : CheckReport
clean = record {
  passed = true;
  findings = [];
  plugin_id = none;
  rule_version = "checks-v1";
  level = none;
  limitations = [];
}

abbrev chain_report : CheckReport
chain_report = record clean { passed = false; findings = drift ∷ [] }

chain_runs : run_plugins chain "check" 0 0 ≡ ok chain_report
unfolding run_plugins run_plugin normalise merge ok_report post_init
chain_runs = refl

run_plugins_passed_example :
    IsConsistent chain_report × ((chain_report.passed ≡ true) ↔ All (Passes "check" 0 0) chain)
run_plugins_passed_example = run_plugins_passed chain "check" 0 0 chain_report chain_runs

abbrev crash_finding : CheckFinding
crash_finding = record {
  rule_id = "crashing.execution";
  category = "checker_error";
  message = "crashing raised KeyError: vout";
  severity = error;
  passed = false;
  stop_requested = false;
  plugin_id = some "crashing";
}

abbrev crash_report : CheckReport
crash_report = record clean { passed = false; findings = crash_finding ∷ [] }

crash_runs : run_plugins (quiet ∷ crashing ∷ quiet ∷ []) "check" 0 0 ≡ ok crash_report
unfolding run_plugins run_plugin normalise merge ok_report failure_report
crash_runs = refl

run_plugins_raising_example : crash_report.passed ≡ false
run_plugins_raising_example =
    run_plugins_raising (quiet ∷ []) (quiet ∷ []) crashing "check" 0 0 (λ s c. raised crash) crash
      crash_report refl refl crash_runs

abbrev advisory : CheckFinding
advisory = record drift { severity = warning }

abbrev warned : CheckReport
warned = record clean { findings = advisory ∷ [] }

consistent : (IsConsistent warned) × (IsConsistent chain_report) × (blocking chain_report ≡ true)
unfolding blocking
consistent = (refl, refl, refl)

level-merge_example :
    (effective_level (merge warned chain_report)
      ≡ worst (effective_level warned) (effective_level chain_report))
    × (((merge warned chain_report).passed ≡ false)
        ↔ (effective_level (merge warned chain_report) ≡ failed))
level-merge_example = level-merge warned chain_report consistent.0 consistent.1 refl refl

abbrev declared : CheckReport
declared = record clean { level = some (level assessed) }

declared_level_hides_example :
    ((merge declared chain_report).passed ≡ false)
    × ((d : Document) × (qualification_document (merge declared chain_report) none none ≡ ok d)
        × (d.passed ≡ true)
        × (d.level ≡ assessed))
declared_level_hides_example = declared_level_hides declared chain_report refl refl consistent.2
