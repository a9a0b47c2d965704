-- ===== src/Checks/Samples.antt =====
-- The basic rules for the samples of a run, src/pe_sim/qualification.py: `qualify_samples` and
-- `BasicQualificationPlugin`. `number` is the float of an `int` or a `float`, and `none` for any
-- other value; `decimal` writes an index. An `int` that no float can hold is left out.
pub mod Soundness
mod Examples
use Prim.Native.String.{◌++◌ as append}
use power_electronics_ai_sim.Base.{
  ℕ, suc, String, Bool, true, false, not, Option, none, some, List, [], ◌∷◌, ◌++◌, if◌then◌else◌,
}
use power_electronics_ai_sim.Number.{Number}
use power_electronics_ai_sim.Contracts.{Payload, Mapping}
use power_electronics_ai_sim.Checks.{CheckFinding, error, CheckReport}

-- A captured row, or a value that is no mapping.
pub data Row (Value : Type 0) : Type 0 where
  row : Mapping (Payload Value) → Row Value
  no_mapping : Row Value

-- `not values`
abbrev pub no_items {ℓ} : {A : Type ℓ} → List A → Bool
no_items [] = true
no_items (x ∷ xs) = false

abbrev pub basic_id : String
basic_id = "basic-sample-qualification"

abbrev pub sample_finding : String → String → String → CheckFinding
sample_finding rule_id category message = record {
  rule_id = rule_id;
  category = category;
  message = message;
  severity = error;
  passed = false;
  stop_requested = false;
  plugin_id = some basic_id;
}

module _ (num : Number) (number : Payload num.Value → Option num.Value) (decimal : ℕ → String) where
  open num use {Value, is_finite}

  -- A number that is not finite
  abbrev pub not_finite : Payload Value → Bool
  not_finite p = elim (number p) [ none ↦ false | some v ↦ not (is_finite v) ]

  -- The reasons of one row: `non_finite:{index}:{key}`
  pub row_reasons : ℕ → Mapping (Payload Value) → List String
  row_reasons index [] = []
  row_reasons index ((key, p) ∷ rest) =
      let later = row_reasons index rest in
      if not_finite p
      then append "non_finite:" (append (decimal index) (append ":" key)) ∷ later
      else later

  pub rows_reasons : ℕ → List (Mapping (Payload Value)) → List String
  unfolding row_reasons
  rows_reasons index [] = []
  rows_reasons index (r ∷ rs) = row_reasons index r ++ rows_reasons (suc index) rs

  pub empty_reasons : List (Mapping (Payload Value)) → List String
  empty_reasons [] = "no_samples" ∷ []
  empty_reasons (r ∷ rs) = []

  unfoldable pub qualify_samples : List (Mapping (Payload Value)) → Bool × List String
  unfolding empty_reasons rows_reasons
  qualify_samples rows =
      let reasons = empty_reasons rows ++ rows_reasons 0 rows in (no_items reasons, reasons)

  pub value_findings : Mapping (Payload Value) → List CheckFinding
  value_findings [] = []
  value_findings ((key, p) ∷ rest) =
      let later = value_findings rest in
      if not_finite p
      then sample_finding "samples.numeric.finite" "nonfinite_sample"
          (append "sample value is not finite: " key)
        ∷ later
      else later

  pub row_findings : ℕ → Row Value → List CheckFinding
  unfolding value_findings
  row_findings index no_mapping =
      sample_finding "samples.row.mapping" "invalid_sample"
        (append "sample row " (append (decimal index) " is not a mapping"))
      ∷ []
  row_findings index (row entries) = value_findings entries

  pub rows_findings : ℕ → List (Row Value) → List CheckFinding
  unfolding row_findings
  rows_findings index [] = []
  rows_findings index (r ∷ rs) = row_findings index r ++ rows_findings (suc index) rs

  pub empty_findings : List (Row Value) → List CheckFinding
  empty_findings [] = sample_finding "samples.nonempty" "no_samples" "run produced no samples" ∷ []
  empty_findings (r ∷ rs) = []

  abbrev samples_report : List CheckFinding → CheckReport
  samples_report findings = record {
    passed = no_items findings;
    findings = findings;
    plugin_id = some basic_id;
    rule_version = "basic-qualification-v1";
    level = none;
    limitations = [];
  }

  -- `BasicQualificationPlugin.check_samples`
  unfoldable pub check_samples : List (Row Value) → CheckReport
  unfolding empty_findings rows_findings
  check_samples rows = samples_report (empty_findings rows ++ rows_findings 0 rows)
