-- ===== src/Checks/Samples/Soundness.antt =====
-- When the basic rules pass the samples of a run, src/pe_sim/qualification.py.
use power_electronics_ai_sim.Base.{
  ℕ, suc, String, ◌≡◌, ◌≢◌, ◌↔◌, refl, Bool, true, false, not, ◌&&◌, Option, none, some, List, [],
  ◌∷◌, ◌++◌, arith, All, map,
}
use power_electronics_ai_sim.Number.{Number}
use power_electronics_ai_sim.Contracts.{Payload, Mapping}
use power_electronics_ai_sim.Checks.Samples.{
  Row, row, no_mapping, no_items, not_finite, row_reasons, rows_reasons, empty_reasons,
  qualify_samples, value_findings, row_findings, rows_findings, empty_findings, check_samples,
}

no_items-append {ℓ} :
    {A : Type ℓ} (xs ys : List A) → no_items (xs ++ ys) ≡ (no_items xs && no_items ys)
no_items-append [] ys = refl
no_items-append (x ∷ xs) ys = refl

module _ (num : Number) (number : Payload num.Value → Option num.Value) (decimal : ℕ → String) where
  open num use {Value, is_finite}

  -- No number, or a finite one
  abbrev pub IsSound : Option Value → Type 0
  IsSound none = Unit
  IsSound (some v) = is_finite v ≡ true

  -- A row that may be used: a mapping whose numbers are finite.
  abbrev pub IsUsable : Row Value → Type 0
  IsUsable no_mapping = ⊥
  IsUsable (row entries) = All (λ e. IsSound (number e.1)) entries

  not_finite_iff :
      (p : Payload Value) → (not_finite num number decimal p ≡ false) ↔ IsSound (number p)
  not_finite_iff p = sound_iff (number p)
    where
      sound_iff :
          (o : Option Value)
          → (elim o as (λ o. Bool) [ none ↦ false | some v ↦ not (is_finite v) ] ≡ false)
            ↔ IsSound o
      sound_iff none = ((λ h. tt), λ h. refl)
      sound_iff (some v) = ((λ h. ground arith), λ h. ground arith)

  value_iff :
      (entries : Mapping (Payload Value))
      → (no_items (value_findings num number decimal entries) ≡ true) ↔ IsUsable (row entries)
  unfolding value_findings
  value_iff [] = ((λ h. tt), λ h. refl)
  value_iff ((key, p) ∷ rest) =
      let here = not_finite_iff p in
      let later = value_iff rest in
      (
        (λ h. (here.0 (ground arith), later.0 (ground arith))),
        λ h. let now = here.1 h.0 in let then_all = later.1 h.1 in ground arith,
      )

  rows_iff :
      (index : ℕ) (rows : List (Row Value))
      → (no_items (rows_findings num number decimal index rows) ≡ true) ↔ All IsUsable rows
  unfolding rows_findings row_findings
  rows_iff index [] = ((λ h. tt), λ h. refl)
  rows_iff index (no_mapping ∷ rs) = ((λ h. absurd (ground arith)), λ h. absurd h.0)
  rows_iff index (row entries ∷ rs) =
      let here = value_iff entries in
      let later = rows_iff (suc index) rs in
      let split =
        no_items-append (value_findings num number decimal entries)
          (rows_findings num number decimal (suc index) rs) in
      (
        (λ h. (here.0 (ground arith), later.0 (ground arith))),
        λ h. let now = here.1 h.0 in let then_all = later.1 h.1 in ground arith,
      )

  -- The plugin passes the samples of a run exactly if there is one, and each is a mapping whose
  -- numbers are finite.
  pub check_samples_iff :
      (rows : List (Row Value))
      → ((check_samples num number decimal rows).passed ≡ true) ↔ ((rows ≢ []) × All IsUsable rows)
  unfolding check_samples empty_findings
  check_samples_iff [] = ((λ h. absurd (ground arith)), λ h. absurd (h.0 refl))
  check_samples_iff (r ∷ rs) =
      let all = rows_iff 0 (r ∷ rs) in
      ((λ h. ((λ none_left. ground arith), all.0 h)), λ h. all.1 h.1)

  row_agrees :
      (index : ℕ) (entries : Mapping (Payload Value))
      → no_items (row_reasons num number decimal index entries)
        ≡ no_items (value_findings num number decimal entries)
  unfolding row_reasons value_findings
  row_agrees index [] = refl
  row_agrees index ((key, p) ∷ rest) = ground (arith, row_agrees index rest)

  rows_agree :
      (index : ℕ) (rows : List (Mapping (Payload Value)))
      → no_items (rows_reasons num number decimal index rows)
        ≡ no_items (rows_findings num number decimal index (map row rows))
  unfolding rows_reasons rows_findings row_findings
  rows_agree index [] = refl
  rows_agree index (r ∷ rs) = ground (
    arith,
    row_agrees index r,
    rows_agree (suc index) rs,
    no_items-append (row_reasons num number decimal index r)
        (rows_reasons num number decimal (suc index) rs),
    no_items-append (value_findings num number decimal r)
        (rows_findings num number decimal (suc index) (map row rs)),
  )

  -- On samples that are mappings, `qualify_samples` and the plugin agree on whether they pass.
  pub qualify_samples-check_samples :
      (rows : List (Mapping (Payload Value)))
      → (qualify_samples num number decimal rows).0
        ≡ (check_samples num number decimal (map row rows)).passed
  unfolding qualify_samples check_samples empty_reasons empty_findings
  qualify_samples-check_samples [] = refl
  qualify_samples-check_samples (r ∷ rs) = rows_agree 0 (r ∷ rs)
