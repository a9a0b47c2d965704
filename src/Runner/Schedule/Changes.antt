-- ===== src/Runner/Schedule/Changes.antt =====
-- What `_next_change_point` of src/pe_sim/runtime.py returns.
use power_electronics_ai_sim.Base.{
  ◌≡◌, refl, true, false, ◌&&◌, ◌⊎◌, inl, inr, Option, none, some, List, [], ◌∷◌, arith, All,
  Bool-cases,
}
use power_electronics_ai_sim.Number.{Number}
use power_electronics_ai_sim.Number.Comparisons.{Comparisons}
use power_electronics_ai_sim.Runner.{Literals}
use power_electronics_ai_sim.Runner.Schedule.{
  ScheduledInput, start_of, is_change, change_from, next_change_point,
}

module _ {num : Number} where
  -- `c` is the time of an item.
  abbrev pub Among : num.Value → List (ScheduledInput num) → Type 0
  Among c [] = ⊥
  Among c (item ∷ rest) = (start_of num item ≡ c) ⊎ Among c rest

module _ {num : Number} (cmp : Comparisons num) (lit : Literals num) (after until : num.Value) where
  open num use {Value, le, lt, plus}

  abbrev Unchanged : List (ScheduledInput num) → Type 0
  Unchanged = All (λ item. is_change num lit after until (start_of num item) ≡ false)

  -- No change lies before `c`.
  abbrev pub NoneBefore : Value → List (ScheduledInput num) → Type 0
  NoneBefore c = All (λ item.
      (is_change num lit after until (start_of num item) && lt (start_of num item) c) ≡ false)

  abbrev pub IsNext : List (ScheduledInput num) → Option Value → Type 0
  IsNext schedule none = Unchanged schedule
  IsNext schedule (some c) =
      (is_change num lit after until c ≡ true) × Among c schedule × NoneBefore c schedule

  -- What is known of the change found so far.
  abbrev Found : Option Value → Type 0
  Found none = Unit
  Found (some d) = is_change num lit after until d ≡ true

  -- What the rest of the schedule makes of it.
  abbrev Ends : Option Value → List (ScheduledInput num) → Option Value → Type 0
  Ends none rest r = IsNext rest r
  Ends (some d) rest none = ⊥
  Ends (some d) rest (some c) =
      (is_change num lit after until c ≡ true)
      × ((d ≡ c) ⊎ Among c rest)
      × (lt d c ≡ false)
      × NoneBefore c rest

  not_before :
      (d s c : Value)
      → is_change num lit after until d ≡ true
      → lt s d ≡ false
      → lt d c ≡ false
      → (is_change num lit after until s && lt s c) ≡ false
  not_before d s c hd h k = ground (
    arith,
    cmp.le_self_of_lt (plus after lit.pico) d (ground arith),
    cmp.le_self_of_lt (plus after lit.pico) s,
    cmp.le_of_not_lt s d,
    cmp.lt_of_le_of_lt d s c,
  )

  before_none : (s d c : Value) → lt s d ≡ true → lt s c ≡ false → lt d c ≡ false
  before_none s d c h k = ground (arith, cmp.le_of_lt s d h, cmp.lt_of_le_of_lt s d c)

  taken_first :
      (item : ScheduledInput num) (rest : List (ScheduledInput num)) (r : Option Value)
      → Ends (some (start_of num item)) rest r
      → IsNext (item ∷ rest) r
  taken_first item rest none h = absurd h
  taken_first item rest (some c) (hc, from, first, others) = (hc, from, (ground arith, others))

  taken :
      (d : Value) (item : ScheduledInput num) (rest : List (ScheduledInput num)) (r : Option Value)
      → lt (start_of num item) d ≡ true
      → Ends (some (start_of num item)) rest r
      → Ends (some d) (item ∷ rest) r
  taken d item rest none h k = k
  taken d item rest (some c) h (hc, from, first, others) =
      (hc, inr from, before_none (start_of num item) d c h first, (ground arith, others))

  skipped_first :
      (item : ScheduledInput num) (rest : List (ScheduledInput num)) (r : Option Value)
      → is_change num lit after until (start_of num item) ≡ false
      → IsNext rest r
      → IsNext (item ∷ rest) r
  skipped_first item rest none h k = (h, k)
  skipped_first item rest (some c) h (hc, from, others) = (hc, inr from, (ground arith, others))

  still-Among :
      (d c : Value) (item : ScheduledInput num) (rest : List (ScheduledInput num))
      → (d ≡ c) ⊎ Among c rest
      → (d ≡ c) ⊎ Among c (item ∷ rest)
  still-Among d c item rest (inl here) = inl here
  still-Among d c item rest (inr later) = inr (inr later)

  skipped :
      (d : Value) (item : ScheduledInput num) (rest : List (ScheduledInput num)) (r : Option Value)
      → is_change num lit after until d ≡ true
      → (is_change num lit after until (start_of num item) && lt (start_of num item) d) ≡ false
      → Ends (some d) rest r
      → Ends (some d) (item ∷ rest) r
  skipped d item rest none hd h k = k
  skipped d item rest (some c) hd h (hc, from, first, others) = (
    hc,
    still-Among d c item rest from,
    first,
    (
      elim (Bool-cases (lt (start_of num item) d)) [
        | inl before ↦ ground arith
        | inr not_earlier ↦ not_before d (start_of num item) c hd not_earlier first
      ],
      others,
    ),
  )

  change_from-Ends :
      (rest : List (ScheduledInput num)) (change : Option Value)
      → Found change
      → Ends change rest (change_from num lit after until rest change)
  unfolding change_from
  change_from-Ends [] none f = tt
  change_from-Ends [] (some d) f = (f, inl refl, cmp.lt_irrefl_any d, tt)
  change_from-Ends (item ∷ rest) none f =
      elim (Bool-cases (is_change num lit after until (start_of num item))) [
        | inl hit ↦
            rw hit (taken_first item rest _ (change_from-Ends rest (some (start_of num item)) hit))
        | inr miss ↦ rw miss (skipped_first item rest _ miss (change_from-Ends rest none tt))
      ]
  change_from-Ends (item ∷ rest) (some d) f =
      elim (Bool-cases
        (is_change num lit after until (start_of num item) && lt (start_of num item) d)) [
          | inl hit ↦ rw hit (
              taken d item rest _ (ground arith)
                (change_from-Ends rest (some (start_of num item)) (ground arith)))
          | inr miss ↦ rw miss (skipped d item rest _ f miss (change_from-Ends rest (some d) f))
        ]

  -- The next change point lies more than 1e-12 after `after_s` and at least 1e-12 before `until_s`, it
  -- is the time of an item, and no item lies there before it; where there is none, no item lies
  -- there.
  pub next_change_point-IsNext :
      (schedule : List (ScheduledInput num))
      → IsNext schedule (next_change_point num lit schedule after until)
  unfolding next_change_point
  next_change_point-IsNext schedule = change_from-Ends schedule none tt
