-- ===== src/TimeModel/Trace/Valid.antt =====
-- A whole-run trace has no problem exactly if it keeps the trace contract.
use power_electronics_ai_sim.Base.{
  ℕ, ◌+◌, String, ◌≡◌, refl, ap, ◌∙◌, ◌↔◌, ◌≢◌, Bool, true, false, Option, none, some, List, [],
  ◌∷◌, ◌++◌, length, length-map, map, All, arith, if◌then◌else◌, ok, Bool-cases, inl, inr,
}
use mathlib.Core.Path.{subst}
use power_electronics_ai_sim.Number.{Number}
use power_electronics_ai_sim.TimeModel.Trace.{
  Datum, number, Axis, samples, no_sequence, Label, time_s, signal, Problem, TraceContract,
  WholeRunResult, value_problems, numbers, finite_values, order_problems, start_problems,
  end_problems, gap_problems, last_of, check_time_axis, axis_problems, time_problems, count_of,
  agrees, misaligned, signal_problems, signals_problems, mapping_problems,
  validate_whole_run_result, strict_float,
}

append-eq-nil {ℓ} : {A : Type ℓ} (xs ys : List A) → ((xs ++ ys) ≡ []) ↔ ((xs ≡ []) × (ys ≡ []))
append-eq-nil [] ys = ground arith
append-eq-nil (x ∷ xs) ys = ground arith

module _ (num : Number) where
  open num use {Value, is_finite, le, lt, plus, minus, nought}

  -- `ds` are the finite numbers `vs`.
  abbrev pub AreReals : List (Datum Value) → List Value → Type 0
  AreReals ds vs = (ds ≡ map number vs) × All (λ v. is_finite v ≡ true) vs

  -- `R` holds of each two neighbours of `t ∷ ts`.
  abbrev pub Adjacent : (Value → Value → Type 0) → Value → List Value → Type 0
  Adjacent R t [] = Unit
  Adjacent R t (u ∷ us) = R t u × Adjacent R u us

  value_problems_sound :
      (l : Label) (i : ℕ) (ds : List (Datum Value))
      → value_problems num l i ds ≡ []
      → (vs : List Value) × AreReals ds vs
  unfolding value_problems
  value_problems_sound l i [] h = ([], (refl, tt))
  value_problems_sound l i (number v ∷ ds) h = elim (Bool-cases (is_finite v)) [
    | inl good ↦
        let (vs, reals) = value_problems_sound l (i + 1) ds (ground (arith, good)) in
        (v ∷ vs, (ap (λ r. number v ∷ r) reals.0, (good, reals.1)))
    | inr bad ↦ absurd (ground (arith, bad))
  ]
  value_problems_sound l i (d ∷ ds) h = absurd (ground arith)

  value_problems_complete :
      (l : Label) (i : ℕ) (vs : List Value)
      → All (λ v. is_finite v ≡ true) vs
      → value_problems num l i (map number vs) ≡ []
  unfolding value_problems
  value_problems_complete l i [] h = refl
  value_problems_complete l i (v ∷ vs) h = ground (arith, value_problems_complete l (i + 1) vs h.1)

  numbers-map :
      (vs : List Value) → All (λ v. is_finite v ≡ true) vs → numbers num (map number vs) ≡ vs
  unfolding numbers
  numbers-map [] h = refl
  numbers-map (v ∷ vs) h = ground (arith, numbers-map vs h.1)

  order_problems_iff :
      (t : Value) (i : ℕ) (ts : List Value)
      → (order_problems num t i ts ≡ []) ↔ Adjacent (λ a b. le b a ≡ false) t ts
  unfolding order_problems
  order_problems_iff t i [] = (λ h. tt, λ h. refl)
  order_problems_iff t i (u ∷ us) = ground (arith, order_problems_iff u (i + 1) us)

  gap_problems_iff :
      (c : TraceContract num) (t : Value) (i : ℕ) (ts : List Value)
      → (gap_problems num c t i ts ≡ [])
        ↔ Adjacent (λ a b. lt (plus c.cadence_s c.coverage_tolerance_s) (minus b a) ≡ false) t ts
  unfolding gap_problems
  gap_problems_iff c t i [] = (λ h. tt, λ h. refl)
  gap_problems_iff c t i (u ∷ us) = ground (arith, gap_problems_iff c u (i + 1) us)

  -- The times cover the run as the contract promises: finite, strictly increasing, from 0 to the
  -- duration within the tolerance, and with no gap above the cadence plus the tolerance.
  pub record Covers (c : TraceContract num) (duration : Value) (t : Value) (ts : List Value)
      : Type 0 where
    pub increasing : Adjacent (λ a b. le b a ≡ false) t ts
    pub not_early : lt t (minus nought c.coverage_tolerance_s) ≡ false
    pub not_late : lt c.coverage_tolerance_s t ≡ false
    pub not_short : lt (last_of num t ts) (minus duration c.coverage_tolerance_s) ≡ false
    pub not_over : lt (plus duration c.coverage_tolerance_s) (last_of num t ts) ≡ false
    pub no_gap :
        Adjacent (λ a b. lt (plus c.cadence_s c.coverage_tolerance_s) (minus b a) ≡ false) t ts

  start_problems_iff :
      (c : TraceContract num) (t : Value)
      → (start_problems num c t ≡ []) ↔ (
          (lt t (minus nought c.coverage_tolerance_s) ≡ false)
          × (lt c.coverage_tolerance_s t ≡ false))
  unfolding start_problems
  start_problems_iff c t = ground arith

  end_problems_iff :
      (c : TraceContract num) (duration last : Value)
      → (end_problems num c duration last ≡ []) ↔ (
          (lt last (minus duration c.coverage_tolerance_s) ≡ false)
          × (lt (plus duration c.coverage_tolerance_s) last ≡ false))
  unfolding end_problems
  end_problems_iff c duration last = ground arith

  check_time_axis_iff :
      (c : TraceContract num) (duration t : Value) (ts : List Value)
      → (check_time_axis num c duration t ts ≡ []) ↔ Covers c duration t ts
  unfolding check_time_axis
  check_time_axis_iff c duration t ts =
      let last = last_of num t ts in
      (
        λ h.
            let (ordered, after) = (append-eq-nil (order_problems num t 1 ts) _).0 h in
            let (started, after') = (append-eq-nil (start_problems num c t) _).0 after in
            let (ended, spaced) = (append-eq-nil (end_problems num c duration last) _).0 after' in
            let start = (start_problems_iff c t).0 started in
            let finish = (end_problems_iff c duration last).0 ended in
            record {
              increasing = (order_problems_iff t 1 ts).0 ordered;
              not_early = start.0;
              not_late = start.1;
              not_short = finish.0;
              not_over = finish.1;
              no_gap = (gap_problems_iff c t 1 ts).0 spaced;
            },
        λ v. rw (
          (order_problems_iff t 1 ts).1 v.increasing,
          (start_problems_iff c t).1 (v.not_early, v.not_late),
          (end_problems_iff c duration last).1 (v.not_short, v.not_over),
          (gap_problems_iff c t 1 ts).1 v.no_gap,
        ),
      )

  -- The times of an axis are finite numbers that cover the run.
  pub record IsTimeAxis (c : TraceContract num) (duration : Value) (axis : Axis Value)
      : Type 0 where
    pub first : Value
    pub rest : List Value
    pub numeric : axis ≡ samples (map number (first ∷ rest))
    pub finite : All (λ v. is_finite v ≡ true) (first ∷ rest)
    pub covers : Covers c duration first rest

  finite_values-eq_some :
      (vs : List Value)
      → All (λ v. is_finite v ≡ true) vs
      → finite_values num (map number vs) ≡ some vs
  unfolding finite_values
  finite_values-eq_some vs h = rw (numbers-map vs h, length-map number vs) (ground arith)

  -- What an axis of finite numbers leaves to check.
  time_problems-numbers :
      (c : TraceContract num) (duration t : Value) (ts : List Value)
      → All (λ v. is_finite v ≡ true) (t ∷ ts)
      → time_problems num c duration (samples (map number (t ∷ ts)))
        ≡ check_time_axis num c duration t ts
  unfolding time_problems axis_problems
  time_problems-numbers c duration t ts h =
      rw (value_problems_complete time_s 0 (t ∷ ts) h, finite_values-eq_some (t ∷ ts) h)

  IsTimeAxis-time_problems :
      (c : TraceContract num) (duration : Value) (axis : Axis Value)
      → IsTimeAxis c duration axis
      → time_problems num c duration axis ≡ []
  IsTimeAxis-time_problems c duration axis v =
      rw (v.numeric, time_problems-numbers c duration v.first v.rest v.finite)
        ((check_time_axis_iff c duration v.first v.rest).1 v.covers)

  time_problems_sound :
      (c : TraceContract num) (duration : Value) (d : Datum Value) (ds : List (Datum Value))
      → time_problems num c duration (samples (d ∷ ds)) ≡ []
      → (vs : List Value) × AreReals (d ∷ ds) vs
  unfolding time_problems
  time_problems_sound c duration d ds h =
      let (clean, after) = (append-eq-nil (value_problems num time_s 0 (d ∷ ds)) _).0 h in
      value_problems_sound time_s 0 (d ∷ ds) clean

  time_problems-IsTimeAxis :
      (c : TraceContract num) (duration : Value) (axis : Axis Value)
      → time_problems num c duration axis ≡ []
      → IsTimeAxis c duration axis
  time_problems-IsTimeAxis c duration no_sequence h = absurd (unfold time_problems in cc)
  time_problems-IsTimeAxis c duration (samples []) h = absurd (unfold time_problems in cc)
  time_problems-IsTimeAxis c duration (samples (d ∷ ds)) h =
      let (vs, reals) = time_problems_sound c duration d ds h in build vs reals
    where
      build : (vs : List Value) → AreReals (d ∷ ds) vs → IsTimeAxis c duration (samples (d ∷ ds))
      build [] reals = absurd (cc (reals.0))
      build (t ∷ ts) reals = record {
        first = t;
        rest = ts;
        numeric = ap samples reals.0;
        finite = reals.1;
        covers =
            (check_time_axis_iff c duration t ts).0
              (rw (← time_problems-numbers c duration t ts reals.1, ← reals.0) h);
      }

  -- A sample-like signal of finite numbers, as many as there are times, where they are counted.
  abbrev pub IsSignal : Option ℕ → String × Axis Value → Type 0
  IsSignal expected s =
      (vs : List Value) × (s.1 ≡ samples (map number vs))
      × All (λ v. is_finite v ≡ true) vs
      × (agrees expected (length vs) ≡ true)

  signal_problems-numbers :
      (expected : Option ℕ) (name : String) (vs : List Value)
      → All (λ v. is_finite v ≡ true) vs
      → agrees expected (length vs) ≡ true
      → signal_problems num expected name (samples (map number vs)) ≡ []
  unfolding signal_problems
  signal_problems-numbers expected name vs h aligned =
      rw (value_problems_complete (signal name) 0 vs h, length-map number vs, aligned)

  IsSignal-signal_problems :
      (expected : Option ℕ) (name : String) (axis : Axis Value)
      → IsSignal expected (name, axis)
      → signal_problems num expected name axis ≡ []
  IsSignal-signal_problems expected name axis (vs, numeric, finite, aligned) =
      rw numeric (signal_problems-numbers expected name vs finite aligned)

  aligned_of_nil :
      (b : Bool) (name : String) → (if b then [] else misaligned name ∷ []) ≡ [] → b ≡ true
  aligned_of_nil b name h = ground arith

  signal_problems-IsSignal :
      (expected : Option ℕ) (name : String) (axis : Axis Value)
      → signal_problems num expected name axis ≡ []
      → IsSignal expected (name, axis)
  unfolding signal_problems
  signal_problems-IsSignal expected name no_sequence h = absurd (cc)
  signal_problems-IsSignal expected name (samples ds) h =
      let alignment : List Problem =
        if agrees expected (length ds) then [] else misaligned name ∷ [] in
      let (aligned, clean) = (append-eq-nil alignment _).0 h in
      let (vs, reals) = value_problems_sound (signal name) 0 ds clean in
      let counted : length ds ≡ length vs = ap length reals.0 ∙ length-map number vs in
      (vs, ap samples reals.0, reals.1, rw counted at (aligned_of_nil _ name aligned))

  signals_problems_iff :
      (expected : Option ℕ) (ss : List (String × Axis Value))
      → (signals_problems num expected ss ≡ []) ↔ All (IsSignal expected) ss
  unfolding signals_problems
  signals_problems_iff expected [] = (λ h. tt, λ v. refl)
  signals_problems_iff expected ((name, axis) ∷ rest) =
      let others = signals_problems_iff expected rest in
      (
        λ h.
            let (this, after) = (append-eq-nil (signal_problems num expected name axis) _).0 h in
            (signal_problems-IsSignal expected name axis this, others.0 after),
        λ v. rw (IsSignal-signal_problems expected name axis v.0, others.1 v.1),
      )

  -- What the trace contract asks of a result.
  pub record IsValidTrace (result : WholeRunResult num) (c : TraceContract num) (duration : Value)
      : Type 0 where
    pub times : IsTimeAxis c duration result.time_axis
    pub names : List (String × Axis Value)
    pub mapping : result.signals ≡ some names
    pub named : names ≢ []
    pub signals : All (IsSignal (count_of num result.time_axis)) names

  mapping_problems_iff :
      (expected : Option ℕ) (signals : Option (List (String × Axis Value)))
      → (mapping_problems num expected signals ≡ []) ↔ (
          (names : List (String × Axis Value)) × (signals ≡ some names)
          × (names ≢ [])
          × All (IsSignal expected) names)
  unfolding mapping_problems
  mapping_problems_iff expected none = (λ h. absurd (cc), λ v. absurd (cc (v.1)))
  mapping_problems_iff expected (some []) = (λ h. absurd (cc), λ v. absurd (v.2 (cc (v.1))))
  mapping_problems_iff expected (some (s ∷ ss)) = (
    λ h. (s ∷ ss, refl, (λ e. cc), (signals_problems_iff expected (s ∷ ss)).0 h),
    λ v.
        let same : v.0 ≡ s ∷ ss = cc (v.1) in
        (signals_problems_iff expected (s ∷ ss)).1 (subst (All (IsSignal expected)) same v.3),
  )

  -- For a positive finite duration the check of a trace does not raise, and it reports no problem
  -- exactly if the trace is valid: the times are finite numbers that increase strictly, start at 0
  -- and end at the duration within the tolerance, and leave no gap above the cadence plus the
  -- tolerance; and there is a signal, and each has as many finite samples as there are times.
  pub validate_whole_run_result_iff :
      (result : WholeRunResult num) (c : TraceContract num) (d : Datum Value) (duration : Value)
      → strict_float num d ≡ ok duration
      → le duration nought ≡ false
      → (problems : List Problem) × (validate_whole_run_result num result c d ≡ ok problems)
        × ((problems ≡ []) ↔ IsValidTrace result c duration)
  unfolding validate_whole_run_result
  validate_whole_run_result_iff result c d duration finite positive =
      let axis = result.time_axis in
      let expected = count_of num axis in
      let timed = time_problems num c duration axis in
      let mapped = mapping_problems num expected result.signals in
      (
        timed ++ mapped,
        rw (finite, positive),
        (
          λ h.
              let (t, m) = (append-eq-nil timed mapped).0 h in
              let (names, mapping, named, signals) =
                (mapping_problems_iff expected result.signals).0 m in
              record {
                times = time_problems-IsTimeAxis c duration axis t;
                names = names;
                mapping = mapping;
                named = named;
                signals = signals;
              },
          λ v. (append-eq-nil timed mapped).1 (
            IsTimeAxis-time_problems c duration axis v.times,
            (mapping_problems_iff expected result.signals).1
                (v.names, v.mapping, v.named, v.signals),
          ),
        ),
      )
