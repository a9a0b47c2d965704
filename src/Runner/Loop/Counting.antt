-- ===== src/Runner/Loop/Counting.antt =====
-- The samples, the events and the checkpoints that the loop of src/pe_sim/runtime.py leaves.
use power_electronics_ai_sim.Base.{
  ℕ, zero, suc, ◌+◌, ◌≤◌, ◌≡◌, refl, sym, ap, ◌∙◌, Option, none, some, List, [], ◌∷◌, ◌++◌, map,
  length, All, All-append, Result, ok, err, arith, map-append, append_assoc, append-nil,
  length-append,
}
use power_electronics_ai_sim.Number.{Number}
use power_electronics_ai_sim.Contracts.{Payload, Mapping}
use power_electronics_ai_sim.Runner.{Literals, Thrown}
use power_electronics_ai_sim.Runner.State.{World, Row, WindowEvent, Checkpoint, Standing, Run}
use power_electronics_ai_sim.Runner.Loop.{run_windows}
use power_electronics_ai_sim.Runner.Loop.Keeping.{IsFamily, Snapshots, After, run_windows-After}

-- `range(i, i + k)`
abbrev pub upward : ℕ → ℕ → List ℕ
upward i zero = []
upward i (suc k) = i ∷ upward (suc i) k

upward-suc : (i k : ℕ) → upward i k ++ (i + k) ∷ [] ≡ upward i (suc k)
upward-suc i zero = let same : i + 0 ≡ i = omega arith in rw same refl
upward-suc i (suc k) =
    let same : i + suc k ≡ suc i + k = omega arith in
    rw same (ap (λ r. i ∷ r) (upward-suc (suc i) k))

module _ (num : Number) where
  abbrev pub indices : List (WindowEvent num) → List ℕ
  indices es = map (λ e. e.step_index) es

  -- The next index is the number of the samples kept.
  abbrev pub IsAligned : Checkpoint num → Type 0
  IsAligned c = c.next_step_index ≡ length c.samples

  -- After `k` windows from `i` on.
  pub record Counted (before : List ℕ) (i k : ℕ) (xs : List (Row num)) (es : List (WindowEvent num))
      (cs : List (Checkpoint num)) : Type 0 where
    pub counted : length xs ≡ i + k
    pub numbered : indices es ≡ before ++ upward i k
    pub aligned : All IsAligned cs

module _ {num : Number} {P C : Type 0} (lit : Literals num) (w : World num P C) where
  open num use {Value}

  module _ (before : List ℕ) (i : ℕ) where
    abbrev CountedTo :
        ℕ
        → P
        → List (Row num)
        → List (WindowEvent num)
        → List (Checkpoint num)
        → Standing num
        → Type 0
    CountedTo j p xs es cs last = (k : ℕ) × (j ≡ i + k) × Counted num before i k xs es cs

    one_more :
        (j k : ℕ) (row : Row num) (xs : List (Row num)) (e : WindowEvent num)
        (es : List (WindowEvent num)) (cs : List (Checkpoint num))
        → e.step_index ≡ i + k
        → Counted num before i k xs es cs
        → Counted num before i (suc k) (xs ++ row ∷ []) (es ++ e ∷ []) cs
    one_more j k row xs e es cs here h = record {
      counted = omega (arith, length-append xs (row ∷ []), h.counted);
      numbered =
          rw
            (
              map-append (λ d. d.step_index) es (e ∷ []),
              h.numbered,
              here,
              append_assoc before (upward i k) ((i + k) ∷ []),
              upward-suc i k,
            )
            refl;
      aligned = h.aligned;
    }

    Snapshots-CountedTo :
        (j : ℕ) (o : Option (P → Result Thrown (Mapping (Payload Value)) × P))
        → Snapshots CountedTo lit w j o
    Snapshots-CountedTo j none = tt
    Snapshots-CountedTo j (some snapshot) = λ p xs es cs a h. h

    CountedTo-IsFamily : IsFamily CountedTo lit w
    CountedTo-IsFamily = record {
      allows = λ j. record {
        observing = λ p xs es cs last h. h;
        going_on = λ s h d x p xs es cs last k. k;
      };
      drives = λ j a admitted d x p xs es cs last k. k;
      commits = λ j o s admitted (k, at, h).
          (suc k, omega arith, one_more j k _ s.samples _ s.events s.checkpoints at h);
      snapshots = λ j. Snapshots-CountedTo j w.snapshot_plant;
      records = λ j s c same (k, at, h). (
        k,
        at,
        record {
          counted = h.counted;
          numbered = h.numbered;
          aligned =
              All-append (IsAligned num) s.checkpoints (c ∷ []) h.aligned
                (same.0 ∙ (at ∙ (sym h.counted ∙ sym (ap length same.1))), tt);
        },
      );
    }

    -- After the loop over `n` windows: all are counted, or it raised and those before are.
    abbrev pub CountedAfter : ℕ → Result Thrown (Unit {0}) × Run num P C → Type 0
    CountedAfter n (ok u, t) = Counted num before i n t.samples t.events t.checkpoints
    CountedAfter n (err e, t) =
        (k : ℕ) × (k ≤ n) × Counted num before i k t.samples t.events t.checkpoints

    same_count :
        (k l : ℕ) (t : Run num P C)
        → i + l ≡ i + k
        → Counted num before i k t.samples t.events t.checkpoints
        → Counted num before i l t.samples t.events t.checkpoints
    same_count k l t h counted = let same : l ≡ k = omega arith in rw same counted

    counted_after :
        (n : ℕ) (x : Result Thrown (Unit {0}) × Run num P C)
        → After CountedTo lit w CountedTo-IsFamily i n x
        → CountedAfter n x
    counted_after n (ok u, t) (k, at, h) = same_count k n t at h
    counted_after n (err e, t) (l, bound, (k, at, h)) = (l, bound, same_count k l t at h)

  -- Where the next index is the number of the samples, the loop over `n` windows from it on adds one
  -- sample and one event for each window that is done, the events with the indices in order and
  -- without a gap; it does all of them where it returns, and some where it raises. Every checkpoint
  -- names the number of its samples as the next index, if those before did.
  pub run_windows-Counted :
      (n i : ℕ) (s : Run num P C)
      → length s.samples ≡ i
      → All (IsAligned num) s.checkpoints
      → CountedAfter (indices num s.events) i n (run_windows lit w n i s)
  run_windows-Counted n i s start aligned =
      counted_after (indices num s.events) i n (run_windows lit w n i s) (
        run_windows-After (CountedTo (indices num s.events) i) lit w
          (CountedTo-IsFamily (indices num s.events) i) n i s
          (
            0,
            omega arith,
            record {
              counted = omega (arith, start);
              numbered = sym (append-nil (indices num s.events));
              aligned = aligned;
            },
          ))
