-- ===== src/Runner/Loop/Cadence.antt =====
-- When the loop of src/pe_sim/runtime.py writes a checkpoint: `checkpoint_interval_steps`.
use power_electronics_ai_sim.Base.{
  ℕ, ◌+◌, ◌≤◌, ◌<◌, ◌≡◌, ◌↔◌, ◌⊎◌, List, [], ◌∷◌, ◌++◌, Result, ok, err,
}
use Prim.Native.Nat.{◌∣◌}
use power_electronics_ai_sim.Number.{Number}
use power_electronics_ai_sim.Runner.{Thrown}
use power_electronics_ai_sim.Runner.State.{World, Row, WindowEvent, Checkpoint, Standing, Run}

-- The multiples of the interval above `i`, up to `i + n`; there are none where the interval is 0.
pub record IsDue (interval i n j : ℕ) : Type 0 where
  pub above : i < j
  pub within : j ≤ i + n
  pub regular : 0 < interval
  pub multiple : interval ∣ j

module _ {num : Number} where
  -- A checkpoint names `j` as its next index.
  abbrev pub Names : ℕ → List (Checkpoint num) → Type 0
  Names j [] = ⊥
  Names j (c ∷ cs) = (c.next_step_index ≡ j) ⊎ Names j cs

module _ {num : Number} {P C : Type 0} (w : World num P C) where
  -- The checkpoints are these.
  abbrev Same :
      List (Checkpoint num)
      → P
      → List (Row num)
      → List (WindowEvent num)
      → List (Checkpoint num)
      → Standing num
      → Type 0
  Same before p xs es cs last = cs ≡ before

  -- One checkpoint more, where nothing was raised.
  abbrev Wrote : ℕ → List (Checkpoint num) → Result Thrown (Unit {0}) × Run num P C → Type 0
  Wrote j before (ok u, t) =
      (c : Checkpoint num) × (c.next_step_index ≡ j) × (t.checkpoints ≡ before ++ c ∷ [])
  Wrote j before (err e, t) = t.checkpoints ≡ before

  -- After `n` windows from `i` on: the checkpoints before them and those that were due, and no other;
  -- where something was raised, no other.
  abbrev pub IsCadenced :
      List (Checkpoint num) → ℕ → ℕ → Result Thrown (Unit {0}) × Run num P C → Type 0
  IsCadenced before i n (ok u, t) =
      (j : ℕ) → Names j t.checkpoints ↔ (Names j before ⊎ IsDue w.checkpoint_interval_steps i n j)
  IsCadenced before i n (err e, t) =
      (j : ℕ) → Names j t.checkpoints → Names j before ⊎ IsDue w.checkpoint_interval_steps i n j
