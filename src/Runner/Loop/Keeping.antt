-- ===== src/Runner/Loop/Keeping.antt =====
-- What the loop of src/pe_sim/runtime.py keeps from window to window: a family of invariants, one for
-- each index of the next window.
use power_electronics_ai_sim.Base.{
  ℕ, zero, suc, ◌+◌, ◌≤◌, ◌≡◌, refl, inl, inr, Option, none, some, List, [], ◌∷◌, ◌++◌, arith,
  Bool-cases, ok, err, Result,
}
use power_electronics_ai_sim.Number.{Number}
use power_electronics_ai_sim.Contracts.{Payload, Mapping}
use power_electronics_ai_sim.Runner.{Literals, Thrown}
use power_electronics_ai_sim.Runner.State.{World, Row, WindowEvent, Checkpoint, Standing, Run, M}
use power_electronics_ai_sim.Runner.World.{continue, ◌>>=◌, ◌>>◌, modify}
use power_electronics_ai_sim.Runner.World.Triples.{
  Any, Holds, Post, Triple, >>=-Triple, may_raise-Triple, get_state-Triple, on_plant-Triple,
  on_controller-Triple, call-Triple,
}
use power_electronics_ai_sim.Runner.Segments.Driving.{Drives}
use power_electronics_ai_sim.Runner.Window.Sampling.{Allows}
use power_electronics_ai_sim.Runner.Window.Step.{Outcome, window, commit, run_window}
use power_electronics_ai_sim.Runner.Window.Step.Admission.{IsAdmitted, window-Triple}
use power_electronics_ai_sim.Runner.Loop.{
  is_due, checkpoint_of, add_checkpoint, plant_snapshot, controller_snapshot, write_checkpoint,
  due_checkpoint, after_window, run_windows,
}

module _ {num : Number} {P C : Type 0}
    (F : ℕ
      → P
      → List (Row num)
      → List (WindowEvent num)
      → List (Checkpoint num)
      → Standing num
      → Type 0)
    (lit : Literals num) (w : World num P C) where
  open num use {Value}

  -- The plant may be asked for a snapshot, where it has any.
  abbrev pub Snapshots : ℕ → Option (P → Result Thrown (Mapping (Payload Value)) × P) → Type 0
  Snapshots j none = Unit
  Snapshots j (some snapshot) =
      (p : P) (xs : List (Row num)) (es : List (WindowEvent num)) (cs : List (Checkpoint num))
      (a : Standing num)
      → F j p xs es cs a
      → F j (snapshot p).1 xs es cs a

  -- A checkpoint of the samples and the events
  abbrev pub Records : ℕ → Run num P C → Checkpoint num → Type 0
  Records j s c = (c.next_step_index ≡ j) × (c.samples ≡ s.samples) × (c.events ≡ s.events)

  -- What the parts of the loop do to the family.
  pub record IsFamily : Type 0 where
    pub allows : (j : ℕ) → Allows (F j) lit w
    pub drives : (j : ℕ) (a : Value) → IsAdmitted w a → Drives (F j) w a
    pub commits :
        (j : ℕ) (o : Outcome num) (s : Run num P C)
        → IsAdmitted w o.action
        → Holds (F j) s
        → Holds (F (suc j)) (commit lit w j o s)
    pub snapshots : (j : ℕ) → Snapshots j w.snapshot_plant
    pub records :
        (j : ℕ) (s : Run num P C) (c : Checkpoint num)
        → Records j s c
        → Holds (F j) s
        → F j s.plant s.samples s.events (s.checkpoints ++ c ∷ []) (s.last_action, s.machine)

  module _ (family : IsFamily) where
    plant_snapshot-Triple :
        (j : ℕ) (o : Option (P → Result Thrown (Mapping (Payload Value)) × P))
        → Snapshots j o
        → Triple (F j) Any (plant_snapshot w j o)
    unfolding plant_snapshot
    plant_snapshot-Triple j none keeps s h = h
    plant_snapshot-Triple j (some snapshot) keeps s h =
        call-Triple (F j) Any w "plant" "snapshot" j _ (on_plant-Triple (F j) snapshot keeps) s h

    controller_snapshot-Triple :
        (j : ℕ) (o : Option (C → Result Thrown (Mapping (Payload Value)) × C))
        → Triple (F j) Any (controller_snapshot w j o)
    unfolding controller_snapshot
    controller_snapshot-Triple j none =
        >>=-Triple (F j) _ Any _ _ (get_state-Triple (F j)) (λ s here t holds. (tt, holds))
    controller_snapshot-Triple j (some snapshot) =
        call-Triple (F j) Any w "controller" "snapshot" j _ (on_controller-Triple (F j) snapshot)

    write_checked :
        (j : ℕ) (c : Checkpoint num) (s : Run num P C) (r : Result Thrown (Unit {0}))
        → Records j s c
        → Holds (F j) s
        → Post (F j) Any (continue {num = num} {C = C} (λ u. modify (add_checkpoint w c)) (r, s))
    write_checked j c s (err e) same holds = holds
    write_checked j c s (ok u) same holds = (tt, family.records j s c same holds)

    pub write_checkpoint-Triple : (j : ℕ) → Triple (F j) Any (write_checkpoint w j)
    unfolding write_checkpoint ◌>>=◌
    write_checkpoint-Triple j =
        >>=-Triple (F j) Any Any _ _ (plant_snapshot-Triple j w.snapshot_plant (family.snapshots j))
          (λ snapshot u.
            >>=-Triple (F j) Any Any _ _ (controller_snapshot-Triple j w.snapshot_controller)
              (λ state v s holds.
                write_checked j (checkpoint_of w j snapshot state s) s
                  (w.write (checkpoint_of w j snapshot state s)) (refl, refl, refl) holds))

    due_checkpoint-Triple : (j : ℕ) → Triple (F (suc j)) Any (due_checkpoint w j)
    unfolding due_checkpoint
    due_checkpoint-Triple j s h = elim (Bool-cases (is_due w.checkpoint_interval_steps j)) [
      | inl due ↦ rw due (write_checkpoint-Triple (suc j) s h)
      | inr not_due ↦ rw not_due (tt, h)
    ]

    after_window-Triple : (j : ℕ) → Triple (F (suc j)) Any (after_window w j)
    unfolding after_window
    after_window-Triple j = >>=-Triple (F (suc j)) Any Any _ _ (due_checkpoint-Triple j) (λ u a.
        >>=-Triple (F (suc j)) _ Any _ _ (get_state-Triple (F (suc j))) (λ s here.
          >>=-Triple (F (suc j)) Any Any _ _ (may_raise-Triple (F (suc j)) _ _)
            (λ v b. may_raise-Triple (F (suc j)) _ _)))

    -- After the loop over `n` windows from `i` on: it returned with all of them done, or it raised
    -- with some of them done.
    abbrev pub After : ℕ → ℕ → Result Thrown (Unit {0}) × Run num P C → Type 0
    After i n (ok u, t) = Holds (F (i + n)) t
    After i n (err e, t) = (k : ℕ) × (k ≤ n) × Holds (F (i + k)) t

    shifted :
        (i n : ℕ) (x : Result Thrown (Unit {0}) × Run num P C)
        → After (suc i) n x
        → After i (suc n) x
    shifted i n (ok u, t) h = let same : suc i + n ≡ i + suc n = omega arith in rw (← same) h
    shifted i n (err e, t) (k, bound, h) =
        let same : suc i + k ≡ i + suc k = omega arith in (suc k, omega arith, rw (← same) h)

    ended-After :
        (i n : ℕ) (k : Unit {0} → M num P C (Unit {0})) (x : Result Thrown (Unit {0}) × Run num P C)
        → Post (F (suc i)) Any x
        → ((s : Run num P C) → Holds (F (suc i)) s → After (suc i) n (k tt s))
        → After i (suc n) (continue k x)
    ended-After i n k (ok u, t) (v, h) rest = shifted i n (k u t) (rest t h)
    ended-After i n k (err e, t) h rest =
        let same : suc i ≡ i + 1 = omega arith in (1, omega arith, rw (← same) h)

    committed :
        (i n : ℕ) (x : Result Thrown (Outcome num) × Run num P C)
        → Post (F i) (λ o. IsAdmitted w o.action) x
        → ((s : Run num P C)
            → Holds (F (suc i)) s
            → After (suc i) n (run_windows lit w n (suc i) s))
        → After i (suc n) (
            continue
              (λ u. after_window w i >> run_windows lit w n (suc i))
              (continue (λ o. modify (commit lit w i o)) x))
    unfolding ◌>>=◌
    committed i n (ok o, t) (admitted, h) rest =
        ended-After i n (λ u. run_windows lit w n (suc i)) _
          (after_window-Triple i (commit lit w i o t) (family.commits i o t admitted h)) rest
    committed i n (err e, t) h rest =
        let same : i ≡ i + 0 = omega arith in (0, omega arith, rw (← same) h)

    -- Each window that is done takes the family to the next index, whether the loop returns after
    -- all of them or raises before.
    pub run_windows-After :
        (n i : ℕ) (s : Run num P C) → Holds (F i) s → After i n (run_windows lit w n i s)
    unfolding run_windows run_window ◌>>=◌
    run_windows-After zero i s h = let same : i ≡ i + 0 = omega arith in rw (← same) h
    run_windows-After (suc n) i s h =
        committed i n (window lit w i s)
          (window-Triple (F i) lit w i (family.allows i) (family.drives i) s h)
          (run_windows-After n (suc i))
