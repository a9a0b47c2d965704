-- ===== src/Runner/Outcome/Settled.antt =====
-- How runs of src/pe_sim/runtime.py are recorded: the status, the error and the document.
use power_electronics_ai_sim.Base.{
  ℕ, ◌+◌, String, ◌≡◌, refl, false, Option, none, some, List, [], ◌∷◌, length, Result, ok, err,
}
use power_electronics_ai_sim.Number.{Number}
use power_electronics_ai_sim.Contracts.{Payload, Mapping}
use power_electronics_ai_sim.Lifecycle.{Status, running, incomplete}
use power_electronics_ai_sim.Checks.Outcome.{Document}
use power_electronics_ai_sim.Runner.{Thrown, interrupted, cancelled, out_of_fuel, Literals}
use power_electronics_ai_sim.Runner.State.{World, Run, M, Row, WindowEvent, Checkpoint, Standing}
use power_electronics_ai_sim.Runner.World.{continue, ◌>>=◌}
use power_electronics_ai_sim.Runner.World.Triples.{
  Any, Post, Triple, >>=-Triple, lift-Triple, may_lift-Triple, call-Triple, get_state-Triple,
  run_plugins_audited-Triple,
}
use power_electronics_ai_sim.Runner.Loop.{write_checkpoint, run_windows}
use power_electronics_ai_sim.Runner.Loop.Keeping.{
  IsFamily, Snapshots, After, run_windows-After, write_checkpoint-Triple,
}
use power_electronics_ai_sim.Runner.Outcome.{
  Conclusion, merge_qualification, qualify, complete, note_failure, caught, try_checkpoint,
  handle_incomplete, settle, body, run,
}
use power_electronics_ai_sim.Runner.Outcome.Handlers.{
  Escapes, Recorded, IsSettled, InBody, move_then, document_then, complete-InBody,
  handle_failure-IsSettled,
}

module _ {num : Number} {P C : Type 0} where
  module _ (lit : Literals num) (w : World num P C) (status : Status) where
    abbrev InStatus :
        ℕ
        → P
        → List (Row num)
        → List (WindowEvent num)
        → List (Checkpoint num)
        → Standing num
        → Type 0
    InStatus j p xs es cs last = last.1.status ≡ status

    Snapshots-InStatus :
        (j : ℕ) (o : Option (P → Result Thrown (Mapping (Payload num.Value)) × P))
        → Snapshots InStatus lit w j o
    Snapshots-InStatus j none = tt
    Snapshots-InStatus j (some snapshot) = λ p xs es cs a h. h

    InStatus-IsFamily : IsFamily InStatus lit w
    InStatus-IsFamily = record {
      allows = λ j. record {
        observing = λ p xs es cs last h. h;
        going_on = λ s h d x p xs es cs last k. k;
      };
      drives = λ j a admitted d x p xs es cs last k. k;
      commits = λ j o s admitted h. h;
      snapshots = λ j. Snapshots-InStatus j w.snapshot_plant;
      records = λ j s c same h. h;
    }

  -- After an attempt to write the checkpoint
  abbrev Attempted : World num P C → Result Thrown (Unit {0}) × Run num P C → Type 0
  Attempted w (ok u, t) = t.machine.status ≡ incomplete
  Attempted w (err e, t) = Escapes w e t

  caught-Attempted :
      (lit : Literals num) (w : World num P C) (s : Run num P C)
      (x : Result Thrown (Unit {0}) × Run num P C)
      → s.machine.status ≡ incomplete
      → write_checkpoint w (length s.samples) s ≡ x
      → Post (InStatus lit w incomplete 0) Any x
      → Attempted w (caught w x)
  unfolding caught note_failure
  caught-Attempted lit w s (ok u, t) stopped same (v, h) = h
  caught-Attempted lit w s (err (interrupted text), t) stopped same h = record {
    before = s;
    stopped = stopped;
    raised = same;
  }
  caught-Attempted lit w s (err (cancelled text), t) stopped same h = h
  caught-Attempted lit w s (err (Thrown.failed f), t) stopped same h = h
  caught-Attempted lit w s (err out_of_fuel, t) stopped same h = tt

  Attempted-then :
      (w : World num P C) (k : Unit {0} → M num P C Conclusion)
      (x : Result Thrown (Unit {0}) × Run num P C)
      → Attempted w x
      → ((t : Run num P C) → t.machine.status ≡ incomplete → IsSettled w (k tt t))
      → IsSettled w (continue k x)
  Attempted-then w k (ok u, t) h next = next t h
  Attempted-then w k (err e, t) h next = h

  handle_incomplete-IsSettled :
      (lit : Literals num) (w : World num P C) (category : String) (e : Thrown) (s : Run num P C)
      → s.machine.status ≡ running
      → ((d : Document) (t : Run num P C)
          → (t.machine.status ≡ incomplete) × (d.passed ≡ false)
          → Recorded (some e) d t)
      → IsSettled w (handle_incomplete w category e s)
  unfolding handle_incomplete note_failure try_checkpoint ◌>>=◌
  handle_incomplete-IsSettled lit w category e s h recorded =
      move_then (IsSettled w) _ w incomplete category _ _ (rw h refl) (λ m done.
        Attempted-then w _ _
          (caught-Attempted lit w _ _ done refl (
            write_checkpoint-Triple (InStatus lit w incomplete) lit w
              (InStatus-IsFamily lit w incomplete) _ _ done))
          (λ t still.
            document_then (IsSettled w) _ w ("incomplete" ∷ category ∷ []) t
              (λ d not_passed. recorded d t (still, not_passed))))

  settle-IsSettled :
      (lit : Literals num) (w : World num P C) (x : Result Thrown Conclusion × Run num P C)
      → InBody x
      → IsSettled w (settle w x)
  unfolding settle
  settle-IsSettled lit w (ok c, t) (same, h) = rw same h
  settle-IsSettled lit w (err (interrupted text), t) h =
      handle_incomplete-IsSettled lit w "interrupted" (interrupted text) t h (λ d u k. k)
  settle-IsSettled lit w (err (cancelled text), t) h =
      handle_incomplete-IsSettled lit w "cancelled" (cancelled text) t h (λ d u k. k)
  settle-IsSettled lit w (err (Thrown.failed f), t) h = handle_failure-IsSettled w f t h
  settle-IsSettled lit w (err out_of_fuel, t) h = tt

  module _ (lit : Literals num) (w : World num P C) where
    abbrev Running :
        P → List (Row num) → List (WindowEvent num) → List (Checkpoint num) → Standing num → Type 0
    Running = InStatus lit w running 0

    qualify-Triple : (n : ℕ) → Triple Running Any (qualify w n)
    unfolding qualify merge_qualification
    qualify-Triple n = >>=-Triple Running _ Any _ _ (get_state-Triple Running) (λ s here.
        >>=-Triple Running _ Any _ _
          (call-Triple Running _ w "qualification" "check" n _
            (lift-Triple Running (w.check_samples s.samples)))
          (λ answer h. >>=-Triple Running _ Any _ _ (lift-Triple Running _) (λ legacy k.
            >>=-Triple Running Any Any _ _ (λ t holds. (tt, holds))
              (λ u l.
                >>=-Triple Running _ Any _ _
                  (run_plugins_audited-Triple Running w w.qualification_chain "check_samples" _ _)
                  (λ plugins m.
                    >>=-Triple Running Any Any _ _ (λ t holds. (tt, holds))
                      (λ v o.
                        >>=-Triple Running _ Any _ _ (get_state-Triple Running)
                          (λ t there. may_lift-Triple Running _)))))))

    completed :
        (n : ℕ) (x : Result Thrown Document × Run num P C)
        → Post Running Any x
        → InBody (continue (complete w n) x)
    completed n (ok d, t) (u, h) = complete-InBody w n d t h
    completed n (err e, t) h = h

    looped :
        (i n : ℕ) (x : Result Thrown (Unit {0}) × Run num P C)
        → After (InStatus lit w running) lit w (InStatus-IsFamily lit w running) i n x
        → InBody (continue (λ u. qualify w (i + n) >>= complete w (i + n)) x)
    unfolding ◌>>=◌
    looped i n (ok u, t) h = completed (i + n) (qualify w (i + n) t) (qualify-Triple (i + n) t h)
    looped i n (err e, t) (k, bound, h) = h

    body-InBody :
        (n i : ℕ) (s : Run num P C) → s.machine.status ≡ running → InBody (body lit w n i s)
    unfolding body ◌>>=◌
    body-InBody n i s h =
        looped i n (run_windows lit w n i s) (
          run_windows-After (InStatus lit w running) lit w (InStatus-IsFamily lit w running) n i s
            h)

    -- A run that is RUNNING before its loop is recorded: where nothing is raised, as QUALIFIED or
    -- DISQUALIFIED, as its merged qualification report tells; after an interrupt or a cancellation as
    -- INCOMPLETE, and after any other exception as RUN_FAILED, both with a document that does not
    -- pass. All that can come out instead is an interrupt that the checkpoint of the then INCOMPLETE
    -- run raised, the refusal of a finding without a text, with the run still RUNNING, or a lack of
    -- fuel.
    pub run-IsSettled :
        (n i : ℕ) (s : Run num P C) → s.machine.status ≡ running → IsSettled w (run lit w n i s)
    unfolding run
    run-IsSettled n i s h = settle-IsSettled lit w (body lit w n i s) (body-InBody n i s h)
