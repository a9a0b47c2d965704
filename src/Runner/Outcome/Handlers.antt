-- ===== src/Runner/Outcome/Handlers.antt =====
-- What the qualification and the handlers of src/pe_sim/runtime.py record: the status, the error and
-- the document.
use power_electronics_ai_sim.Base.{
  ℕ, String, ◌≡◌, refl, ◌⊎◌, inl, inr, Bool, true, false, Option, none, some, List, length, arith,
  Result, ok, err, Bool-cases, any, str_eq, Result-cases,
}
use Prim.Native.String.{◌++◌ as append}
use power_electronics_ai_sim.Number.{Number}
use power_electronics_ai_sim.Lifecycle.{
  Status, running, qualified, disqualified, run_ok, run_failed, incomplete, allowed, contains,
  Machine, transition, can_transition,
}
use power_electronics_ai_sim.Checks.{
  CheckError, incomplete_finding, normalize, failure_report, post_init,
}
use power_electronics_ai_sim.Checks.Outcome.{Document, qualification_document}
use power_electronics_ai_sim.Runner.{Thrown, Failure, interrupted, cancelled, out_of_fuel}
use power_electronics_ai_sim.Runner.State.{World, Run, M, check_error}
use power_electronics_ai_sim.Runner.World.{pure, ◌>>=◌, ◌>>◌}
use power_electronics_ai_sim.Runner.Loop.{write_checkpoint}
use power_electronics_ai_sim.Runner.Failures.{failure_category, observation_failures}
use power_electronics_ai_sim.Runner.Outcome.{
  Conclusion, has_findings, failure_reasons, judge, move, complete, note_failure, failed_document,
  note_observation, handle_failure,
}

failure_report-raises :
    (category message rule_id : String) (id : Option String) (e : CheckError)
    → failure_report category message rule_id id ≡ err e
    → e ≡ incomplete_finding
unfolding failure_report post_init
failure_report-raises category message rule_id id e h = ground arith

-- A failure without a text gives no report.
empty_report :
    (category message rule_id : String) (id : Option String)
    → message ≡ ""
    → failure_report category message rule_id id ≡ err incomplete_finding
unfolding failure_report post_init
empty_report category message rule_id id h = rw h (ground arith)

module _ {num : Number} {P C : Type 0} where
  -- What a run that ended by `error` records.
  abbrev pub Recorded : Option Thrown → Document → Run num P C → Type 0
  Recorded none d t =
      ((t.machine.status ≡ qualified) × (t.qualification_report.passed ≡ true))
      ⊎ ((t.machine.status ≡ disqualified) × (t.qualification_report.passed ≡ false))
  Recorded (some (interrupted text)) d t = (t.machine.status ≡ incomplete) × (d.passed ≡ false)
  Recorded (some (cancelled text)) d t = (t.machine.status ≡ incomplete) × (d.passed ≡ false)
  Recorded (some (Thrown.failed f)) d t = (t.machine.status ≡ run_failed) × (d.passed ≡ false)
  Recorded (some out_of_fuel) d t = ⊥

  -- An attempt to write the checkpoint of an INCOMPLETE run raised, and left `t`.
  pub record IsUnwritten (w : World num P C) (e : Thrown) (t : Run num P C) : Type 0 where
    pub before : Run num P C
    pub stopped : before.machine.status ≡ incomplete
    pub raised : write_checkpoint w (length before.samples) before ≡ (err e, t)

  -- What may still come out of a run: an interrupt of the checkpoint that a handler writes, and,
  -- while the run is still RUNNING, the refusal of a finding without a text.
  abbrev pub Escapes : World num P C → Thrown → Run num P C → Type 0
  Escapes w out_of_fuel t = Unit
  Escapes w (interrupted text) t = IsUnwritten w (interrupted text) t
  Escapes w (cancelled text) t = ⊥
  Escapes w (Thrown.failed f) t =
      (Thrown.failed f ≡ check_error incomplete_finding) × (t.machine.status ≡ running)

  abbrev pub IsSettled : World num P C → Result Thrown Conclusion × Run num P C → Type 0
  IsSettled w (ok c, t) = Recorded c.error c.document t
  IsSettled w (err e, t) = Escapes w e t

  abbrev pub InBody : Result Thrown Conclusion × Run num P C → Type 0
  InBody (ok c, t) = (c.error ≡ none) × Recorded none c.document t
  InBody (err e, t) = t.machine.status ≡ running

  -- An allowed transition is made.
  pub move_then :
      {B : Type 0} (Q : Result Thrown B × Run num P C → Type 0) (k : Unit {0} → M num P C B)
      (w : World num P C) (target : Status) (reason : String) (i : ℕ) (s : Run num P C)
      → contains target (allowed s.machine.status) ≡ true
      → ((m : Machine num.Value) → m.status ≡ target → Q (k tt (record s { machine = m })))
      → Q ((move w target reason i >>= k) s)
  unfolding move transition can_transition ◌>>=◌
  move_then Q k w target reason i s h next = rw h (next _ refl)

  judge-InBody :
      (w : World num P C) (n : ℕ) (d : Document) (b : Bool) (s : Run num P C)
      → s.qualification_report.passed ≡ b
      → s.machine.status ≡ run_ok
      → InBody ((judge w n b >> pure (record { document = d; error = none })) s)
  unfolding judge
  judge-InBody w n d true s passed h =
      move_then InBody _ w qualified "qualification_passed" n s (rw h refl)
        (λ m done. (refl, inl (done, passed)))
  judge-InBody w n d false s passed h =
      move_then InBody _ w disqualified "qualification_failed" n s (rw h refl)
        (λ m done. (refl, inr (done, passed)))

  pub complete-InBody :
      (w : World num P C) (n : ℕ) (d : Document) (s : Run num P C)
      → s.machine.status ≡ running
      → InBody (complete w n d s)
  unfolding complete
  complete-InBody w n d s h = move_then InBody _ w run_ok "completed" n s (rw h refl) (λ m done.
      (unfold ◌>>=◌ in
        judge-InBody w n d s.qualification_report.passed (record s { machine = m }) refl done))

  pub document_then :
      {B : Type 0} (Q : Result Thrown B × Run num P C → Type 0) (k : Document → M num P C B)
      (w : World num P C) (rs : List String) (s : Run num P C)
      → ((d : Document) → d.passed ≡ false → Q (k d s))
      → Q ((failed_document w rs >>= k) s)
  unfolding failed_document qualification_document normalize ◌>>=◌
  document_then Q k w rs s next = next _ refl

  note_then :
      {B : Type 0} (Q : Result Thrown B × Run num P C → Type 0) (k : Unit {0} → M num P C B)
      (w : World num P C) (f : Failure) (category : String) (s : Run num P C)
      → ((t : Run num P C) → t.machine ≡ s.machine → Q (k tt t))
      → Q (err (check_error incomplete_finding), s)
      → Q ((note_observation w f category >>= k) s)
  unfolding note_observation ◌>>=◌
  note_then Q k w f category s next escape = elim (Bool-cases (has_findings f.report)) [
    | inl known_findings ↦ rw known_findings (next s refl)
    | inr no_findings ↦ elim (Bool-cases (any (λ c. str_eq category c) observation_failures)) [
      | inl observation ↦
          elim (Result-cases (
            failure_report category f.message (append "runner." category)
              (some "runner-observation-boundary"))) [
                | inl (e, refused) ↦
                    rw (no_findings, observation, refused, failure_report-raises _ _ _ _ e refused)
                      escape
                | inr (r, made) ↦ rw (no_findings, observation, made) (next _ refl)
              ]
      | inr other_kind ↦ rw (no_findings, other_kind) (next s refl)
    ]
  ]

  pub handle_failure-IsSettled :
      (w : World num P C) (f : Failure) (s : Run num P C)
      → s.machine.status ≡ running
      → IsSettled w (handle_failure w f s)
  unfolding handle_failure note_failure ◌>>=◌
  handle_failure-IsSettled w f s h =
      note_then (IsSettled w) _ w f (failure_category w f s.calls) s
        (λ t same. move_then (IsSettled w) _ w run_failed _ _ _ (rw (same, h) refl) (λ m done.
          document_then (IsSettled w) _ w (failure_reasons (failure_category w f s.calls)) _
            (λ d not_passed. (done, not_passed))))
        (refl, h)

  -- A failure whose text is empty, whose category is one of the observation categories, and which
  -- carries no report with findings, makes the handler itself raise: the run records no status.
  pub empty_failure_escapes :
      (w : World num P C) (f : Failure) (s : Run num P C)
      → has_findings f.report ≡ false
      → f.message ≡ ""
      → any (λ c. str_eq (failure_category w f s.calls) c) observation_failures ≡ true
      → (handle_failure w f s).0 ≡ err (check_error incomplete_finding)
  unfolding handle_failure note_observation ◌>>=◌
  empty_failure_escapes w f s none_found empty observation =
      rw (none_found, observation, empty_report _ f.message _ _ empty) refl
