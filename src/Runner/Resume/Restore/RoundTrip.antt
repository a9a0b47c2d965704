-- ===== src/Runner/Resume/Restore/RoundTrip.antt =====
-- A checkpoint that `_write_checkpoint` of src/pe_sim/runtime.py wrote is accepted, and restored.
use power_electronics_ai_sim.Base.{
  ℕ, ◌≤◌, ◌≡◌, refl, String, Bool, true, false, not, ◌&&◌, Option, none, some, length, ltb, str_eq,
  Result, ok, err, arith, eq_refl, ap, ◌∙◌, inl, inr, Bool-cases,
}
use power_electronics_ai_sim.Number.{Number}
use power_electronics_ai_sim.Contracts.{Payload, Mapping}
use power_electronics_ai_sim.Runner.{Thrown, value_error}
use power_electronics_ai_sim.Runner.State.{Checkpoint, World, Run, M}
use power_electronics_ai_sim.Runner.World.{on_plant, on_controller, ◌>>=◌, call}
use power_electronics_ai_sim.Runner.Resume.{
  Identity, text_length, same_hashes, is_protocol, Saved, Accepted, unsigned, check_identity,
  check_hash, check_origin, check_saved, is_resumable,
}
use power_electronics_ai_sim.Runner.Resume.Restore.{
  Resumption, written, loaded, has_protocol, restore_controller, resume,
}

-- The refusal of a source whose status is another
abbrev pub not_resumable : Thrown
not_resumable = value_error "resume source must be INCOMPLETE or RUN_FAILED"

module _ {num : Number} (digest : Saved num → String) (has_restore : Bool)
    (identity : Identity) where
  open num use {is_finite, lt, nought}

  -- A checkpoint that this experiment can have written.
  pub record IsOwn (c : Checkpoint num) : Type 0 where
    pub time_finite : is_finite c.time_s ≡ true
    pub time_not_negative : lt c.time_s nought ≡ false
    pub action_finite : is_finite c.last_action ≡ true
    pub start_finite : is_finite c.run_start_time ≡ true
    pub indexed : length c.samples ≤ c.next_step_index
    pub hash_long : text_length (digest (unsigned num (written num digest identity c))) ≡ 64
    pub keys_distinct : same_hashes identity.contract_hashes identity.contract_hashes ≡ true
    pub protocol_known : is_protocol identity.controller_state_protocol ≡ true
    pub protocol_held :
        (str_eq identity.controller_state_protocol "snapshot_restore" && not has_restore) ≡ false

  abbrev accepted : Checkpoint num → Accepted num
  accepted c = record {
    next_step_index = c.next_step_index;
    plant_snapshot = c.plant_snapshot;
    controller_state = c.controller_state;
    samples = c.samples;
    events = c.events;
  }

  check_saved-written :
      (status : Option String) (c : Checkpoint num)
      → is_resumable status ≡ true
      → IsOwn c
      → check_saved num digest has_restore identity
          (loaded num status (written num digest identity c))
        ≡ ok (accepted c)
  unfolding check_saved check_origin check_identity check_hash
  check_saved-written status c resumable h =
      let fits : ltb c.next_step_index (length c.samples) ≡ false = ground (arith, h.indexed) in
      rw
        (
          resumable,
          h.time_finite,
          h.time_not_negative,
          fits,
          h.action_finite,
          eq_refl identity.experiment_id,
          eq_refl identity.plant_id,
          eq_refl identity.controller_id,
          h.hash_long,
          eq_refl (digest (unsigned num (written num digest identity c))),
          eq_refl identity.plant_hash,
          eq_refl identity.controller_hash,
          h.keys_distinct,
          eq_refl identity.experiment_spec_hash,
          h.protocol_known,
          eq_refl identity.controller_state_protocol,
          h.protocol_held,
        )
        refl

  check_saved-refuses :
      (status : Option String) (d : Saved num)
      → is_resumable status ≡ false
      → check_saved num digest has_restore identity (loaded num status d) ≡ err not_resumable
  unfolding check_saved
  check_saved-refuses status d refused = rw refused refl

module _ {num : Number} {P C : Type 0} (w : World num P C) where
  plant_then :
      {A B : Type 0} (Q : Result Thrown B × Run num P C → Type 0) (k : A → M num P C B)
      (component method : String) (i : ℕ) (f : P → Result Thrown A × P) (a : A) (s : Run num P C)
      → (f s.plant).0 ≡ ok a
      → ((t : Run num P C) → t.plant ≡ (f s.plant).1 → t.controller ≡ s.controller → Q (k a t))
      → Q ((call w component method i (on_plant f) >>= k) s)
  unfolding call ◌>>=◌
  plant_then Q k component method i f a s h next = elim (Bool-cases w.audit_enabled) [
    | inl on ↦ rw (on, h) (next _ refl refl)
    | inr off ↦ rw (off, h) (next _ refl refl)
  ]

  controller_then :
      {A B : Type 0} (Q : Result Thrown B × Run num P C → Type 0) (k : A → M num P C B)
      (component method : String) (i : ℕ) (f : C → Result Thrown A × C) (a : A) (s : Run num P C)
      → (f s.controller).0 ≡ ok a
      → ((t : Run num P C) → t.plant ≡ s.plant → t.controller ≡ (f s.controller).1 → Q (k a t))
      → Q ((call w component method i (on_controller f) >>= k) s)
  unfolding call ◌>>=◌
  controller_then Q k component method i f a s h next = elim (Bool-cases w.audit_enabled) [
    | inl on ↦ rw (on, h) (next _ refl refl)
    | inr off ↦ rw (off, h) (next _ refl refl)
  ]

module _ {num : Number} {P C : Type 0} (w : World num P C) (r : Resumption num P C) where
  open num use {Value}

  -- The controller takes the state back: by `restore`, or by a `reset` that returns it.
  abbrev pub TakesBack :
      Option (Mapping (Payload Value) → C → Result Thrown (Unit {0}) × C)
      → Mapping (Payload Value)
      → C
      → Type 0
  TakesBack (some f) state c = (f state c).0 ≡ ok tt
  TakesBack none state c = (r.reset_controller state c).0 ≡ ok (some state)

  abbrev pub taken_back :
      Option (Mapping (Payload Value) → C → Result Thrown (Unit {0}) × C)
      → Mapping (Payload Value)
      → C
      → C
  taken_back (some f) state c = (f state c).1
  taken_back none state c = (r.reset_controller state c).1

  -- The run goes on where the checkpoint was taken, with a restored plant and controller.
  pub record GoesOn (c : Checkpoint num) (p : P) (k : C) (next : ℕ) (start : Value)
      (t : Run num P C) : Type 0 where
    pub next_index : next ≡ c.next_step_index
    pub start_time : start ≡ c.run_start_time
    pub plant_restored : t.plant ≡ p
    pub controller_restored : t.controller ≡ k
    pub state_kept : t.controller_state ≡ c.controller_state
    pub samples_kept : t.samples ≡ c.samples
    pub events_kept : t.events ≡ c.events
    pub time_kept : t.current_time ≡ c.time_s
    pub action_kept : t.last_action ≡ c.last_action

  abbrev pub IsResumed : Checkpoint num → P → C → Result Thrown (ℕ × Value) × Run num P C → Type 0
  IsResumed c p k (ok (next, start), t) = GoesOn c p k next start t
  IsResumed c p k (err e, t) = ⊥

  -- By whether the status of the source may be resumed: the run goes on, or nothing has changed.
  abbrev pub Answers :
      Bool → Checkpoint num → Run num P C → Result Thrown (ℕ × Value) × Run num P C → Type 0
  Answers true c s outcome =
      IsResumed c (r.restore_plant c.plant_snapshot s.plant).1
        (taken_back r.restore_controller c.controller_state s.controller) outcome
  Answers false c s outcome = outcome ≡ (err not_resumable, s)

  controller_taken :
      {B : Type 0} (Q : Result Thrown B × Run num P C → Type 0)
      (k : Mapping (Payload Value) → M num P C B)
      (o : Option (Mapping (Payload Value) → C → Result Thrown (Unit {0}) × C)) (i : ℕ)
      (state : Mapping (Payload Value)) (s : Run num P C)
      → TakesBack o state s.controller
      → ((t : Run num P C)
          → t.plant ≡ s.plant
          → t.controller ≡ taken_back o state s.controller
          → Q (k state t))
      → Q ((restore_controller w r o i state >>= k) s)
  unfolding restore_controller call ◌>>=◌
  controller_taken Q k (some f) i state s h next = elim (Bool-cases w.audit_enabled) [
    | inl on ↦ rw (on, h) (next _ refl refl)
    | inr off ↦ rw (off, h) (next _ refl refl)
  ]
  controller_taken Q k none i state s h next = elim (Bool-cases w.audit_enabled) [
    | inl on ↦ rw (on, h) (next _ refl refl)
    | inr off ↦ rw (off, h) (next _ refl refl)
  ]

  resume-accepted :
      (status : Option String) (c : Checkpoint num) (s : Run num P C)
      → is_resumable status ≡ true
      → IsOwn r.digest (has_protocol w r) r.identity c
      → (r.restore_plant c.plant_snapshot s.plant).0 ≡ ok tt
      → TakesBack r.restore_controller c.controller_state s.controller
      → Answers true c s (resume w r (loaded num status (written num r.digest r.identity c)) s)
  unfolding resume ◌>>=◌
  resume-accepted status c s resumable own plant controller =
      rw (check_saved-written r.digest (has_protocol w r) r.identity status c resumable own) (
        plant_then w (IsResumed c _ _) _ "plant" "restore" c.next_step_index
          (r.restore_plant c.plant_snapshot) tt s plant
          (λ t same_plant same_controller.
            controller_taken (IsResumed c _ _) _ r.restore_controller c.next_step_index
              c.controller_state t (rw same_controller controller)
              (λ u plant_there controller_there. rw own.start_finite (record {
                next_index = refl;
                start_time = refl;
                plant_restored = plant_there ∙ same_plant;
                controller_restored =
                    controller_there
                    ∙ ap (taken_back r.restore_controller c.controller_state) same_controller;
                state_kept = refl;
                samples_kept = refl;
                events_kept = refl;
                time_kept = refl;
                action_kept = refl;
              }))))

  resume-refused :
      (status : Option String) (d : Saved num) (s : Run num P C)
      → is_resumable status ≡ false
      → resume w r (loaded num status d) s ≡ (err not_resumable, s)
  unfolding resume ◌>>=◌
  resume-refused status d s refused =
      rw (check_saved-refuses r.digest (has_protocol w r) r.identity status d refused) refl

  -- A checkpoint that this experiment wrote, loaded with the status of its run: where there is no
  -- status or it is INCOMPLETE or RUN_FAILED, and the plant restores its snapshot and the controller
  -- takes its state back, the run goes on at the index, time, action, samples and events of the
  -- checkpoint, and with its start, whatever state it is in; with any other status it is refused,
  -- and nothing has changed.
  pub resume-written :
      (status : Option String) (c : Checkpoint num) (s : Run num P C)
      → IsOwn r.digest (has_protocol w r) r.identity c
      → (r.restore_plant c.plant_snapshot s.plant).0 ≡ ok tt
      → TakesBack r.restore_controller c.controller_state s.controller
      → Answers
          (is_resumable status)
          c
          s
          (resume w r (loaded num status (written num r.digest r.identity c)) s)
  resume-written status c s own plant controller = elim (Bool-cases (is_resumable status)) [
    | inl resumable ↦ rw resumable (resume-accepted status c s resumable own plant controller)
    | inr refused ↦ rw refused (resume-refused status (written num r.digest r.identity c) s refused)
  ]
