-- ===== src/Lifecycle/History.antt =====
-- Each status has its history: a run reaches it through the same statuses in the same order, where a
-- failed or incomplete run may have started or not.
use power_electronics_ai_sim.Base.{
  ◌≡◌, refl, true, List, [], ◌∷◌, ◌++◌, arith, ◌↔◌, ◌⊎◌, inl, inr, Bool-cases, map, map-append, err,
  none,
}
use power_electronics_ai_sim.Lifecycle.{
  Status, created, running, run_ok, qualified, learning_eligible, comparable, learning_updated,
  allowed, contains, Target, known, unknown, Machine, Request, accept, disqualified,
  learning_rejected, invalid, new, is_terminal, can_transition, transition, kept, drive,
}
use power_electronics_ai_sim.Lifecycle.Log.{drive_keeps}

-- The statuses that a machine in status `s` has passed through.
abbrev pub Explains : Status → List Status → Type 0
Explains created l = l ≡ []
Explains running l = l ≡ running ∷ []
Explains run_ok l = l ≡ running ∷ run_ok ∷ []
Explains qualified l = l ≡ running ∷ run_ok ∷ qualified ∷ []
Explains disqualified l = l ≡ running ∷ run_ok ∷ disqualified ∷ []
Explains comparable l = l ≡ running ∷ run_ok ∷ qualified ∷ comparable ∷ []
Explains learning_eligible l = l ≡ running ∷ run_ok ∷ qualified ∷ learning_eligible ∷ []
Explains learning_updated l =
    l ≡ running ∷ run_ok ∷ qualified ∷ learning_eligible ∷ learning_updated ∷ []
Explains learning_rejected l =
    l ≡ running ∷ run_ok ∷ qualified ∷ learning_eligible ∷ learning_rejected ∷ []
Explains s l = (l ≡ s ∷ []) ⊎ (l ≡ running ∷ s ∷ [])

Explains-append :
    (s t : Status) (l : List Status)
    → Explains s l
    → contains t (allowed s) ≡ true
    → Explains t (l ++ t ∷ [])
Explains-append s t l h moves = ground arith

abbrev pub history : {Time : Type 0} → Machine Time → List Status
history m = map (λ e. e.to_status) m.transitions

-- A move that the matrix allows, where there is one.
abbrev onward : Status → Status
onward created = running
onward running = run_ok
onward run_ok = qualified
onward qualified = comparable
onward learning_eligible = learning_updated
onward s = s

module _ {Time : Type 0} where
  abbrev HasHistory : Machine Time → Type 0
  HasHistory m = Explains m.status (history m)

  accept-HasHistory :
      (m : Machine Time) (r : Request Time) (t : Target)
      → HasHistory m
      → can_transition m t ≡ true
      → HasHistory (accept m r t)
  unfolding can_transition accept
  accept-HasHistory m r (known t) h moves =
      rw map-append (Explains-append m.status t (history m) h moves)
  accept-HasHistory m r (unknown name) h moves = h

  transition-HasHistory :
      (m : Machine Time) (r : Request Time) → HasHistory m → HasHistory (kept m (transition m r))
  unfolding transition
  transition-HasHistory m r h = elim (Bool-cases (can_transition m r.target)) [
    | inl moves ↦ rw moves (accept-HasHistory m r r.target h moves)
    | inr stays ↦ rw stays h
  ]

  -- Whatever transitions are requested of a new machine, the statuses that its log goes through are
  -- the one path to its status, as RUNNING, RUN_OK, QUALIFIED to COMPARABLE; to RUN_FAILED and to
  -- INCOMPLETE they are one of two, at once or by way of RUNNING.
  pub drive-HasHistory : (rs : List (Request Time)) → HasHistory (drive (new Time) rs)
  drive-HasHistory rs =
      drive_keeps HasHistory transition-HasHistory (new Time) rs (unfold new in refl)

  abbrev onward_request : Status → Request Time
  onward_request s = record {
    target = known (onward s);
    reason = "";
    step_index = none;
    time_s = none;
  }

  -- A terminal status refuses every request, and each other status accepts one.
  pub is_terminal_iff :
      (m : Machine Time)
      → (is_terminal m ≡ true)
        ↔ ((r : Request Time) → transition m r ≡ err (invalid m.status r.target))
  unfolding transition is_terminal can_transition
  is_terminal_iff m =
      (λ h r. ground arith, λ refused. ground (arith, refused (onward_request m.status)))
