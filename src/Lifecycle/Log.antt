-- ===== src/Lifecycle/Log.antt =====
-- What the log of a lifecycle machine shows: an unbroken, numbered path through the matrix.
use power_electronics_ai_sim.Base.{
  ℕ, ◌+◌, ◌≡◌, refl, ap, true, List, [], ◌∷◌, ◌++◌, length, arith, inl, inr, Bool-cases,
}
use power_electronics_ai_sim.Lifecycle.{
  Status, created, allowed, contains, Target, known, unknown, Transition, Machine, Request,
  record_entry, accept, new, can_transition, transition, kept, drive,
}

module _ {Time : Type 0} where
  -- The entries lead from `s` to `t`, are numbered from `n`, and each makes an allowed move.
  abbrev pub Follows : Status → ℕ → List (Transition Time) → Status → Type 0
  Follows s n [] t = s ≡ t
  Follows s n (e ∷ es) t =
      (e.from_status ≡ s)
      × (e.sequence ≡ n)
      × (contains e.to_status (allowed s) ≡ true)
      × Follows e.to_status (n + 1) es t

  abbrev pub IsLogged : Machine Time → Type 0
  IsLogged m = Follows created 0 m.transitions m.status

  -- One more allowed move at the end.
  Follows-append :
      (s t u : Status) (n : ℕ) (es : List (Transition Time)) (e : Transition Time)
      → Follows s n es t
      → e.from_status ≡ t
      → e.sequence ≡ n + length es
      → contains e.to_status (allowed t) ≡ true
      → e.to_status ≡ u
      → Follows s n (es ++ e ∷ []) u
  Follows-append s t u n [] e h from_t numbered move to_u = ground (arith, ap allowed h)
  Follows-append s t u n (x ∷ es) e h from_t numbered move to_u = (
    h.0,
    h.1,
    h.2,
    Follows-append x.to_status t u (n + 1) es e h.3 from_t (omega arith) move to_u,
  )

  accept-IsLogged :
      (m : Machine Time) (r : Request Time) (t : Target)
      → IsLogged m
      → can_transition m t ≡ true
      → IsLogged (accept m r t)
  unfolding can_transition accept
  accept-IsLogged m r (known t) h moves =
      Follows-append created m.status t 0 m.transitions (record_entry m r t) h refl (omega arith)
        moves refl
  accept-IsLogged m r (unknown name) h moves = h

  transition-IsLogged :
      (m : Machine Time) (r : Request Time) → IsLogged m → IsLogged (kept m (transition m r))
  unfolding transition
  transition-IsLogged m r h = elim (Bool-cases (can_transition m r.target)) [
    | inl moves ↦ rw moves (accept-IsLogged m r r.target h moves)
    | inr stays ↦ rw stays h
  ]

  pub drive_keeps :
      (P : Machine Time → Type 0)
      → ((m : Machine Time) (r : Request Time) → P m → P (kept m (transition m r)))
      → (m : Machine Time) (rs : List (Request Time)) → P m
      → P (drive m rs)
  unfolding drive
  drive_keeps P step m [] h = h
  drive_keeps P step m (r ∷ rs) h = drive_keeps P step (kept m (transition m r)) rs (step m r h)

  -- Whatever transitions are requested of a new machine, refused ones included, the log is a path
  -- of allowed moves from CREATED to the machine's status, numbered 0, 1, 2, ... without a gap.
  pub drive-IsLogged : (rs : List (Request Time)) → IsLogged (drive (new Time) rs)
  drive-IsLogged rs = drive_keeps IsLogged transition-IsLogged (new Time) rs (unfold new in refl)
