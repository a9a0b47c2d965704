-- ===== src/Checks/Plugins/FailClosed.antt =====
-- A chain of plugins passes only if every plugin passes, and a plugin that raises does not pass.
use power_electronics_ai_sim.Base.{
  ◌≡◌, refl, ◌↔◌, inl, inr, true, false, ◌&&◌, String, List, [], ◌∷◌, ◌++◌, arith, Option, none,
  some, All, any, ok, >>=-returned, Bool-cases,
}
use power_electronics_ai_sim.Checks.{
  CheckReport, CheckFinding, finding_blocking, blocking, merge, ok_report, single_report,
  failure_report, post_init,
}
use power_electronics_ai_sim.Checks.Merging.{
  IsConsistent, merge-IsConsistent, ok_report-IsConsistent,
}
use power_electronics_ai_sim.Checks.Plugins.{
  Plugin, PluginValue, report, finding, boolean, pair, mapping, Raised, Answer, returned, raised,
  normalise, normalise_report, normalise_finding, normalise_reasons, normalise_mapping,
  legacy_findings, or_default, reason_list, Reasons, run_plugin, answer_report, run_onto,
  run_plugins, FailedMapping, default_finding, or_method,
}

post_init-eq : (f g : CheckFinding) → post_init f ≡ ok g → g ≡ f
unfolding post_init
post_init-eq f g h = ground arith

single_report-IsConsistent :
    (f : CheckFinding) (id : Option String) → IsConsistent (single_report f id)
unfolding single_report blocking
single_report-IsConsistent f id = ground arith

-- The report of a failure blocks.
failure_report_fails :
    (category message rule_id : String) (id : Option String) (r : CheckReport)
    → failure_report category message rule_id id ≡ ok r
    → (IsConsistent r) × (r.passed ≡ false)
unfolding failure_report blocking
failure_report_fails category message rule_id id r h = ground arith

normalise_report-IsConsistent :
    (id : Option String) (a r : CheckReport) → normalise_report id a ≡ ok r → IsConsistent r
unfolding normalise_report blocking
normalise_report-IsConsistent id a r h = ground arith

normalise_finding-IsConsistent :
    (id : Option String) (f : CheckFinding) (r : CheckReport)
    → normalise_finding id f ≡ ok r
    → IsConsistent r
unfolding normalise_finding single_report blocking
normalise_finding-IsConsistent id f r h = ground arith

legacy_findings_block :
    (id : Option String) (ss : List String) (fs : List CheckFinding)
    → legacy_findings id ss ≡ ok fs
    → any finding_blocking (or_default id fs) ≡ true
unfolding legacy_findings finding_blocking default_finding post_init
legacy_findings_block id [] fs h = ground arith
legacy_findings_block id (s ∷ ss) fs h = ground arith

normalise_reasons-IsConsistent :
    (id : Option String) (rs : Reasons) (r : CheckReport)
    → normalise_reasons id rs ≡ ok r
    → IsConsistent r
unfolding normalise_reasons blocking
normalise_reasons-IsConsistent id rs r h =
    let (fs, same, found) = >>=-returned (legacy_findings id (reason_list rs)) _ h in
    ground (arith, legacy_findings_block id (reason_list rs) fs found)

normalise_mapping-IsConsistent :
    (id : Option String) (m : FailedMapping) (r : CheckReport)
    → normalise_mapping id m ≡ ok r
    → IsConsistent r
unfolding normalise_mapping
normalise_mapping-IsConsistent id m r h = (failure_report_fails _ _ _ id r h).0

pub normalise-IsConsistent :
    (id : Option String) (v : PluginValue) (r : CheckReport)
    → normalise id v ≡ ok r
    → IsConsistent r
unfolding normalise
normalise-IsConsistent id (report a) r h = normalise_report-IsConsistent id a r h
normalise-IsConsistent id (finding f) r h = normalise_finding-IsConsistent id f r h
normalise-IsConsistent id (boolean b) r h = ground (
  arith,
  ok_report-IsConsistent id,
  failure_report_fails "check_failed" "plugin returned false" "" id r,
)
normalise-IsConsistent id (pair b rs) r h =
    ground (arith, ok_report-IsConsistent id, normalise_reasons-IsConsistent id rs r)
normalise-IsConsistent id (mapping m) r h =
    ground (arith, ok_report-IsConsistent id, normalise_mapping-IsConsistent id m r)
normalise-IsConsistent id v r h = ground (arith, ok_report-IsConsistent id)

answer-IsConsistent :
    (id : String) (a : Answer) (r : CheckReport) → answer_report id a ≡ ok r → IsConsistent r
unfolding answer_report
answer-IsConsistent id (returned v) r h = normalise-IsConsistent (some id) v r h
answer-IsConsistent id (raised x) r h = (failure_report_fails _ _ _ (some id) r h).0

merge_passed :
    (a b : CheckReport)
    → IsConsistent a
    → IsConsistent b
    → (merge a b).passed ≡ (a.passed && b.passed)
unfolding merge
merge_passed a b ca cb = ground arith

answer_raised :
    (id : String) (x : Raised) (r : CheckReport)
    → answer_report id (raised x) ≡ ok r
    → r.passed ≡ false
unfolding answer_report
answer_raised id x r h = (failure_report_fails _ _ _ (some id) r h).1

module _ {Subject Context : Type 0} where
  run_plugin-IsConsistent :
      (p : Plugin Subject Context) (name : String) (s : Subject) (c : Context) (r : CheckReport)
      → run_plugin p name s c ≡ ok r
      → IsConsistent r
  unfolding run_plugin
  run_plugin-IsConsistent p name s c r h = go (or_method (p.method name) (p.method "check")) h
    where
      go :
          (m : Option (Subject → Context → Answer))
          → elim m [ none ↦ ok (ok_report (some p.id)) | some f ↦ answer_report p.id (f s c) ]
            ≡ ok r
          → IsConsistent r
      go none e = ground (arith, ok_report-IsConsistent (some p.id))
      go (some f) e = answer-IsConsistent p.id (f s c) r e

  -- `p` answers, and its report passes.
  abbrev pub Passes : String → Subject → Context → Plugin Subject Context → Type 0
  Passes name s c p = (r : CheckReport) × (run_plugin p name s c ≡ ok r) × (r.passed ≡ true)

  run_onto_passed :
      (done : CheckReport) (ps : List (Plugin Subject Context)) (name : String) (s : Subject)
      (c : Context) (r : CheckReport)
      → IsConsistent done
      → run_onto done ps name s c ≡ ok r
      → IsConsistent r × ((r.passed ≡ true) ↔ ((done.passed ≡ true) × All (Passes name s c) ps))
  unfolding run_onto
  run_onto_passed done [] name s c r cd h = ground arith
  run_onto_passed done (p ∷ ps) name s c r cd h =
      let (q, rest, ran) = >>=-returned (run_plugin p name s c) _ h in
      let cq = run_plugin-IsConsistent p name s c q ran in
      let ih = run_onto_passed (merge done q) ps name s c r (merge-IsConsistent done q) rest in
      let both = merge_passed done q cd cq in
      (
        ih.0,
        (
          λ x.
              let (merged, others) = ih.1.0 x in
              (ground (arith, both), ((q, ran, ground (arith, both)), others)),
          λ y.
              let (q', ran', passed') = y.1.0 in
              ih.1.1 (ground (arith, both, y.0, ran, ran', passed'), y.1.1),
        ),
      )

  -- If a chain of plugins gives a report at all, the report's flag says whether a finding blocks, and
  -- it passes exactly if every plugin of the chain answers with a report that passes.
  pub run_plugins_passed :
      (ps : List (Plugin Subject Context)) (name : String) (s : Subject) (c : Context)
      (r : CheckReport)
      → run_plugins ps name s c ≡ ok r
      → IsConsistent r × ((r.passed ≡ true) ↔ All (Passes name s c) ps)
  unfolding run_plugins
  run_plugins_passed ps name s c r h =
      let (consistent, iff) =
        run_onto_passed (ok_report none) ps name s c r (ok_report-IsConsistent none) h in
      (consistent, ((λ x. (iff.0 x).1), λ y. iff.1 (unfold ok_report in refl, y)))

  -- A plugin that raises does not pass, whatever its exception.
  raising_fails :
      (p : Plugin Subject Context) (name : String) (s : Subject) (c : Context)
      (f : Subject → Context → Answer) (x : Raised)
      → p.method name ≡ some f
      → f s c ≡ raised x
      → ¬ Passes name s c p
  unfolding run_plugin
  raising_fails p name s c f x has raises (r, ran, passed) =
      ground (arith, answer_raised p.id x r, has, raises)

  Passes-append :
      (name : String) (s : Subject) (c : Context) (p : Plugin Subject Context)
      (before after : List (Plugin Subject Context))
      → All (Passes name s c) (before ++ p ∷ after)
      → Passes name s c p
  Passes-append name s c p [] after h = h.0
  Passes-append name s c p (q ∷ before) after h = Passes-append name s c p before after h.1

  -- A chain with a plugin that raises, anywhere in it and whatever the exception, gives no report
  -- that passes.
  pub run_plugins_raising :
      (before after : List (Plugin Subject Context)) (p : Plugin Subject Context) (name : String)
      (s : Subject) (c : Context) (f : Subject → Context → Answer) (x : Raised) (r : CheckReport)
      → p.method name ≡ some f
      → f s c ≡ raised x
      → run_plugins (before ++ p ∷ after) name s c ≡ ok r
      → r.passed ≡ false
  run_plugins_raising before after p name s c f x r has raises h = elim (Bool-cases r.passed) [
    | inl passed ↦ absurd (
        raising_fails p name s c f x has raises (
          Passes-append name s c p before after
            ((run_plugins_passed (before ++ p ∷ after) name s c r h).1.0 passed)))
    | inr failed ↦ failed
  ]
