-- ===== src/Runner/Resume/Trust.antt =====
-- What is known of a checkpoint document that `Runner.run` of src/pe_sim/runtime.py resumes from.
use power_electronics_ai_sim.Base.{
  ◌≤◌, ◌≡◌, refl, Bool, true, not, raise_if, String, Option, none, some, length, str_eq, Result, ok,
  err, arith, >>=-returned,
}
use power_electronics_ai_sim.Number.{Number}
use power_electronics_ai_sim.Runner.{Thrown, value_error}
use power_electronics_ai_sim.Runner.Resume.{
  Identity, Saved, Accepted, unsigned, same_ids, text_length, check_identity, check_hash,
  check_origin, check_saved, is_resumable,
}

module _ {num : Number} (digest : Saved num → String) (has_restore : Bool)
    (expected : Identity) where
  -- The document's hash is recorded, and is the hash of the document.
  abbrev pub HashHolds : Saved num → Option String → Type 0
  HashHolds d none = ⊥
  HashHolds d (some hash) = (text_length hash ≡ 64) × (str_eq (digest (unsigned num d)) hash ≡ true)

  -- The document is of this experiment, with these components, and unaltered.
  pub record IsTrusted (d : Saved num) : Type 0 where
    pub resumable : is_resumable d.source_status ≡ true
    pub ids : same_ids d.identity expected ≡ true
    pub plant : str_eq d.identity.plant_hash expected.plant_hash ≡ true
    pub controller : str_eq d.identity.controller_hash expected.controller_hash ≡ true
    pub specification : str_eq d.identity.experiment_spec_hash expected.experiment_spec_hash ≡ true
    pub protocol :
        str_eq d.identity.controller_state_protocol expected.controller_state_protocol ≡ true
    pub unaltered : HashHolds d d.checkpoint_hash

  check_identity_holds :
      (found : Identity)
      → check_identity num has_restore expected found ≡ ok tt
      → (str_eq found.plant_hash expected.plant_hash ≡ true)
        × (str_eq found.controller_hash expected.controller_hash ≡ true)
        × (str_eq found.experiment_spec_hash expected.experiment_spec_hash ≡ true)
        × (str_eq found.controller_state_protocol expected.controller_state_protocol ≡ true)
  unfolding check_identity
  check_identity_holds found h = (ground arith, ground arith, ground arith, ground arith)

  check_hash_holds :
      (d : Saved num) (o : Option String) → check_hash num digest d o ≡ ok tt → HashHolds d o
  unfolding check_hash
  check_hash_holds d none h = absurd (ground arith)
  check_hash_holds d (some hash) h = (ground arith, ground arith)

  origin_holds :
      (d : Saved num)
      → check_origin num digest has_restore expected d ≡ ok tt
      → (same_ids d.identity expected ≡ true)
        × (check_hash num digest d d.checkpoint_hash ≡ ok tt)
        × (check_identity num has_restore expected d.identity ≡ ok tt)
  unfolding check_origin
  origin_holds d h =
      let (u, h1, ids) =
        >>=-returned
          (raise_if (not (same_ids d.identity expected))
            (value_error "checkpoint identity does not match experiment"))
          _ h in
      let (v, h2, hash) = >>=-returned (check_hash num digest d d.checkpoint_hash) _ h1 in
      (ground (arith, ids), hash, h2)

  origin_checked :
      (d : Saved num) (a : Accepted num) (r : Result Thrown (Unit {0}))
      → check_origin num digest has_restore expected d ≡ r
      → check_saved num digest has_restore expected d ≡ ok a
      → r ≡ ok tt
  unfolding check_saved
  origin_checked d a (ok u) h k = refl
  origin_checked d a (err e) h k = absurd (ground arith)

  source_checked :
      (d : Saved num) (a : Accepted num)
      → check_saved num digest has_restore expected d ≡ ok a
      → is_resumable d.source_status ≡ true
  unfolding check_saved
  source_checked d a h = ground arith

  indices_checked :
      (d : Saved num) (a : Accepted num)
      → check_saved num digest has_restore expected d ≡ ok a
      → length a.samples ≤ a.next_step_index
  unfolding check_saved
  indices_checked d a h = ground arith

  -- A document that is accepted comes from a run that was interrupted or failed, or names no status,
  -- is of this experiment with its components and its specification, and has the hash that it
  -- records; what is used of it has no more samples than its next index.
  pub check_saved-IsTrusted :
      (d : Saved num) (a : Accepted num)
      → check_saved num digest has_restore expected d ≡ ok a
      → IsTrusted d × (length a.samples ≤ a.next_step_index)
  check_saved-IsTrusted d a h =
      let (ids, hash, identity) =
        origin_holds d
          (origin_checked d a (check_origin num digest has_restore expected d) refl h) in
      let (plant, controller, specification, protocol) = check_identity_holds d.identity identity in
      (
        record {
          resumable = source_checked d a h;
          ids = ids;
          plant = plant;
          controller = controller;
          specification = specification;
          protocol = protocol;
          unaltered = check_hash_holds d d.checkpoint_hash hash;
        },
        indices_checked d a h,
      )
