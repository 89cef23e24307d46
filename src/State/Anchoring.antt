-- ===== src/State/Anchoring.antt =====
-- What an anchor lets pass (state.rs), against an independent description.
use file_sec.Prelude.{ℕ, ◌+◌, ◌<◌, ◌≤◌, ◌≡◌, refl, ◌↔◌, true, false, some, text_eq_iff, arith}
use file_sec.Errors.{ok, err, rollback_detected}
use file_sec.State.{
  Bytes, StateObjectType, type_eq, StateMetadata, StateAnchor, u64_max, label, link, from_metadata,
  check_candidate, next, hash_input, expected_hash, verify_payload,
}

-- The state belongs to the identity and the object of the anchor.
pub record IsBound (a : StateAnchor) (s : StateMetadata) : Type 0 where
  pub fingerprint : a.identity_fingerprint ≡ s.identity_fingerprint
  pub object_type : a.object_type ≡ s.object_type
  pub object_id : a.object_id ≡ s.object_id

-- The state is the one that is anchored.
pub record IsCurrent (a : StateAnchor) (s : StateMetadata) : Type 0 where
  pub bound : IsBound a s
  pub same_epoch : s.epoch ≡ a.epoch
  pub same_hash : s.current_state_hash ≡ a.current_state_hash
  pub same_suite : s.suite_id ≡ a.suite_id

-- The state is one epoch later, and links to the anchored one.
pub record IsSuccessor (a : StateAnchor) (s : StateMetadata) : Type 0 where
  pub bound : IsBound a s
  pub next_epoch : s.epoch ≡ a.epoch + 1
  pub linked : s.previous_state_hash ≡ a.current_state_hash

pub type_eq_iff : (a b : StateObjectType) → (type_eq a b ≡ true) ↔ (a ≡ b)
type_eq_iff a b = ground arith

module _ (a : StateAnchor) (s : StateMetadata) where
  -- A candidate is taken for the current state exactly when it is the anchored state.
  pub check_candidate-IsCurrent : (check_candidate a s ≡ ok false) ↔ IsCurrent a s
  unfolding check_candidate
  check_candidate-IsCurrent = (
    λ h. ground (
      arith,
      text_eq_iff a.identity_fingerprint s.identity_fingerprint,
      type_eq_iff a.object_type s.object_type,
      text_eq_iff a.object_id s.object_id,
      text_eq_iff s.current_state_hash a.current_state_hash,
      text_eq_iff s.previous_state_hash a.current_state_hash,
    ),
    λ c. ground (
      arith,
      text_eq_iff a.identity_fingerprint s.identity_fingerprint,
      type_eq_iff a.object_type s.object_type,
      text_eq_iff a.object_id s.object_id,
      text_eq_iff s.current_state_hash a.current_state_hash,
    ),
  )

  -- A candidate whose epoch is a u64 is taken for a new state exactly when it is the successor.
  pub check_candidate-IsSuccessor :
      s.epoch ≤ u64_max → (check_candidate a s ≡ ok true) ↔ IsSuccessor a s
  unfolding check_candidate
  check_candidate-IsSuccessor fits = (
    λ h. ground (
      arith,
      text_eq_iff a.identity_fingerprint s.identity_fingerprint,
      type_eq_iff a.object_type s.object_type,
      text_eq_iff a.object_id s.object_id,
      text_eq_iff s.current_state_hash a.current_state_hash,
      text_eq_iff s.previous_state_hash a.current_state_hash,
    ),
    λ c. ground (
      arith,
      text_eq_iff a.identity_fingerprint s.identity_fingerprint,
      type_eq_iff a.object_type s.object_type,
      text_eq_iff a.object_id s.object_id,
      text_eq_iff s.current_state_hash a.current_state_hash,
      text_eq_iff s.previous_state_hash a.current_state_hash,
    ),
  )

  -- An older state of the object is refused as a rollback.
  pub check_candidate-rollback :
      IsBound a s
      → s.epoch < a.epoch
      → check_candidate a s ≡ err (rollback_detected (label s.object_type s.object_id))
  unfolding check_candidate
  check_candidate-rollback b h = ground (
    arith,
    text_eq_iff a.identity_fingerprint s.identity_fingerprint,
    type_eq_iff a.object_type s.object_type,
    text_eq_iff a.object_id s.object_id,
    text_eq_iff s.current_state_hash a.current_state_hash,
    text_eq_iff s.previous_state_hash a.current_state_hash,
  )

IsCurrent-from_metadata : (s : StateMetadata) → IsCurrent (from_metadata s) s
unfolding from_metadata
IsCurrent-from_metadata s = record {
  bound = record { fingerprint = refl; object_type = refl; object_id = refl };
  same_epoch = refl;
  same_hash = refl;
  same_suite = refl;
}

module _ (blake3 : Bytes → Bytes) where
  next-IsSuccessor :
      (fingerprint : Bytes) (object_type : StateObjectType) (object_id : Bytes) (suite_id : ℕ)
      (a : StateAnchor) (payload : Bytes) {s : StateMetadata}
      → next blake3 fingerprint object_type object_id suite_id (some a) payload ≡ ok s
      → IsSuccessor a s × (s.epoch ≤ u64_max)
  unfolding next link
  next-IsSuccessor fingerprint object_type object_id suite_id a payload h = ground (
    arith,
    text_eq_iff a.identity_fingerprint fingerprint,
    type_eq_iff a.object_type object_type,
    text_eq_iff a.object_id object_id,
  )

  next-expected_hash :
      (fingerprint : Bytes) (object_type : StateObjectType) (object_id : Bytes) (suite_id : ℕ)
      (a : StateAnchor) (payload : Bytes) (s : StateMetadata)
      → next blake3 fingerprint object_type object_id suite_id (some a) payload ≡ ok s
      → s.current_state_hash ≡ expected_hash blake3 s payload
  unfolding next link expected_hash hash_input
  next-expected_hash fingerprint object_type object_id suite_id a payload s h = ground arith

  verify_payload-expected_hash :
      (s : StateMetadata) (payload : Bytes)
      → 0 < s.epoch
      → s.current_state_hash ≡ expected_hash blake3 s payload
      → verify_payload blake3 s payload ≡ ok tt
  unfolding verify_payload
  verify_payload-expected_hash s payload h e =
      ground (arith, text_eq_iff s.current_state_hash (expected_hash blake3 s payload))

  -- The state that `next` makes from an anchor commits to its payload, is accepted by that anchor as
  -- a new state, and once it is anchored it is the current state.
  pub next-accepted :
      (fingerprint : Bytes) (object_type : StateObjectType) (object_id : Bytes) (suite_id : ℕ)
      (a : StateAnchor) (payload : Bytes) (s : StateMetadata)
      → next blake3 fingerprint object_type object_id suite_id (some a) payload ≡ ok s
      → (verify_payload blake3 s payload ≡ ok tt)
        × (check_candidate a s ≡ ok true)
        × (check_candidate (from_metadata s) s ≡ ok false)
  next-accepted fingerprint object_type object_id suite_id a payload s h =
      let (successor, fits) =
        next-IsSuccessor fingerprint object_type object_id suite_id a payload h in
      (
        verify_payload-expected_hash s payload (omega (arith, successor.next_epoch))
            (next-expected_hash fingerprint object_type object_id suite_id a payload s h),
        (check_candidate-IsSuccessor a s fits).1 successor,
        (check_candidate-IsCurrent (from_metadata s) s).1 (IsCurrent-from_metadata s),
      )
