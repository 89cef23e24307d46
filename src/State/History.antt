-- ===== src/State/History.antt =====
-- The states that are accepted one after another (state.rs): the anchor moves to each new state, and
-- stays where the candidate is the anchored state itself.
use file_sec.Prelude.{ℕ, ◌+◌, ◌<◌, ◌≤◌, ◌≡◌, refl, sym, ◌∙◌, true, false, arith}
use file_sec.Errors.{ok, err, rollback_detected}
use file_sec.State.{StateMetadata, StateAnchor, u64_max, label, from_metadata, check_candidate}
use file_sec.State.Anchoring.{IsBound, check_candidate-IsSuccessor, check_candidate-rollback}

-- The anchor `b` is reached from `a` by accepting candidates; `n` of them were new.
pub data History (a : StateAnchor) : StateAnchor → ℕ → Type 0 where
  start : History a a 0
  reopen :
      {b : StateAnchor} {n : ℕ} (s : StateMetadata)
      → History a b n
      → check_candidate b s ≡ ok false
      → History a b n
  advance :
      {b : StateAnchor} {n m : ℕ} (s : StateMetadata)
      → History a b n
      → s.epoch ≤ u64_max
      → check_candidate b s ≡ ok true
      → m ≡ n + 1
      → History a (from_metadata s) m

record SameObject (a b : StateAnchor) : Type 0 where
  fingerprint : a.identity_fingerprint ≡ b.identity_fingerprint
  object_type : a.object_type ≡ b.object_type
  object_id : a.object_id ≡ b.object_id

SameObject-from_metadata :
    (a b : StateAnchor) (s : StateMetadata)
    → SameObject a b
    → IsBound b s
    → SameObject a (from_metadata s)
unfolding from_metadata
SameObject-from_metadata a b s h k = record {
  fingerprint = h.fingerprint ∙ k.fingerprint;
  object_type = h.object_type ∙ k.object_type;
  object_id = h.object_id ∙ k.object_id;
}

epoch-from_metadata : (s : StateMetadata) → (from_metadata s).epoch ≡ s.epoch
unfolding from_metadata
epoch-from_metadata s = refl

History-SameObject : {a b : StateAnchor} {n : ℕ} → History a b n → SameObject a b
History-SameObject start = record { fingerprint = refl; object_type = refl; object_id = refl }
History-SameObject (reopen s h c) = History-SameObject h
History-SameObject {a} (advance {b = b} s h fits c m) =
    SameObject-from_metadata a b s (History-SameObject h)
      ((check_candidate-IsSuccessor b s fits).0 c).bound

-- The epoch of the anchor grows by one with each new state, and never falls.
pub History-epoch : {a b : StateAnchor} {n : ℕ} → History a b n → b.epoch ≡ a.epoch + n
History-epoch start = omega arith
History-epoch (reopen s h c) = History-epoch h
History-epoch (advance {b = b} s h fits c m) = omega (
  arith,
  epoch-from_metadata s,
  ((check_candidate-IsSuccessor b s fits).0 c).next_epoch,
  History-epoch h,
  m,
)

-- After any history that accepted at least one new state, the state that was anchored at its
-- beginning, and every state of the object that is older, is refused as a rollback.
pub History-refuses_older :
    (a b : StateAnchor) (n : ℕ) (s : StateMetadata)
    → History a b n
    → 0 < n
    → IsBound a s
    → s.epoch ≤ a.epoch
    → check_candidate b s ≡ err (rollback_detected (label s.object_type s.object_id))
History-refuses_older a b n s h pos bound old =
    let same = History-SameObject h in
    check_candidate-rollback b s
      (record {
        fingerprint = sym same.fingerprint ∙ bound.fingerprint;
        object_type = sym same.object_type ∙ bound.object_type;
        object_id = sym same.object_id ∙ bound.object_id;
      })
      (omega (arith, History-epoch h))
