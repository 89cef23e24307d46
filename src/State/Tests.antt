-- ===== src/State/Tests.antt =====
-- Witnesses for the state chain, with the identity for the hash function.
use file_sec.Prelude.{
  length, ◌≡◌, ◌≢◌, ◌⊎◌, refl, true, false, some, [], ◌∷◌, replicate, text_eq, arith,
}
use file_sec.Errors.{ok, err, rollback_detected}
use file_sec.State.{
  Bytes, contacts, StateMetadata, genesis_hash, label, from_metadata, check_candidate, hash_input,
  expected_hash, next, link, verify_payload,
}
use file_sec.State.Encoding.{
  IsSized, SameBinding, authenticated_data-injective, verify_payload-binding,
}
use file_sec.State.Anchoring.{IsBound, next-accepted}
use file_sec.State.History.{History, start, advance, History-refuses_older}

abbrev no_hash : Bytes → Bytes
no_hash bytes = []

abbrev first : StateMetadata
first = record {
  identity_fingerprint = replicate 32 7;
  object_type = contacts;
  object_id = 99 ∷ [];
  suite_id = 1;
  epoch = 1;
  previous_state_hash = genesis_hash;
  current_state_hash = [];
}

abbrev second : StateMetadata
second = record first { epoch = 2; previous_state_hash = [] }

first-IsSized : IsSized first
first-IsSized = omega arith

authenticated_data-injective_example : first ≡ first
authenticated_data-injective_example =
    authenticated_data-injective first first first-IsSized first-IsSized refl

-- A state that carries the hash of itself, under a hash that is the length of its input.
abbrev length_hash : Bytes → Bytes
length_hash bytes = length bytes ∷ []

abbrev hashed : StateMetadata
hashed = record first { current_state_hash = length (hash_input first (1 ∷ [])) ∷ [] }

abbrev later : StateMetadata
later = record hashed { epoch = 3 }

both_verify :
    (verify_payload length_hash hashed (1 ∷ []) ≡ ok tt)
    × (verify_payload length_hash later (2 ∷ []) ≡ ok tt)
unfolding verify_payload text_eq expected_hash hash_input file_sec.State.lp
    file_sec.Prelude.le_bytes file_sec.Prelude.text file_sec.State.tag
both_verify = (refl, refl)

abbrev one_byte : Bytes
one_byte = 1 ∷ []

abbrev other_byte : Bytes
other_byte = 2 ∷ []

-- The two differ in the epoch and the payload, so this hash has a collision.
verify_payload-binding_example :
    (SameBinding hashed later
      × (hashed.previous_state_hash ≡ later.previous_state_hash)
      × (one_byte ≡ other_byte))
    ⊎ ((x : Bytes) × (y : Bytes) × (x ≢ y) × (length_hash x ≡ length_hash y))
verify_payload-binding_example =
    verify_payload-binding length_hash hashed later one_byte other_byte (omega arith) (omega arith)
      (omega arith) (omega arith) refl both_verify.0 both_verify.1

second_is_next :
    next no_hash (replicate 32 7) contacts (99 ∷ []) 1 (some (from_metadata first)) (5 ∷ [])
    ≡ ok second
unfolding next link expected_hash from_metadata text_eq
second_is_next = refl

next-accepted_example :
    (verify_payload no_hash second (5 ∷ []) ≡ ok tt)
    × (check_candidate (from_metadata first) second ≡ ok true)
    × (check_candidate (from_metadata second) second ≡ ok false)
next-accepted_example =
    next-accepted no_hash (replicate 32 7) contacts (99 ∷ []) 1 (from_metadata first) (5 ∷ [])
      second second_is_next

one_step : History (from_metadata first) (from_metadata second) 1
one_step = advance second start (omega arith) next-accepted_example.1 (omega arith)

first-IsBound : IsBound (from_metadata first) first
unfolding from_metadata
first-IsBound = record { fingerprint = refl; object_type = refl; object_id = refl }

History-refuses_older_example :
    check_candidate (from_metadata second) first
    ≡ err (rollback_detected (label contacts (99 ∷ [])))
unfolding from_metadata
History-refuses_older_example =
    History-refuses_older (from_metadata first) (from_metadata second) 1 first one_step
      (omega arith) first-IsBound (omega arith)
