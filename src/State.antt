-- ===== src/State.antt =====
-- crates/filesec-core/src/state.rs: the hash-chained metadata of each local state object, and the
-- anchors that are kept outside of the object. Strings are held as their UTF-8 bytes. BLAKE3 is
-- another crate, and so a parameter, from the bytes that are fed to it to the digest.
pub mod Encoding
pub mod Anchoring
pub mod History
mod Tests
use file_sec.Prelude.{
  ℕ, ◌+◌, String, Bool, true, false, not, ◌&&◌, ◌||◌, Option, none, some, List, [], ◌∷◌, ◌++◌, min,
  length, replicate, ltb, ◌==◌, if◌then◌else◌, Text, text, text_eq, le_bytes,
}
use file_sec.Errors.{
  Error, Result, ok, err, ◌>>=◌, ◌>>◌, fail_if, format, state_mismatch, rollback_detected,
}

abbrev pub u64_max : ℕ
u64_max = 18446744073709551615

abbrev pub Bytes : Type 0
Bytes = List ℕ

pub data StateObjectType : Type 0 where
  keystore contacts registry vault_manifest : StateObjectType

abbrev pub type_eq : StateObjectType → StateObjectType → Bool
type_eq keystore keystore = true
type_eq contacts contacts = true
type_eq registry registry = true
type_eq vault_manifest vault_manifest = true
type_eq _ _ = false

unfoldable pub tag : StateObjectType → Bytes
tag keystore = text "keystore"
tag contacts = text "contacts"
tag registry = text "registry"
tag vault_manifest = text "vault-manifest"

unfoldable pub display : StateObjectType → Bytes
display keystore = text "keystore"
display contacts = text "contacts"
display registry = text "registry"
display vault_manifest = text "vault manifest"

pub record StateMetadata : Type 0 where
  pub identity_fingerprint : Bytes  -- 32 bytes
  pub object_type : StateObjectType
  pub object_id : Bytes
  pub suite_id : ℕ  -- u16
  pub epoch : ℕ  -- u64
  pub previous_state_hash : Bytes  -- 32 bytes
  pub current_state_hash : Bytes  -- 32 bytes

pub record StateAnchor : Type 0 where
  pub identity_fingerprint : Bytes  -- 32 bytes
  pub object_type : StateObjectType
  pub object_id : Bytes
  pub suite_id : ℕ  -- u16
  pub epoch : ℕ  -- u64
  pub current_state_hash : Bytes  -- 32 bytes

abbrev pub genesis_hash : Bytes
genesis_hash = replicate 32 0

-- A length-prefixed field: what `append_lp` appends, and what `update_lp` feeds to the hasher.
unfoldable pub lp : Bytes → Bytes
lp field = le_bytes 8 (length field) ++ field

unfoldable pub label : StateObjectType → Bytes → Bytes
label object_type object_id = display object_type ++ text " " ++ object_id

unfoldable pub authenticated_data : StateMetadata → Bytes
authenticated_data s =
    lp (text "FileSec local state authenticated data v1")
    ++ (lp s.identity_fingerprint
        ++ (lp (tag s.object_type)
            ++ (lp s.object_id
                ++ (lp (le_bytes 2 s.suite_id)
                    ++ (lp (le_bytes 8 s.epoch)
                        ++ (lp s.previous_state_hash ++ lp s.current_state_hash))))))

-- The bytes that `expected_hash` feeds to its hasher.
unfoldable pub hash_input : StateMetadata → Bytes → Bytes
hash_input s payload =
    lp (text "FileSec local state hash v1")
    ++ (lp s.identity_fingerprint
        ++ (lp (tag s.object_type)
            ++ (lp s.object_id
                ++ (lp (le_bytes 2 s.suite_id)
                    ++ (lp (le_bytes 8 s.epoch) ++ (lp s.previous_state_hash ++ lp payload))))))

-- An anchor made from authenticated metadata.
unfoldable pub from_metadata : StateMetadata → StateAnchor
from_metadata s = record {
  identity_fingerprint = s.identity_fingerprint;
  object_type = s.object_type;
  object_id = s.object_id;
  suite_id = s.suite_id;
  epoch = s.epoch;
  current_state_hash = s.current_state_hash;
}

-- `checked_add(1)` on u64.
abbrev next_epoch : ℕ → Result ℕ
next_epoch epoch = if ltb epoch u64_max then ok (epoch + 1) else err (format "state epoch overflow")

-- The epoch and the previous hash of the successor of an anchor; `none` is the first state.
unfoldable pub link : Bytes → StateObjectType → Bytes → Option StateAnchor → Result (ℕ × Bytes)
link fingerprint object_type object_id none = ok (1, genesis_hash)
link fingerprint object_type object_id (some anchor) = do
  fail_if
      (not (text_eq anchor.identity_fingerprint fingerprint)
        || not (type_eq anchor.object_type object_type)
        || not (text_eq anchor.object_id object_id))
      (state_mismatch (label object_type object_id))
  epoch ← next_epoch anchor.epoch
  ok (epoch, anchor.current_state_hash)

-- Whether a state may follow an anchor: `ok false` is the anchored state itself, `ok true` is its
-- one successor.
unfoldable pub check_candidate : StateAnchor → StateMetadata → Result Bool
check_candidate anchor candidate =
    let name = label candidate.object_type candidate.object_id in
    do
      fail_if
          (not (text_eq anchor.identity_fingerprint candidate.identity_fingerprint)
            || not (type_eq anchor.object_type candidate.object_type)
            || not (text_eq anchor.object_id candidate.object_id))
          (state_mismatch name)
      fail_if (ltb candidate.epoch anchor.epoch) (rollback_detected name)
      if candidate.epoch == anchor.epoch
          then (if not (text_eq candidate.current_state_hash anchor.current_state_hash)
                || not (candidate.suite_id == anchor.suite_id)
              then err (state_mismatch name)
              else ok false)
          else (if not (candidate.epoch == min (anchor.epoch + 1) u64_max)
                || not (text_eq candidate.previous_state_hash anchor.current_state_hash)
              then err (state_mismatch name)
              else ok true)

module _ (blake3 : Bytes → Bytes) where
  unfoldable pub expected_hash : StateMetadata → Bytes → Bytes
  expected_hash s payload = blake3 (hash_input s payload)

  unfoldable pub next :
      Bytes → StateObjectType → Bytes → ℕ → Option StateAnchor → Bytes → Result StateMetadata
  next fingerprint object_type object_id suite_id previous payload = do
    (epoch, previous_hash) ← link fingerprint object_type object_id previous
    let state : StateMetadata = record {
      identity_fingerprint = fingerprint;
      object_type = object_type;
      object_id = object_id;
      suite_id = suite_id;
      epoch = epoch;
      previous_state_hash = previous_hash;
      current_state_hash = genesis_hash;
    }
    ok (record state { current_state_hash = expected_hash state payload })

  unfoldable pub verify_payload : StateMetadata → Bytes → Result (Unit {0})
  verify_payload s payload =
      if s.epoch == 0 || not (text_eq s.current_state_hash (expected_hash s payload))
      then err (state_mismatch (label s.object_type s.object_id))
      else ok tt
