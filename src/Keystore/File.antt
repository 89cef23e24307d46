-- ===== src/Keystore/File.antt =====
-- crates/filesec-core/src/keystore.rs: the signed keystore (version 3), and the file with every operation
-- on it.
use file_sec.Prelude.{
  ℕ, ◌+◌, Bool, not, ◌&&◌, ◌||◌, Option, none, some, List, [], ◌∷◌, ◌++◌, length, take, drop,
  if◌then◌else◌, ltb, ◌==◌, be_bytes, from_be_bytes, text, text_eq,
}
use file_sec.Errors.{Result, ok, err, ◌>>=◌, ◌>>◌, fail_if, format, legacy_state, state_mismatch}
use file_sec.State.{
  Bytes, keystore, StateMetadata, StateAnchor, type_eq, label, authenticated_data, from_metadata,
  next, verify_payload,
}
use file_sec.Kdf.{KdfParams, validate_for_open}
use file_sec.Codec.{Cbor, to_vec, from_slice}
use file_sec.Contacts.{PublicIdentity, fingerprint}
use file_sec.Keystore.{Kit, Identity, PasskeySlot, KeystoreV1, KeystoreV2, public}
use file_sec.Keystore.Slots.{Draws, unlock_v1, create_with_dek, unlock_v2}

pub record KeystoreV3 : Type 0 where
  pub version : ℕ  -- u16
  pub state : StateMetadata
  pub public_identity : PublicIdentity
  pub body : KeystoreV2
  pub signature : Bytes

-- `KeystoreFile` with its `Inner`.
pub data KeystoreFile : Type 0 where
  v1 : KeystoreV1 → KeystoreFile
  v2 : KeystoreV2 → KeystoreFile
  v3 : KeystoreV3 → KeystoreFile

abbrev pub object_id : Bytes
object_id = text "identity-keystore"

abbrev pub magic_v2 : Bytes
magic_v2 = text "FSK" ++ 0x1a ∷ []

-- Whether the bytes are framed: six bytes or more, that begin with the magic.
abbrev pub is_framed : Bytes → Bool
is_framed bytes = not (ltb (length bytes) 6) && text_eq (take 4 bytes) magic_v2

abbrev pub frame_version : Bytes → ℕ
frame_version bytes = from_be_bytes 0 (take 2 (drop 4 bytes))

-- `Vec::remove`
abbrev pub without_slot : ℕ → List PasskeySlot → List PasskeySlot
without_slot index slots = take index slots ++ drop (index + 1) slots

module _ (k : Kit) where
  -- Drawing and signing do not fail for want of a key; the body is written as CBOR first.
  unfoldable pub build : KeystoreV2 → Identity → Option StateAnchor → Result KeystoreV3
  build body identity previous = do
    payload ← to_vec k.v2_cbor body
    state ←
        next k.hash (fingerprint k.hash (public k identity)) keystore object_id 0 previous payload
    ok (record {
      version = 3;
      state = state;
      public_identity = public k identity;
      body = body;
      signature = k.ed25519_sign identity.sign_secret (authenticated_data state);
    })

  -- `sign::verify(..).map_err(..)`
  abbrev pub check_signature : KeystoreV3 → Result (Unit {0})
  check_signature ks = do
    fail_if (not (length ks.signature == 64)) (format "bad keystore state signature length")
    fail_if
        (not (
          k.ed25519_is_key ks.public_identity.sign_public
          && k.ed25519_verify ks.public_identity.sign_public (authenticated_data ks.state)
              ks.signature))
        (state_mismatch (label ks.state.object_type ks.state.object_id))

  unfoldable pub verify_v3 : KeystoreV3 → Result (Unit {0})
  verify_v3 ks = do
    fail_if
        (not (ks.version == 3)
          || not (type_eq ks.state.object_type keystore)
          || not (text_eq ks.state.object_id object_id)
          || not (ks.state.suite_id == 0)
          || not (text_eq ks.state.identity_fingerprint (fingerprint k.hash ks.public_identity)))
        (state_mismatch (text "keystore identity-keystore"))
    payload ← to_vec k.v2_cbor ks.body
    verify_payload k.hash ks.state payload
    check_signature ks

  -- On an error the state and the signature are as they were.
  unfoldable pub advance : KeystoreV3 → Identity → Result KeystoreV3
  advance ks identity = do
    fail_if (not (text_eq (fingerprint k.hash (public k identity)) ks.state.identity_fingerprint))
        (state_mismatch (label ks.state.object_type ks.state.object_id))
    payload ← to_vec k.v2_cbor ks.body
    state ←
        next k.hash (fingerprint k.hash (public k identity)) keystore object_id 0
          (some (from_metadata ks.state)) payload
    ok (record ks {
      state = state;
      signature = k.ed25519_sign identity.sign_secret (authenticated_data state);
    })

  unfoldable pub create : Identity → Bytes → KdfParams → Draws → Result KeystoreFile
  create identity passphrase params draws = do
    body ← create_with_dek k identity passphrase params draws
    built ← build body.0 identity none
    ok (v3 built)

  unfoldable pub parse_legacy : Bytes → Result KeystoreFile
  parse_legacy bytes =
      if is_framed bytes
      then fail_if (not (frame_version bytes == 2)) (format "unsupported legacy keystore version")
        >>= (λ framed. from_slice k.v2_cbor (drop 6 bytes) >>= (λ old.
            fail_if (not (old.version == 2)) (format "keystore version mismatch")
            >>= (λ right. validate_for_open old.passphrase.kdf >>= (λ valid. ok (v2 old)))))
      else from_slice k.v1_cbor bytes >>= (λ old.
        fail_if (not (old.version == 1)) (format "unsupported keystore version")
        >>= (λ right. validate_for_open old.kdf >>= (λ valid. ok (v1 old))))

  unfoldable pub recover_legacy : Bytes → Bytes → Draws → Result KeystoreFile
  unfolding parse_legacy build
  recover_legacy bytes passphrase draws = parse_legacy bytes >>= (λ legacy. elim legacy [
    | v1 old ↦ do
      identity ← unlock_v1 k old passphrase
      body ← create_with_dek k identity passphrase old.kdf draws
      built ← build body.0 identity none
      ok (v3 built)
    | v2 old ↦ do
      identity ← unlock_v2 k old passphrase
      built ← build old identity none
      ok (v3 built)
    | v3 ks ↦ err (format "keystore is already rollback protected")
  ])

module _ (k : Kit) (v3_cbor : Cbor KeystoreV3) where
  unfoldable pub to_bytes : KeystoreFile → Result Bytes
  to_bytes (v3 ks) = do
    verify_v3 k ks
    body ← to_vec v3_cbor ks
    ok (magic_v2 ++ (be_bytes 2 3 ++ body))
  to_bytes (v1 old) = err (legacy_state "keystore")
  to_bytes (v2 old) = err (legacy_state "keystore")

  unfoldable pub from_bytes : Bytes → Result KeystoreFile
  unfolding parse_legacy verify_v3
  from_bytes bytes =
      if not (is_framed bytes) || frame_version bytes == 2
      then parse_legacy k bytes >>= (λ old. err (legacy_state "keystore"))
      else if not (frame_version bytes == 3)
      then err (format "unsupported keystore version")
      else from_slice v3_cbor (drop 6 bytes) >>= (λ ks.
        validate_for_open ks.body.passphrase.kdf
        >>= (λ valid. verify_v3 k ks >>= (λ done. ok (v3 ks))))
