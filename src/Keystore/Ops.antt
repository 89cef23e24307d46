-- ===== src/Keystore/Ops.antt =====
-- crates/filesec-core/src/keystore.rs: the operations of a keystore file. One that changes the file returns
-- its result beside the file that is left, also on an error.
use file_sec.Prelude.{
  ℤ, List, [], map, ℕ, Bool, true, false, not, ◌||◌, Option, none, some, length, is_empty,
  if◌then◌else◌, ltb, text, text_eq,
}
use file_sec.Errors.{Result, ok, err, ◌>>=◌, ◌>>◌, fail_if, format, legacy_state, state_mismatch}
use file_sec.State.{Bytes, StateMetadata}
use file_sec.Contacts.{fingerprint}
use file_sec.Keystore.{
  Kit, Identity, KeystoreV2, PasskeySlot, PasskeyEnrollment, public, encrypt_bundle, decrypt_bundle,
}
use file_sec.Keystore.Slots.{
  Draws, unlock_v1, create_with_dek, unlock_dek_with_passphrase, unlock_v2, passkey_v2,
  add_passkey_v2, set_device_slot, device_v2,
}
use file_sec.Keystore.File.{KeystoreV3, KeystoreFile, v1, v2, v3, without_slot, build, advance}

abbrev pub Changed : Type 0
Changed = Result (Unit {0}) × KeystoreFile

-- The result of `advance` on a file whose body was changed already.
abbrev pub advanced : Result KeystoreV3 → KeystoreV3 → Changed
advanced (err failure) changed = (err failure, v3 changed)
advanced (ok next) changed = (ok tt, v3 next)

-- A change of the body that fails leaves the file.
abbrev pub then_advance :
    Result KeystoreV2 → KeystoreV3 → (KeystoreV3 → Result KeystoreV3) → Changed
then_advance (err failure) ks advance = (err failure, v3 ks)
then_advance (ok body) ks advance =
    advanced (advance (record ks { body = body })) (record ks { body = body })

abbrev pub placed_v2 : Result KeystoreV2 → KeystoreV2 → Changed
placed_v2 (err failure) before = (err failure, v2 before)
placed_v2 (ok changed) before = (ok tt, v2 changed)

pub record PasskeyInfo : Type 0 where
  pub credential_id : Bytes
  pub rp_id : Bytes
  pub hmac_salt : Bytes
  pub label : Bytes
  pub added_at : ℤ  -- i64

abbrev pub info_of : PasskeySlot → PasskeyInfo
info_of s = record {
  credential_id = s.credential_id;
  rp_id = s.rp_id;
  hmac_salt = s.hmac_salt;
  label = s.label;
  added_at = s.added_at;
}

unfoldable pub passkey_slots : KeystoreFile → List PasskeyInfo
passkey_slots (v1 old) = []
passkey_slots (v2 body) = map info_of body.passkeys
passkey_slots (v3 ks) = map info_of ks.body.passkeys

module _ (k : Kit) where
  unfoldable pub unlock : KeystoreFile → Bytes → Result Identity
  unlock (v1 old) passphrase = unlock_v1 k old passphrase
  unlock (v2 body) passphrase = unlock_v2 k body passphrase
  unlock (v3 ks) passphrase = unlock_v2 k ks.body passphrase

  unfoldable pub has_passkeys : KeystoreFile → Bool
  has_passkeys (v1 old) = false
  has_passkeys (v2 body) = not (is_empty body.passkeys)
  has_passkeys (v3 ks) = not (is_empty ks.body.passkeys)

  unfoldable pub unlock_with_passkey : KeystoreFile → ℕ → Bytes → Result Identity
  unlock_with_passkey (v1 old) index hmac_output = err (format "no passkeys are enrolled")
  unlock_with_passkey (v2 body) index hmac_output = passkey_v2 k body index hmac_output
  unlock_with_passkey (v3 ks) index hmac_output = passkey_v2 k ks.body index hmac_output

  unfoldable pub has_device_token : KeystoreFile → Bool
  has_device_token (v1 old) = false
  has_device_token (v2 body) = false
  has_device_token (v3 ks) = elim ks.body.device [ none ↦ false | some slot ↦ true ]

  unfoldable pub unlock_with_device_token : KeystoreFile → Bytes → Result Identity
  unlock_with_device_token (v1 old) token = err (format "no device-unlock slot is enrolled")
  unlock_with_device_token (v2 body) token = err (format "no device-unlock slot is enrolled")
  unlock_with_device_token (v3 ks) token = device_v2 k ks.body token

  -- A version 1 file is promoted first, and stays promoted.
  unfoldable pub add_passkey :
      KeystoreFile → Bytes → PasskeyEnrollment → Draws → Result Bytes → Changed
  add_passkey (v1 old) passphrase e draws drawn = elim (unlock_v1 k old passphrase) [
    | err failure ↦ (err failure, v1 old)
    | ok identity ↦ elim (create_with_dek k identity passphrase old.kdf draws) [
      | err failure ↦ (err failure, v1 old)
      | ok (body, dek) ↦ placed_v2 (add_passkey_v2 k body dek e drawn) body
    ]
  ]
  add_passkey (v2 body) passphrase e draws drawn =
      elim (unlock_v2 k body passphrase
        >>= (λ signer. unlock_dek_with_passphrase k body passphrase)) [
          | err failure ↦ (err failure, v2 body)
          | ok dek ↦ placed_v2 (add_passkey_v2 k body dek e drawn) body
        ]
  add_passkey (v3 ks) passphrase e draws drawn =
      elim (unlock_dek_with_passphrase k ks.body passphrase) [
        | err failure ↦ (err failure, v3 ks)
        | ok dek ↦ elim (unlock_v2 k ks.body passphrase) [
          | err failure ↦ (err failure, v3 ks)
          | ok signer ↦
              then_advance (add_passkey_v2 k ks.body dek e drawn) ks
                (λ changed. advance k changed signer)
        ]
      ]

  unfoldable pub remove_passkey : KeystoreFile → ℕ → Identity → Changed
  remove_passkey (v1 old) index identity = (err (format "no passkeys are enrolled"), v1 old)
  remove_passkey (v2 body) index identity =
      if ltb index (length body.passkeys)
      then (ok tt, v2 (record body { passkeys = without_slot index body.passkeys }))
      else (err (format "passkey slot index out of range"), v2 body)
  remove_passkey (v3 ks) index identity =
      if ltb index (length ks.body.passkeys)
      then then_advance (ok (record ks.body { passkeys = without_slot index ks.body.passkeys })) ks
          (λ changed. advance k changed identity)
      else (err (format "passkey slot index out of range"), v3 ks)

  unfoldable pub set_device_token : KeystoreFile → Bytes → Bytes → Result Bytes → Changed
  set_device_token (v1 old) passphrase token drawn = (err (legacy_state "keystore"), v1 old)
  set_device_token (v2 body) passphrase token drawn = (err (legacy_state "keystore"), v2 body)
  set_device_token (v3 ks) passphrase token drawn =
      elim (unlock_dek_with_passphrase k ks.body passphrase) [
        | err failure ↦ (err failure, v3 ks)
        | ok dek ↦ elim (decrypt_bundle k dek ks.body.bundle_nonce ks.body.bundle_ct) [
          | err failure ↦ (err failure, v3 ks)
          | ok signer ↦
              then_advance (set_device_slot k ks.body dek token drawn) ks
                (λ changed. advance k changed signer)
        ]
      ]

  unfoldable pub remove_device_token : KeystoreFile → Identity → Changed
  remove_device_token (v1 old) identity = (err (legacy_state "keystore"), v1 old)
  remove_device_token (v2 body) identity = (err (legacy_state "keystore"), v2 body)
  remove_device_token (v3 ks) identity = elim ks.body.device [
    | none ↦ (ok tt, v3 ks)
    | some slot ↦
        then_advance (ok (record ks.body { device = none })) ks
          (λ changed. advance k changed identity)
  ]

  unfoldable pub continue_identity :
      KeystoreFile → Bytes → Identity → Identity → Result Bytes → Result KeystoreFile
  continue_identity (v1 old) passphrase current successor drawn = err (legacy_state "keystore")
  continue_identity (v2 body) passphrase current successor drawn = err (legacy_state "keystore")
  continue_identity (v3 ks) passphrase current successor drawn = do
    dek ← unlock_dek_with_passphrase k ks.body passphrase
    stored ← decrypt_bundle k dek ks.body.bundle_nonce ks.body.bundle_ct
    let current_fpr = fingerprint k.hash (public k current)
    fail_if
        (not (text_eq (fingerprint k.hash (public k stored)) current_fpr)
          || not (text_eq ks.state.identity_fingerprint current_fpr))
        (state_mismatch (text "keystore does not hold the active identity"))
    fail_if
        (not (text_eq (public k successor).sign_public (public k stored).sign_public)
          || not (text_eq (public k successor).kem_public (public k stored).kem_public))
        (state_mismatch (text "successor identity changes the classical keys"))
    bundle ← encrypt_bundle k dek successor drawn
    built ←
        build k
          (record {
            version = 2;
            bundle_nonce = bundle.0;
            bundle_ct = bundle.1;
            passphrase = ks.body.passphrase;
            passkeys = ks.body.passkeys;
            device = ks.body.device;
          })
          successor none
    ok (v3 built)

  unfoldable pub state_metadata : KeystoreFile → Option StateMetadata
  state_metadata (v1 old) = none
  state_metadata (v2 body) = none
  state_metadata (v3 ks) = some ks.state
