-- ===== src/Keystore/Slots.antt =====
-- crates/filesec-core/src/keystore.rs: the keystore with keyslots (version 2), and the one in front of it
-- that seals the bundle under the passphrase (version 1).
use file_sec.Prelude.{ℕ, true, none, some, [], ◌∷◌, ◌++◌, get_elem?, text}
use file_sec.Errors.{Result, ok, err, ◌>>=◌, bad_passphrase, format}
use file_sec.State.{Bytes}
use file_sec.Kdf.{KdfParams}
use file_sec.Codec.{from_slice}
use file_sec.Aead.{aead_open}
use file_sec.Keystore.{
  Kit, Identity, PassphraseSlot, PasskeySlot, KeystoreV1, KeystoreV2, PasskeyEnrollment,
  metadata_fields, bundle_into_identity, derive_master_key, passphrase_wrap_aad, passkey_wrap_aad,
  device_wrap_aad, wrap_dek, unwrap_dek, encrypt_bundle, decrypt_bundle,
}

-- `map_err(|_| Error::BadPassphrase)`
abbrev pub or_bad_passphrase : {A : Type 0} → Result A → Result A
or_bad_passphrase (err failure) = err bad_passphrase
or_bad_passphrase (ok value) = ok value

-- What is drawn for a new keystore, in the order of the draws.
pub record Draws : Type 0 where
  pub dek : Result Bytes
  pub bundle_nonce : Result Bytes
  pub salt : Result Bytes
  pub wrap_nonce : Result Bytes

module _ (k : Kit) where
  unfoldable pub unlock_v1 : KeystoreV1 → Bytes → Result Identity
  unlock_v1 v1 passphrase = do
    master ← derive_master_key k passphrase v1.salt v1.kdf
    plaintext ←
        or_bad_passphrase
          (aead_open k.ciphers master v1.nonce (text "FileSec keystore v1") v1.ciphertext)
    bundle ← from_slice k.bundle_cbor plaintext
    bundle_into_identity k bundle

  unfoldable pub build_passphrase_slot :
      Bytes → Bytes → KdfParams → Result Bytes → Result Bytes → Result PassphraseSlot
  build_passphrase_slot dek passphrase params salt_drawn nonce_drawn = do
    salt ← salt_drawn
    kek ← derive_master_key k passphrase salt params
    wrapped ← wrap_dek k kek dek (passphrase_wrap_aad k salt params) nonce_drawn
    ok (record { kdf = params; salt = salt; nonce = wrapped.0; wrapped_dek = wrapped.1 })

  unfoldable pub create_with_dek :
      Identity → Bytes → KdfParams → Draws → Result (KeystoreV2 × Bytes)
  unfolding build_passphrase_slot
  create_with_dek identity passphrase params draws = do
    dek ← draws.dek
    bundle ← encrypt_bundle k dek identity draws.bundle_nonce
    slot ← build_passphrase_slot dek passphrase params draws.salt draws.wrap_nonce
    ok (
      record {
        version = 2;
        bundle_nonce = bundle.0;
        bundle_ct = bundle.1;
        passphrase = slot;
        passkeys = [];
        device = none;
      },
      dek,
    )

  unfoldable pub unlock_dek_with_passphrase : KeystoreV2 → Bytes → Result Bytes
  unlock_dek_with_passphrase v2 passphrase = do
    kek ← derive_master_key k passphrase v2.passphrase.salt v2.passphrase.kdf
    or_bad_passphrase (
        unwrap_dek k kek v2.passphrase.nonce v2.passphrase.wrapped_dek
          (passphrase_wrap_aad k v2.passphrase.salt v2.passphrase.kdf))

  unfoldable pub unlock_v2 : KeystoreV2 → Bytes → Result Identity
  unfolding unlock_dek_with_passphrase
  unlock_v2 v2 passphrase = do
    dek ← unlock_dek_with_passphrase v2 passphrase
    decrypt_bundle k dek v2.bundle_nonce v2.bundle_ct

  abbrev pub slot_aad : PasskeySlot → Bytes
  slot_aad slot =
      passkey_wrap_aad k slot.credential_id slot.rp_id slot.hmac_salt
        (metadata_fields slot.metadata_bound slot.label slot.added_at)

  -- The data key, by the secret of a passkey.
  unfoldable pub unlock_slot : PasskeySlot → Bytes → Result Bytes
  unlock_slot slot hmac_output =
      unwrap_dek k (k.derive_key (text "FileSec passkey keyslot v1") hmac_output) slot.nonce
        slot.wrapped_dek (slot_aad slot)

  unfoldable pub passkey_v2 : KeystoreV2 → ℕ → Bytes → Result Identity
  unfolding unlock_slot
  passkey_v2 v2 index hmac_output = elim (get_elem? v2.passkeys index) [
    | none ↦ err (format "passkey slot index out of range")
    | some slot ↦
        unlock_slot slot hmac_output >>= (λ dek. decrypt_bundle k dek v2.bundle_nonce v2.bundle_ct)
  ]

  abbrev pub slot_of : PasskeyEnrollment → Bytes → Bytes → PasskeySlot
  slot_of e nonce wrapped_dek = record {
    credential_id = e.credential_id;
    rp_id = e.rp_id;
    hmac_salt = e.hmac_salt;
    label = e.label;
    added_at = e.added_at;
    metadata_bound = true;
    nonce = nonce;
    wrapped_dek = wrapped_dek;
  }

  -- On an error the keystore is as it was.
  unfoldable pub add_passkey_v2 :
      KeystoreV2 → Bytes → PasskeyEnrollment → Result Bytes → Result KeystoreV2
  add_passkey_v2 v2 dek e drawn = do
    wrapped ←
        wrap_dek k (k.derive_key (text "FileSec passkey keyslot v1") e.hmac_output) dek
          (passkey_wrap_aad k e.credential_id e.rp_id e.hmac_salt
            (metadata_fields true e.label e.added_at))
          drawn
    ok (record v2 { passkeys = v2.passkeys ++ slot_of e wrapped.0 wrapped.1 ∷ [] })

  unfoldable pub set_device_slot : KeystoreV2 → Bytes → Bytes → Result Bytes → Result KeystoreV2
  set_device_slot v2 dek token drawn = do
    wrapped ←
        wrap_dek k (k.derive_key (text "FileSec device unlock keyslot v1") token) dek
          (device_wrap_aad k) drawn
    ok (record v2 { device = some (record { nonce = wrapped.0; wrapped_dek = wrapped.1 }) })

  unfoldable pub device_v2 : KeystoreV2 → Bytes → Result Identity
  device_v2 v2 token = elim v2.device [
    | none ↦ err (format "no device-unlock slot is enrolled")
    | some slot ↦
        unwrap_dek k (k.derive_key (text "FileSec device unlock keyslot v1") token) slot.nonce
          slot.wrapped_dek (device_wrap_aad k)
        >>= (λ dek. decrypt_bundle k dek v2.bundle_nonce v2.bundle_ct)
  ]
