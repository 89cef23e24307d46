-- ===== src/Keystore/Tests.antt =====
-- Concrete runs of crates/filesec-core/src/keystore.rs, with hashes, keys and ciphers that compute.
use file_sec.Prelude.{
  be_bytes, ℕ, ◌+◌, ◌%◌, ◌≡◌, refl, pos, true, false, Option, none, some, [], ◌∷◌, ◌++◌, length,
  replicate, from_be_bytes, text, text_eq, text_eq_refl, arith,
}
use file_sec.Errors.{Result, ok, err}
use file_sec.State.{Bytes, check_candidate, from_metadata, keystore}
use file_sec.Suite.{xchacha20_poly1305}
use file_sec.Kdf.{default_params}
use file_sec.Aead.Toy.{toy_ciphers-IsAead}
use file_sec.Keystore.{Kit, Identity, KeystoreV2, PasskeyEnrollment, build_bundle, public}
use file_sec.Keystore.Toy.{signature_of, owner, kit, passphrase}
use file_sec.Keystore.Slots.{Draws}
use file_sec.Keystore.File.{
  KeystoreV3, KeystoreFile, v1, v2, v3, verify_v3, magic_v2, to_bytes, from_bytes, create,
}
use file_sec.Keystore.Ops.{unlock, unlock_with_passkey, add_passkey}
use file_sec.Codec.{Cbor}
use file_sec.Keystore.Framing.{from_bytes-to_bytes}
use file_sec.Keystore.Chain.{IsSigner, enrolled, IsChanged-accepted}
use file_sec.Keystore.Unlocking.{unlock-create}
use file_sec.Keystore.Enrolling.{KeepsUnlocks, unlock_with_passkey-add_passkey}

abbrev draws : Draws
draws = record {
  dek = ok (replicate 32 6);
  bundle_nonce = ok (replicate 24 1);
  salt = ok (replicate 16 2);
  wrap_nonce = ok (replicate 24 3);
}

abbrev blank : KeystoreV3
blank = record {
  version = 0;
  state = record {
    object_type = keystore;
    object_id = [];
    epoch = 0;
    previous_state_hash = [];
    suite_id = 0;
    identity_fingerprint = [];
    current_state_hash = [];
  };
  public_identity = record {
    name = [];
    created_at = pos 0;
    sign_public = [];
    kem_public = [];
    mldsa_public = none;
    mlkem_public = none;
  };
  body = record {
    version = 0;
    bundle_nonce = [];
    bundle_ct = [];
    passphrase = record { kdf = default_params; salt = []; nonce = []; wrapped_dek = [] };
    passkeys = [];
    device = none;
  };
  signature = [];
}

abbrev signed_of : KeystoreFile → KeystoreV3
signed_of (v1 old) = blank
signed_of (v2 body) = blank
signed_of (v3 ks) = ks

abbrev created : Result KeystoreFile → KeystoreV3
created (err failure) = blank
created (ok file) = signed_of file

abbrev ks : KeystoreV3
ks = created (create kit owner passphrase default_params draws)

abbrev enrollment : PasskeyEnrollment
enrollment = record {
  credential_id = 1 ∷ 2 ∷ [];
  rp_id = text "rp";
  hmac_salt = 3 ∷ [];
  label = text "key";
  added_at = pos 9;
  hmac_output = replicate 32 4;
}

abbrev ks2 : KeystoreV3
ks2 = signed_of (add_passkey kit (v3 ks) passphrase enrollment draws (ok (replicate 24 5))).1

unlock-create_example : unlock kit (v3 ks) passphrase ≡ ok owner
unfolding add_passkey create file_sec.Keystore.Slots.unlock_dek_with_passphrase
    file_sec.Keystore.derive_master_key file_sec.Kdf.validate_for_open
    file_sec.Keystore.Slots.create_with_dek file_sec.Keystore.encrypt_bundle file_sec.Codec.to_vec
    file_sec.Aead.aead_seal file_sec.Aead.seal_with file_sec.Suite.nonce_len
    file_sec.Keystore.wrap_dek file_sec.Keystore.File.build file_sec.State.next file_sec.State.link
    file_sec.Keystore.unwrap_dek file_sec.Aead.aead_open file_sec.Aead.open_with
    file_sec.Codec.from_slice file_sec.Contacts.fingerprint file_sec.Contacts.fingerprint_input
    file_sec.Kdf.validate file_sec.Keystore.File.advance file_sec.Keystore.Slots.add_passkey_v2
    file_sec.Keystore.Slots.build_passphrase_slot file_sec.Keystore.Slots.unlock_v2 build_bundle
    file_sec.Keystore.bundle_into_identity file_sec.Keystore.check_pqc_pairs
    file_sec.Keystore.decrypt_bundle file_sec.Keystore.passkey_wrap_aad
    file_sec.Keystore.passphrase_wrap_aad public file_sec.Prelude.le_bytes text text_eq
    file_sec.State.authenticated_data file_sec.State.display file_sec.State.expected_hash
    from_metadata file_sec.State.hash_input file_sec.State.label file_sec.State.lp
    file_sec.State.tag
unlock-create_example =
    unlock-create kit (toy_ciphers-IsAead xchacha20_poly1305) owner
      (record { bytes = text "Ada"; written = refl; read = refl }) (omega arith) refl passphrase
      default_params draws (v3 ks) (λ dek h. cc) refl

enrolls :
    add_passkey kit (v3 ks) passphrase enrollment draws (ok (replicate 24 5)) ≡ (ok tt, v3 ks2)
unfolding add_passkey create file_sec.Keystore.Slots.unlock_dek_with_passphrase
    file_sec.Keystore.derive_master_key file_sec.Kdf.validate_for_open
    file_sec.Keystore.Slots.create_with_dek file_sec.Keystore.encrypt_bundle file_sec.Codec.to_vec
    file_sec.Aead.aead_seal file_sec.Aead.seal_with file_sec.Suite.nonce_len
    file_sec.Keystore.wrap_dek file_sec.Keystore.File.build file_sec.State.next file_sec.State.link
    file_sec.Keystore.unwrap_dek file_sec.Aead.aead_open file_sec.Aead.open_with
    file_sec.Codec.from_slice file_sec.Contacts.fingerprint file_sec.Contacts.fingerprint_input
    file_sec.Kdf.validate file_sec.Keystore.File.advance file_sec.Keystore.Slots.add_passkey_v2
    file_sec.Keystore.Slots.build_passphrase_slot file_sec.Keystore.Slots.unlock_v2 build_bundle
    file_sec.Keystore.bundle_into_identity file_sec.Keystore.check_pqc_pairs
    file_sec.Keystore.decrypt_bundle file_sec.Keystore.passkey_wrap_aad
    file_sec.Keystore.passphrase_wrap_aad public file_sec.Prelude.le_bytes text text_eq
    file_sec.State.authenticated_data file_sec.State.display file_sec.State.expected_hash
    from_metadata file_sec.State.hash_input file_sec.State.label file_sec.State.lp
    file_sec.State.tag from_be_bytes
enrolls = refl

unlock_with_passkey-add_passkey_example :
    (unlock_with_passkey kit (v3 ks2) (length ks.body.passkeys) enrollment.hmac_output
      ≡ unlock kit (v3 ks) passphrase)
    × KeepsUnlocks kit ks ks2
unlock_with_passkey-add_passkey_example =
    unlock_with_passkey-add_passkey kit (toy_ciphers-IsAead xchacha20_poly1305) ks ks2 passphrase
      enrollment draws (ok (replicate 24 5)) enrolls

owner-IsSigner : IsSigner kit owner
unfolding text_eq public
owner-IsSigner = record {
  is_key = refl;
  verifies = (λ m. text_eq_refl (signature_of owner.sign_secret m));
  signature = (λ m. refl);
}

IsChanged-accepted_example :
    (verify_v3 kit ks2 ≡ ok tt) × (check_candidate (from_metadata ks.state) ks2.state ≡ ok true)
unfolding add_passkey create file_sec.Keystore.Slots.unlock_dek_with_passphrase
    file_sec.Keystore.derive_master_key file_sec.Kdf.validate_for_open
    file_sec.Keystore.Slots.create_with_dek file_sec.Keystore.encrypt_bundle file_sec.Codec.to_vec
    file_sec.Aead.aead_seal file_sec.Aead.seal_with file_sec.Suite.nonce_len
    file_sec.Keystore.wrap_dek file_sec.Keystore.File.build file_sec.State.next file_sec.State.link
    file_sec.Keystore.unwrap_dek file_sec.Aead.aead_open file_sec.Aead.open_with
    file_sec.Codec.from_slice file_sec.Contacts.fingerprint file_sec.Contacts.fingerprint_input
    file_sec.Kdf.validate file_sec.Keystore.File.advance file_sec.Keystore.Slots.add_passkey_v2
    file_sec.Keystore.Slots.build_passphrase_slot file_sec.Keystore.Slots.unlock_v2 build_bundle
    file_sec.Keystore.bundle_into_identity file_sec.Keystore.check_pqc_pairs
    file_sec.Keystore.decrypt_bundle file_sec.Keystore.passkey_wrap_aad
    file_sec.Keystore.passphrase_wrap_aad public file_sec.Prelude.le_bytes text text_eq
    file_sec.State.authenticated_data file_sec.State.display file_sec.State.expected_hash
    from_metadata file_sec.State.hash_input file_sec.State.label file_sec.State.lp
    file_sec.State.tag verify_v3 file_sec.State.verify_payload from_be_bytes
IsChanged-accepted_example =
    IsChanged-accepted kit owner ks ks2 refl refl owner-IsSigner
      (enrolled passphrase enrollment draws (ok (replicate 24 5)) refl enrolls)

-- CBOR that carries one keystore.
abbrev v3_cbor : Cbor KeystoreV3
v3_cbor = record {
  into_writer = (λ other. some (5 ∷ 6 ∷ []));
  from_reader = (λ bytes. some (ks, []));
}

from_bytes-to_bytes_example :
    (from_bytes kit v3_cbor (magic_v2 ++ (be_bytes 2 3 ++ 5 ∷ 6 ∷ [])) ≡ ok (v3 ks))
    × (verify_v3 kit ks ≡ ok tt)
unfolding add_passkey create file_sec.Keystore.Slots.unlock_dek_with_passphrase
    file_sec.Keystore.derive_master_key file_sec.Kdf.validate_for_open
    file_sec.Keystore.Slots.create_with_dek file_sec.Keystore.encrypt_bundle file_sec.Codec.to_vec
    file_sec.Aead.aead_seal file_sec.Aead.seal_with file_sec.Suite.nonce_len
    file_sec.Keystore.wrap_dek file_sec.Keystore.File.build file_sec.State.next file_sec.State.link
    file_sec.Keystore.unwrap_dek file_sec.Aead.aead_open file_sec.Aead.open_with
    file_sec.Codec.from_slice file_sec.Contacts.fingerprint file_sec.Contacts.fingerprint_input
    file_sec.Kdf.validate file_sec.Keystore.File.advance file_sec.Keystore.Slots.add_passkey_v2
    file_sec.Keystore.Slots.build_passphrase_slot file_sec.Keystore.Slots.unlock_v2 build_bundle
    file_sec.Keystore.bundle_into_identity file_sec.Keystore.check_pqc_pairs
    file_sec.Keystore.decrypt_bundle file_sec.Keystore.passkey_wrap_aad
    file_sec.Keystore.passphrase_wrap_aad public file_sec.Prelude.le_bytes text text_eq
    file_sec.State.authenticated_data file_sec.State.display file_sec.State.expected_hash
    from_metadata file_sec.State.hash_input file_sec.State.label file_sec.State.lp
    file_sec.State.tag verify_v3 file_sec.State.verify_payload from_be_bytes to_bytes be_bytes
from_bytes-to_bytes_example =
    from_bytes-to_bytes kit v3_cbor ks (magic_v2 ++ (be_bytes 2 3 ++ 5 ∷ 6 ∷ []))
      (record { bytes = 5 ∷ 6 ∷ []; written = refl; read = refl }) refl refl
