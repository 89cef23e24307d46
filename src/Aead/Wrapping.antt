-- ===== src/Aead/Wrapping.antt =====
-- crates/filesec-core/src/aead.rs: the errors of the reader that decrypts.
use file_sec.Prelude.{◌≡◌, ◌≢◌, refl, String}
use file_sec.Errors.{
  Error, io, rng, auth, bad_passphrase, format, unsupported_suite, bad_signature, not_a_recipient,
  bad_key, serialization, kdf, kdf_params, rollback_detected, state_mismatch, legacy_state,
  unsafe_path, extraction_conflict, vault, missing_pqc_key, peer_identity_mismatch,
  transfer_secret_mismatch, handshake_protocol,
}
use file_sec.Aead.Reader.{ReadError, passed, invalid_data, read_error}

-- An error of input is passed on as it is, and any other, but no error of input, is wrapped.
abbrev pub IsWrapped : Error → ReadError → Type 0
IsWrapped e (passed failure) = e ≡ io failure
IsWrapped e (invalid_data inner) = (e ≡ inner) × ((x : String) → e ≢ io x)

pub read_error-IsWrapped : (e : Error) → IsWrapped e (read_error e)
unfolding read_error
read_error-IsWrapped (io failure) = refl
read_error-IsWrapped rng = (refl, λ x h. cc)
read_error-IsWrapped auth = (refl, λ x h. cc)
read_error-IsWrapped bad_passphrase = (refl, λ x h. cc)
read_error-IsWrapped (format failure) = (refl, λ x h. cc)
read_error-IsWrapped (unsupported_suite failure) = (refl, λ x h. cc)
read_error-IsWrapped bad_signature = (refl, λ x h. cc)
read_error-IsWrapped not_a_recipient = (refl, λ x h. cc)
read_error-IsWrapped (bad_key failure) = (refl, λ x h. cc)
read_error-IsWrapped serialization = (refl, λ x h. cc)
read_error-IsWrapped kdf = (refl, λ x h. cc)
read_error-IsWrapped (kdf_params failure) = (refl, λ x h. cc)
read_error-IsWrapped (rollback_detected failure) = (refl, λ x h. cc)
read_error-IsWrapped (state_mismatch failure) = (refl, λ x h. cc)
read_error-IsWrapped (legacy_state failure) = (refl, λ x h. cc)
read_error-IsWrapped (unsafe_path failure) = (refl, λ x h. cc)
read_error-IsWrapped (extraction_conflict failure) = (refl, λ x h. cc)
read_error-IsWrapped (vault failure) = (refl, λ x h. cc)
read_error-IsWrapped (missing_pqc_key failure) = (refl, λ x h. cc)
read_error-IsWrapped peer_identity_mismatch = (refl, λ x h. cc)
read_error-IsWrapped transfer_secret_mismatch = (refl, λ x h. cc)
read_error-IsWrapped (handshake_protocol failure) = (refl, λ x h. cc)
