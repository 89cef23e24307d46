-- ===== src/Keystore/Backup.antt =====
-- crates/filesec-core/src/keystore.rs: the portable backup of an identity, a text that is encrypted under a
-- passphrase. The package for base64 is a parameter; what the random generator gives is an argument.
pub mod Restoring
mod Tests
use file_sec.Prelude.{
  ℕ, zero, suc, ◌+◌, ◌*◌, ◌/◌, ◌≡◌, Bool, true, false, not, ◌&&◌, ◌||◌, Option, none, some, List,
  [], ◌∷◌, ◌++◌, length, take, drop, is_empty, all, if◌then◌else◌, ltb, leb, ◌==◌, be_bytes,
  from_be_bytes, text, text_eq, Text, starts_with,
}
use file_sec.Errors.{Result, ok, err, ◌>>=◌, ◌>>◌, fail_if, format}
use file_sec.State.{Bytes}
use file_sec.Kdf.{KdfParams, validate_for_open}
use file_sec.Codec.{Cbor, to_vec, from_slice}
use file_sec.Armor.{Base64, armor, lines, block, unarmored, or_format, decode_either}
use file_sec.Aead.{aead_seal, aead_open}
use file_sec.Keystore.{
  Kit, Identity, SecretBundle, build_bundle, bundle_into_identity, derive_master_key,
}
use file_sec.Keystore.Slots.{or_bad_passphrase}

pub record IdentityBackupV1 : Type 0 where
  pub version : ℕ  -- u16
  pub kdf : KdfParams
  pub salt : Bytes
  pub nonce : Bytes
  pub ciphertext : Bytes

abbrev pub magic_backup : Bytes
magic_backup = text "FSB" ++ 0x1a ∷ []

abbrev pub armor_begin : Text
armor_begin = text "-----BEGIN FILESEC IDENTITY BACKUP-----"

abbrev pub armor_end : Text
armor_end = text "-----END FILESEC IDENTITY BACKUP-----"

unfoldable pub dearmor : Text → Text
unfolding lines block unarmored
dearmor s =
    let body = block armor_begin armor_end false (lines s) in
    if is_empty body then unarmored (lines s) else body

abbrev pub backup_version : Bytes → ℕ
backup_version framed = from_be_bytes 0 (take 2 (drop 4 framed))

module _ (k : Kit) where
  -- The backup of an identity. The salt is drawn first, and the nonce when the key is derived.
  unfoldable pub seal_backup :
      Identity → Bytes → KdfParams → Result Bytes → Result Bytes → Result IdentityBackupV1
  unfolding build_bundle
  seal_backup identity passphrase params salt_drawn nonce_drawn = do
    salt ← salt_drawn
    master ← derive_master_key k passphrase salt params
    nonce ← nonce_drawn
    plaintext ← to_vec k.bundle_cbor (build_bundle identity)
    ciphertext ← aead_seal k.ciphers master nonce (text "FileSec identity backup v1") plaintext
    ok (record { version = 1; kdf = params; salt = salt; nonce = nonce; ciphertext = ciphertext })

  unfoldable pub open_backup : IdentityBackupV1 → Bytes → Result Identity
  unfolding bundle_into_identity
  open_backup backup passphrase = do
    fail_if (not (backup.version == 1)) (format "identity backup version mismatch")
    validate_for_open backup.kdf
    master ← derive_master_key k passphrase backup.salt backup.kdf
    plaintext ← or_bad_passphrase (
        aead_open k.ciphers master backup.nonce (text "FileSec identity backup v1")
          backup.ciphertext)
    bundle ← from_slice k.bundle_cbor plaintext
    bundle_into_identity k bundle

module _ (k : Kit) (backup_cbor : Cbor IdentityBackupV1) (base64 : Base64) where
  unfoldable pub export_identity_armored :
      Identity → Bytes → KdfParams → Result Bytes → Result Bytes → Result Text
  unfolding seal_backup armor
  export_identity_armored identity passphrase params salt_drawn nonce_drawn = do
    backup ← seal_backup k identity passphrase params salt_drawn nonce_drawn
    body ← to_vec backup_cbor backup
    ok (armor armor_begin armor_end (base64.encode (magic_backup ++ (be_bytes 2 1 ++ body))))

  unfoldable pub import_identity_armored : Text → Bytes → Result Identity
  unfolding dearmor open_backup
  import_identity_armored s passphrase = do
    fail_if (is_empty (dearmor s)) (format "no identity backup found")
    framed ← or_format "invalid base64 in identity backup" (decode_either base64 (dearmor s))
    fail_if (ltb (length framed) 6 || not (text_eq (take 4 framed) magic_backup))
        (format "not a FileSec identity backup")
    fail_if (not (backup_version framed == 1)) (format "unsupported identity backup version")
    backup ← from_slice backup_cbor (drop 6 framed)
    open_backup k backup passphrase
