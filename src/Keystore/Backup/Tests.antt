-- ===== src/Keystore/Backup/Tests.antt =====
-- Concrete backups of crates/filesec-core/src/keystore.rs, in base64 as it is.
use file_sec.Prelude.{
  ◌≡◌, refl, none, some, [], ◌∷◌, ◌++◌, drop, length, replicate, text, text_eq, Text, arith, subst,
  true, take,
}
use file_sec.Errors.{ok, err, ok_injective, format}
use file_sec.State.{Bytes}
use file_sec.Suite.{xchacha20_poly1305}
use file_sec.Kdf.{default_params}
use file_sec.Codec.{Cbor, Travels}
use file_sec.Aead.Toy.{toy_ciphers-IsAead}
use file_sec.Keystore.Toy.{owner, kit, passphrase}
use file_sec.Armor.{newline, are_bytes}
use file_sec.Keystore.Backup.{
  IdentityBackupV1, seal_backup, armor_begin, armor_end, export_identity_armored,
  import_identity_armored,
}
use file_sec.Armor.Standard.{rfc4648, rfc4648-IsBase64}
use file_sec.Keystore.Backup.Restoring.{import_identity_armored-export_identity_armored}

abbrev salt : Bytes
salt = replicate 16 2

abbrev nonce : Bytes
nonce = replicate 24 1

abbrev backup : IdentityBackupV1
backup = record {
  version = 1;
  kdf = default_params;
  salt = salt;
  nonce = nonce;
  ciphertext = text "Ada" ++ replicate 16 50;
}

abbrev cbor : Cbor IdentityBackupV1
cbor = record {
  into_writer = (λ b. some (b.ciphertext ++ replicate 48 0));
  from_reader = (λ bytes. some (backup, []));
}

seals : seal_backup kit owner passphrase default_params (ok salt) (ok nonce) ≡ ok backup
unfolding seal_backup file_sec.Keystore.derive_master_key file_sec.Kdf.validate_for_open
    file_sec.Codec.to_vec file_sec.Aead.aead_seal file_sec.Aead.seal_with file_sec.Suite.nonce_len
    file_sec.Prelude.from_be_bytes
seals = refl

-- Two lines.
abbrev body : Text
body =
    text "RlNCGgABQWRhMjIyMjIyMjIyMjIyMjIyMgAAAAAAAAAAAAAAAAAAAAAAAAAAAAAA"
    ++ newline ∷ (text "AAAAAAAAAAAAAAAAAAAAAAAAAAAAAAAAAA==" ++ newline ∷ [])

abbrev armored : Text
armored = armor_begin ++ newline ∷ (body ++ (armor_end ++ newline ∷ []))

exports :
    export_identity_armored kit cbor rfc4648 owner passphrase default_params (ok salt) (ok nonce)
    ≡ ok armored
unfolding export_identity_armored file_sec.Keystore.derive_master_key file_sec.Kdf.validate_for_open
    file_sec.Codec.to_vec file_sec.Aead.aead_seal file_sec.Aead.seal_with file_sec.Suite.nonce_len
    text file_sec.Armor.Standard.encode file_sec.Prelude.be_bytes file_sec.Prelude.from_be_bytes
exports = refl

import_identity_armored-export_identity_armored_example :
    import_identity_armored kit cbor rfc4648 (armored ++ text "(end)") passphrase ≡ ok owner
unfolding text file_sec.Keystore.build_bundle file_sec.Keystore.check_pqc_pairs text_eq seal_backup
    file_sec.Keystore.derive_master_key file_sec.Kdf.validate_for_open file_sec.Codec.to_vec
    file_sec.Aead.aead_seal file_sec.Aead.seal_with file_sec.Suite.nonce_len
    file_sec.Prelude.from_be_bytes
import_identity_armored-export_identity_armored_example =
    import_identity_armored-export_identity_armored kit (toy_ciphers-IsAead xchacha20_poly1305)
      owner (record { bytes = text "Ada"; written = refl; read = refl }) (omega arith) refl
      passphrase default_params (ok salt) (ok nonce) cbor rfc4648 rfc4648-IsBase64 armored
      (text "(end)")
      (λ b h.
        subst (λ x. (t : Travels cbor x) × (are_bytes t.bytes ≡ true)) (ok_injective h)
          (
            record { bytes = backup.ciphertext ++ replicate 48 0; written = refl; read = refl },
            refl,
          ))
      exports

-- A text that lost the lines of the armor, and one with other bytes in front.
reads_bare : import_identity_armored kit cbor rfc4648 (b' ' ∷ body) passphrase ≡ ok owner
unfolding import_identity_armored text file_sec.Armor.Standard.decode file_sec.Prelude.from_be_bytes
    file_sec.Codec.from_slice file_sec.Kdf.validate_for_open file_sec.Keystore.derive_master_key
    file_sec.Aead.aead_open file_sec.Aead.open_with file_sec.Suite.nonce_len
    file_sec.Keystore.build_bundle
reads_bare = refl

refuses_other :
    import_identity_armored kit cbor rfc4648 (text "QUJDREVGR0g=") passphrase
    ≡ err (format "not a FileSec identity backup")
unfolding import_identity_armored text file_sec.Armor.Standard.decode
refuses_other = refl
