-- ===== src/Keystore/Backup/Restoring.antt =====
-- crates/filesec-core/src/keystore.rs: an identity that is exported is imported again.
use file_sec.Prelude.{
  starts_with, true, some, ◌≡◌, ◌≤◌, refl, false, not, ◌||◌, inl, inr, ◌++◌, length, take, drop,
  is_empty, ltb, be_bytes, from_be_bytes, text, text_eq, Text, arith,
}
use file_sec.Errors.{not_ok_lem, ok_injective, Result, ok, Result-cases}
use file_sec.State.{Bytes}
use file_sec.Suite.{xchacha20_poly1305}
use file_sec.Kdf.{KdfParams, validate_for_open}
use file_sec.Blobs.{max_chunk_size}
use file_sec.Codec.{Cbor, Travels, to_vec-Travels}
use file_sec.Aead.{aead_seal}
use file_sec.Aead.Laws.{IsAead, aead_open-aead_seal}
use file_sec.Keystore.{
  Kit, Identity, build_bundle, check_pqc_pairs, bundle_into_identity, derive_master_key,
}
use file_sec.Keystore.Backup.{
  IdentityBackupV1, magic_backup, armor_begin, armor_end, backup_version, dearmor, seal_backup,
  open_backup, export_identity_armored, import_identity_armored,
}
use file_sec.Armor.{
  or_format, decode_either, Base64, IsBase64, are_bytes, armor, trim, trim_start, trim_end,
}
use file_sec.Armor.Reading.{IsArmor, block-armor, laws_lem}
use file_sec.Contacts.{is_whitespace}

-- A key is derived only within the limits for opening.
derive-validates :
    (k : Kit) (passphrase salt key : Bytes) (params : KdfParams)
    → derive_master_key k passphrase salt params ≡ ok key
    → validate_for_open params ≡ ok tt
unfolding derive_master_key
derive-validates k passphrase salt key params h = elim (Result-cases (validate_for_open params)) [
  | inl (done, v) ↦ v
  | inr (e, v) ↦ absurd (not_ok_lem (rw (derive_master_key, v) at h))
]

abbrev frame : Bytes → Bytes
frame body = magic_backup ++ (be_bytes 2 1 ++ body)

frame_lem :
    (body : Bytes)
    → ((ltb (length (frame body)) 6 || not (text_eq (take 4 (frame body)) magic_backup)) ≡ false)
      × (backup_version (frame body) ≡ 1)
      × (drop 6 (frame body) ≡ body)
unfolding be_bytes from_be_bytes text text_eq
frame_lem body = (ground arith, refl, refl)

backup_ends : IsArmor armor_begin armor_end
unfolding text text_eq starts_with trim trim_start trim_end is_whitespace
backup_ends = record {
  dashed = (refl, refl);
  inline = (refl, refl);
  trimmed = (refl, refl);
  apart = refl;
}

-- A frame, through the armor.
dearmor-frame :
    (base64 : Base64) (laws : IsBase64 base64) (body : Bytes) (behind : Text)
    → are_bytes body ≡ true
    → (dearmor (armor armor_begin armor_end (base64.encode (frame body)) ++ behind)
        ≡ base64.encode (frame body))
      × (is_empty (base64.encode (frame body)) ≡ false)
      × (base64.decode (base64.encode (frame body)) ≡ some (frame body))
unfolding be_bytes text dearmor
dearmor-frame base64 laws body behind h =
    let all_bytes : are_bytes (frame body) ≡ true = h in
    let (ink, printed, decoded) = laws_lem base64 laws (frame body) all_bytes (omega arith) in
    let found =
      block-armor armor_begin armor_end backup_ends (base64.encode (frame body)) printed behind in
    (rw (dearmor, found, ink) refl, ink, decoded)

module _ (k : Kit) (aead : (key : Bytes) → IsAead k.ciphers xchacha20_poly1305 key) (i : Identity)
    (bundle : Travels k.bundle_cbor (build_bundle i)) (fits : length bundle.bytes ≤ max_chunk_size)
    (pairs : check_pqc_pairs k (build_bundle i) ≡ ok (i.mldsa, i.mlkem)) (passphrase : Bytes)
    (params : KdfParams) (salt_drawn nonce_drawn : Result Bytes) where
  open_backup-seal_backup :
      (backup : IdentityBackupV1)
      → seal_backup k i passphrase params salt_drawn nonce_drawn ≡ ok backup
      → open_backup k backup passphrase ≡ ok i
  unfolding seal_backup open_backup build_bundle bundle_into_identity
  open_backup-seal_backup backup h =
      let (written, read) = to_vec-Travels k.bundle_cbor (build_bundle i) bundle in
      let aad = text "FileSec identity backup v1" in
      elim (Result-cases salt_drawn) [
        | inr (e, d) ↦ absurd (not_ok_lem (rw (seal_backup, d) at h))
        | inl (salt, d) ↦ elim (Result-cases (derive_master_key k passphrase salt params)) [
          | inr (e, m) ↦ absurd (not_ok_lem (rw (seal_backup, d, m) at h))
          | inl (master, m) ↦ elim (Result-cases nonce_drawn) [
            | inr (e, n) ↦ absurd (not_ok_lem (rw (seal_backup, d, m, n) at h))
            | inl (nonce, n) ↦
                elim (Result-cases (aead_seal k.ciphers master nonce aad bundle.bytes)) [
                  | inr (e, s) ↦ absurd (not_ok_lem (rw (seal_backup, d, m, n, written, s) at h))
                  | inl (ct, s) ↦
                      let opened =
                        aead_open-aead_seal k.ciphers master nonce aad bundle.bytes ct (aead master)
                          fits s in
                      let valid = derive-validates k passphrase salt master params m in
                      rw
                        (
                          ← ok_injective (rw (seal_backup, d, m, n, written, s) at h),
                          open_backup,
                          valid,
                          m,
                          opened,
                          read,
                          bundle_into_identity,
                          pairs,
                        )
                        refl
                ]
          ]
        ]
      ]

  module _ (backup_cbor : Cbor IdentityBackupV1) (base64 : Base64) (laws : IsBase64 base64) where
    -- A backup that was exported is imported with its passphrase, to the identity it was made of, whatever text
    -- comes behind it, if the CBOR of the backup is bytes that are read again and the post-quantum keys fit
    -- their seeds.
    pub import_identity_armored-export_identity_armored :
        (s behind : Text)
        → ((backup : IdentityBackupV1)
            → seal_backup k i passphrase params salt_drawn nonce_drawn ≡ ok backup
            → (t : Travels backup_cbor backup) × (are_bytes t.bytes ≡ true))
        → export_identity_armored k backup_cbor base64 i passphrase params salt_drawn nonce_drawn
          ≡ ok s
        → import_identity_armored k backup_cbor base64 (s ++ behind) passphrase ≡ ok i
    unfolding export_identity_armored import_identity_armored
    import_identity_armored-export_identity_armored s behind travels h =
        elim (Result-cases (seal_backup k i passphrase params salt_drawn nonce_drawn)) [
          | inr (e, b) ↦ absurd (not_ok_lem (rw (export_identity_armored, b) at h))
          | inl (backup, b) ↦
              let (t, byte_wise) = travels backup b in
              let (written, read) = to_vec-Travels backup_cbor backup t in
              let (plain, ink, decoded) = dearmor-frame base64 laws t.bytes behind byte_wise in
              let (framed, version, body) = frame_lem t.bytes in
              let same : armor armor_begin armor_end (base64.encode (frame t.bytes)) ≡ s =
                ok_injective (rw (export_identity_armored, b, written) at h) in
              rw
                (
                  ← same,
                  import_identity_armored,
                  plain,
                  ink,
                  or_format,
                  decode_either,
                  decoded,
                  framed,
                  version,
                  body,
                  read,
                  open_backup-seal_backup backup b,
                )
                refl
        ]
