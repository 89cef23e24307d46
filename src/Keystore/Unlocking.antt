-- ===== src/Keystore/Unlocking.antt =====
-- crates/filesec-core/src/keystore.rs: what is wrapped and sealed is unlocked again.
use file_sec.Prelude.{Option, none, subst, ◌≡◌, ◌≤◌, refl, length, ==_iff, inl, inr, text, arith}
use file_sec.Errors.{not_ok_lem, ok_injective, Result, ok, Result-cases}
use file_sec.State.{Bytes, StateAnchor}
use file_sec.Keystore.File.{KeystoreFile, KeystoreV3, build, create}
use file_sec.Keystore.Ops.{unlock}
use file_sec.Suite.{xchacha20_poly1305}
use file_sec.Kdf.{KdfParams}
use file_sec.Blobs.{max_chunk_size}
use file_sec.Codec.{Travels, to_vec-Travels}
use file_sec.Aead.{aead_seal}
use file_sec.Aead.Laws.{IsAead, aead_open-aead_seal}
use file_sec.Keystore.{
  Kit, Identity, KeystoreV2, PassphraseSlot, sym_key_len, build_bundle, check_pqc_pairs,
  bundle_into_identity, derive_master_key, passphrase_wrap_aad, wrap_dek, unwrap_dek,
  encrypt_bundle, decrypt_bundle,
}
use file_sec.Keystore.Slots.{
  Draws, build_passphrase_slot, create_with_dek, unlock_dek_with_passphrase, unlock_v2,
}

build_body :
    (k : Kit) (body : KeystoreV2) (i : Identity) (previous : Option StateAnchor)
    (built : KeystoreV3)
    → build k body i previous ≡ ok built
    → built.body ≡ body
unfolding build
build_body k body i previous built h = ground arith

module _ (k : Kit) (aead : (key : Bytes) → IsAead k.ciphers xchacha20_poly1305 key) where
  pub unwrap_dek-wrap_dek :
      (kek dek aad : Bytes) (drawn : Result Bytes) (w : Bytes × Bytes)
      → length dek ≡ sym_key_len
      → wrap_dek k kek dek aad drawn ≡ ok w
      → unwrap_dek k kek w.0 w.1 aad ≡ ok dek
  unfolding wrap_dek unwrap_dek
  unwrap_dek-wrap_dek kek dek aad drawn w size h = elim (Result-cases drawn) [
    | inr (e, d) ↦ absurd (not_ok_lem (rw (wrap_dek, d) at h))
    | inl (nonce, d) ↦ elim (Result-cases (aead_seal k.ciphers kek nonce aad dek)) [
      | inr (e, s) ↦ absurd (not_ok_lem (rw (wrap_dek, d, s) at h))
      | inl (ct, s) ↦
          let same : (nonce, ct) ≡ w = ok_injective (rw (wrap_dek, d, s) at h) in
          let opened =
            aead_open-aead_seal k.ciphers kek nonce aad dek ct (aead kek) (omega arith) s in
          rw (← same, unwrap_dek, opened, (==_iff (length dek) sym_key_len).1 size) refl
    ]
  ]

  -- The slot of a passphrase gives the data key back.
  record IsSlot (dek passphrase : Bytes) (slot : PassphraseSlot) : Type 0 where
    kek : Bytes
    kek_again : derive_master_key k passphrase slot.salt slot.kdf ≡ ok kek
    unwrapped :
        unwrap_dek k kek slot.nonce slot.wrapped_dek (passphrase_wrap_aad k slot.salt slot.kdf)
        ≡ ok dek

  slot_lem :
      (dek passphrase : Bytes) (params : KdfParams) (salt_drawn nonce_drawn : Result Bytes)
      (slot : PassphraseSlot)
      → length dek ≡ sym_key_len
      → build_passphrase_slot k dek passphrase params salt_drawn nonce_drawn ≡ ok slot
      → IsSlot dek passphrase slot
  unfolding build_passphrase_slot
  slot_lem dek passphrase params salt_drawn nonce_drawn slot size h =
      elim (Result-cases salt_drawn) [
        | inr (e, d) ↦ absurd (not_ok_lem (rw (build_passphrase_slot, d) at h))
        | inl (salt, d) ↦ elim (Result-cases (derive_master_key k passphrase salt params)) [
          | inr (e, m) ↦ absurd (not_ok_lem (rw (build_passphrase_slot, d, m) at h))
          | inl (kek, m) ↦
              let aad = passphrase_wrap_aad k salt params in
              elim (Result-cases (wrap_dek k kek dek aad nonce_drawn)) [
                | inr (e, w) ↦ absurd (not_ok_lem (rw (build_passphrase_slot, d, m, w) at h))
                | inl (wrapped, w) ↦
                    subst (IsSlot dek passphrase)
                      (ok_injective (rw (build_passphrase_slot, d, m, w) at h))
                      (record {
                        kek = kek;
                        kek_again = m;
                        unwrapped = unwrap_dek-wrap_dek kek dek aad nonce_drawn wrapped size w;
                      })
              ]
        ]
      ]

  module _ (i : Identity) (bundle : Travels k.bundle_cbor (build_bundle i))
      (fits : length bundle.bytes ≤ max_chunk_size)
      (pairs : check_pqc_pairs k (build_bundle i) ≡ ok (i.mldsa, i.mlkem)) where
    decrypt_bundle-encrypt_bundle :
        (dek : Bytes) (drawn : Result Bytes) (b : Bytes × Bytes)
        → encrypt_bundle k dek i drawn ≡ ok b
        → decrypt_bundle k dek b.0 b.1 ≡ ok i
    unfolding encrypt_bundle decrypt_bundle bundle_into_identity build_bundle
    decrypt_bundle-encrypt_bundle dek drawn b h =
        let (written, read) = to_vec-Travels k.bundle_cbor (build_bundle i) bundle in
        let aad = text "FileSec keystore v2 bundle" in
        elim (Result-cases drawn) [
          | inr (e, d) ↦ absurd (not_ok_lem (rw (encrypt_bundle, written, d) at h))
          | inl (nonce, d) ↦ elim (Result-cases (aead_seal k.ciphers dek nonce aad bundle.bytes)) [
            | inr (e, s) ↦ absurd (not_ok_lem (rw (encrypt_bundle, written, d, s) at h))
            | inl (ct, s) ↦
                let same : (nonce, ct) ≡ b =
                  ok_injective (rw (encrypt_bundle, written, d, s) at h) in
                let opened =
                  aead_open-aead_seal k.ciphers dek nonce aad bundle.bytes ct (aead dek) fits s in
                rw (← same, decrypt_bundle, opened, read, bundle_into_identity, pairs) refl
          ]
        ]

    create_with_dek_lem :
        (passphrase : Bytes) (params : KdfParams) (draws : Draws) (made : KeystoreV2 × Bytes)
        → ((dek : Bytes) → draws.dek ≡ ok dek → length dek ≡ sym_key_len)
        → create_with_dek k i passphrase params draws ≡ ok made
        → unlock_v2 k made.0 passphrase ≡ ok i
    unfolding create_with_dek build_passphrase_slot unlock_v2 unlock_dek_with_passphrase
    create_with_dek_lem passphrase params draws made size h = elim (Result-cases draws.dek) [
      | inr (e, d) ↦ absurd (not_ok_lem (rw (create_with_dek, d) at h))
      | inl (dek, d) ↦ elim (Result-cases (encrypt_bundle k dek i draws.bundle_nonce)) [
        | inr (e, b) ↦ absurd (not_ok_lem (rw (create_with_dek, d, b) at h))
        | inl (sealed, b) ↦
            elim (Result-cases
              (build_passphrase_slot k dek passphrase params draws.salt draws.wrap_nonce)) [
                | inr (e, s) ↦ absurd (not_ok_lem (rw (create_with_dek, d, b, s) at h))
                | inl (slot, s) ↦
                    let same = ok_injective (rw (create_with_dek, d, b, s) at h) in
                    let dek_again =
                      slot_lem dek passphrase params draws.salt draws.wrap_nonce slot (size dek d)
                        s in
                    let opened = decrypt_bundle-encrypt_bundle dek draws.bundle_nonce sealed b in
                    rw
                      (
                        ← same,
                        unlock_v2,
                        unlock_dek_with_passphrase,
                        dek_again.kek_again,
                        dek_again.unwrapped,
                        opened,
                      )
                      refl
              ]
      ]
    ]

    -- A keystore that was created for an identity opens with its passphrase, to this identity, if its
    -- post-quantum keys fit their seeds.
    pub unlock-create :
        (passphrase : Bytes) (params : KdfParams) (draws : Draws) (file : KeystoreFile)
        → ((dek : Bytes) → draws.dek ≡ ok dek → length dek ≡ sym_key_len)
        → create k i passphrase params draws ≡ ok file
        → unlock k file passphrase ≡ ok i
    unfolding create build unlock
    unlock-create passphrase params draws file size h =
        elim (Result-cases (create_with_dek k i passphrase params draws)) [
          | inr (e, m) ↦ absurd (not_ok_lem (rw (create, m) at h))
          | inl (made, m) ↦ elim (Result-cases (build k made.0 i none)) [
            | inr (e, b) ↦ absurd (not_ok_lem (rw (create, m, b) at h))
            | inl (built, b) ↦
                let same = ok_injective (rw (create, m, b) at h) in
                rw (← same, unlock, build_body k made.0 i none built b)
                  (create_with_dek_lem passphrase params draws made size m)
          ]
        ]
