-- ===== src/Keystore/Enrolling.antt =====
-- crates/filesec-core/src/keystore.rs: enrolling a passkey leaves the other ways to unlock.
use file_sec.Prelude.{
  subst, zero, suc, ==_iff, ◌==◌, ℕ, ◌≡◌, ◌<◌, refl, sym, ap, ◌∙◌, true, some, List, [], ◌∷◌, ◌++◌,
  length, get_elem?, Bool-cases, inl, inr, text, arith,
}
use file_sec.Errors.{not_ok_lem, ok_injective, Result, ok, Result-cases}
use file_sec.State.{Bytes}
use file_sec.Suite.{xchacha20_poly1305}
use file_sec.Aead.{aead_open}
use file_sec.Aead.Laws.{IsAead}
use file_sec.Keystore.{
  derive_master_key, passphrase_wrap_aad, Kit, KeystoreV2, PasskeyEnrollment, PasskeySlot,
  sym_key_len, metadata_fields, passkey_wrap_aad, wrap_dek, unwrap_dek, decrypt_bundle,
}
use file_sec.Keystore.Slots.{
  Draws, unlock_dek_with_passphrase, unlock_v2, unlock_slot, slot_of, passkey_v2, add_passkey_v2,
  device_v2,
}
use file_sec.Keystore.File.{KeystoreV3, v3}
use file_sec.Keystore.Ops.{unlock, unlock_with_passkey, unlock_with_device_token, add_passkey}
use file_sec.Keystore.Chain.{advance-Advanced, then_advance_lem, failed}
use file_sec.Keystore.Unlocking.{unwrap_dek-wrap_dek}

get_elem?-before {ℓ} :
    {A : Type ℓ} (xs ys : List A) (i : ℕ) → i < length xs → get_elem? (xs ++ ys) i ≡ get_elem? xs i
get_elem?-before [] ys i h = absurd (omega arith)
get_elem?-before (x ∷ xs) ys zero h = refl
get_elem?-before (x ∷ xs) ys (suc i) h = get_elem?-before xs ys i (omega arith)

get_elem?-last {ℓ} :
    {A : Type ℓ} (xs : List A) (x : A) → get_elem? (xs ++ x ∷ []) (length xs) ≡ some x
get_elem?-last [] x = refl
get_elem?-last (y ∷ ys) x = get_elem?-last ys x

module _ (k : Kit) where
  -- What an enrollment changes: a slot is appended.
  record IsEnrolled (body body2 : KeystoreV2) (dek : Bytes) (e : PasskeyEnrollment) : Type 0 where
    slot : PasskeySlot
    appended : body2 ≡ record body { passkeys = body.passkeys ++ slot ∷ [] }
    opens : unlock_slot k slot e.hmac_output ≡ ok dek

  add_passkey_v2-IsEnrolled :
      ((key : Bytes) → IsAead k.ciphers xchacha20_poly1305 key)
      → (body body2 : KeystoreV2) (dek : Bytes) (e : PasskeyEnrollment) (drawn : Result Bytes)
      → length dek ≡ sym_key_len
      → add_passkey_v2 k body dek e drawn ≡ ok body2
      → IsEnrolled body body2 dek e
  unfolding add_passkey_v2 unlock_slot
  add_passkey_v2-IsEnrolled aead body body2 dek e drawn size h =
      let kek = k.derive_key (text "FileSec passkey keyslot v1") e.hmac_output in
      let aad =
        passkey_wrap_aad k e.credential_id e.rp_id e.hmac_salt
          (metadata_fields true e.label e.added_at) in
      elim (Result-cases (wrap_dek k kek dek aad drawn)) [
        | inr (x, w) ↦ absurd (not_ok_lem (rw (add_passkey_v2, w) at h))
        | inl (wrapped, w) ↦ record {
          slot = slot_of k e wrapped.0 wrapped.1;
          appended = sym (ok_injective (rw (add_passkey_v2, w) at h));
          opens = unwrap_dek-wrap_dek k aead kek dek aad drawn wrapped size w;
        }
      ]

  -- The length of a data key that was unwrapped.
  unlocked_size :
      (body : KeystoreV2) (passphrase dek : Bytes)
      → unlock_dek_with_passphrase k body passphrase ≡ ok dek
      → length dek ≡ sym_key_len
  unfolding unlock_dek_with_passphrase unwrap_dek
  unlocked_size body passphrase dek h =
      let p = body.passphrase in
      let aad = passphrase_wrap_aad k p.salt p.kdf in
      elim (Result-cases (derive_master_key k passphrase p.salt p.kdf)) [
        | inr (e, m) ↦ absurd (not_ok_lem (rw (unlock_dek_with_passphrase, m) at h))
        | inl (kek, m) ↦ elim (Result-cases (aead_open k.ciphers kek p.nonce aad p.wrapped_dek)) [
          | inr (e, o) ↦
              absurd (not_ok_lem (rw (unlock_dek_with_passphrase, m, unwrap_dek, o) at h))
          | inl (pt, o) ↦ elim (Bool-cases (length pt == sym_key_len)) [
            | inr n ↦
                absurd (not_ok_lem (rw (unlock_dek_with_passphrase, m, unwrap_dek, o, n) at h))
            | inl n ↦
                let same : pt ≡ dek =
                  ok_injective (rw (unlock_dek_with_passphrase, m, unwrap_dek, o, n) at h) in
                ap length (sym same) ∙ (==_iff (length pt) sym_key_len).0 n
          ]
        ]
      ]

  -- The other ways to unlock a keystore after a change of it.
  abbrev pub KeepsUnlocks : KeystoreV3 → KeystoreV3 → Type 0
  KeepsUnlocks ks ks2 =
      ((other : Bytes) → unlock k (v3 ks2) other ≡ unlock k (v3 ks) other)
      × ((index : ℕ) (output : Bytes)
          → index < length ks.body.passkeys
          → unlock_with_passkey k (v3 ks2) index output
            ≡ unlock_with_passkey k (v3 ks) index output)
      × ((token : Bytes)
          → unlock_with_device_token k (v3 ks2) token ≡ unlock_with_device_token k (v3 ks) token)

  abbrev with_slot : KeystoreV2 → PasskeySlot → KeystoreV2
  with_slot body slot = record body { passkeys = body.passkeys ++ slot ∷ [] }

  passkey_v2-before :
      (body : KeystoreV2) (slot : PasskeySlot) (index : ℕ) (output : Bytes)
      → index < length body.passkeys
      → passkey_v2 k (with_slot body slot) index output ≡ passkey_v2 k body index output
  unfolding passkey_v2
  passkey_v2-before body slot index output below =
      rw (passkey_v2, get_elem?-before body.passkeys (slot ∷ []) index below) refl

  passkey_v2-last :
      (body : KeystoreV2) (slot : PasskeySlot) (output dek : Bytes)
      → unlock_slot k slot output ≡ ok dek
      → passkey_v2 k (with_slot body slot) (length body.passkeys) output
        ≡ decrypt_bundle k dek body.bundle_nonce body.bundle_ct
  unfolding passkey_v2
  passkey_v2-last body slot output dek opens =
      rw (passkey_v2, get_elem?-last body.passkeys slot, opens) refl

  keeps_lem :
      (ks ks2 : KeystoreV3) (slot : PasskeySlot)
      → ks2.body ≡ with_slot ks.body slot
      → KeepsUnlocks ks ks2
  unfolding unlock unlock_with_passkey unlock_with_device_token unlock_v2 device_v2
      unlock_dek_with_passphrase
  keeps_lem ks ks2 slot h = (
    (λ other. subst (λ b. unlock_v2 k b other ≡ unlock_v2 k ks.body other) (sym h) refl),
    (λ index output below.
        subst (λ b. passkey_v2 k b index output ≡ passkey_v2 k ks.body index output) (sym h)
          (passkey_v2-before ks.body slot index output below)),
    (λ token. subst (λ b. device_v2 k b token ≡ device_v2 k ks.body token) (sym h) refl),
  )

  -- Enrolling a passkey with success: the new slot, behind the others, unlocks with the secret of the
  -- passkey to the identity that the passphrase unlocks to, and every passphrase, every passkey that was
  -- enrolled before and the device token unlock as they did.
  pub unlock_with_passkey-add_passkey :
      ((key : Bytes) → IsAead k.ciphers xchacha20_poly1305 key)
      → (ks ks2 : KeystoreV3) (passphrase : Bytes) (e : PasskeyEnrollment) (draws : Draws)
        (drawn : Result Bytes)
      → add_passkey k (v3 ks) passphrase e draws drawn ≡ (ok tt, v3 ks2)
      → (unlock_with_passkey k (v3 ks2) (length ks.body.passkeys) e.hmac_output
          ≡ unlock k (v3 ks) passphrase)
        × KeepsUnlocks ks ks2
  unfolding add_passkey unlock unlock_with_passkey unlock_v2
  unlock_with_passkey-add_passkey aead ks ks2 passphrase e draws drawn h =
      elim (Result-cases (unlock_dek_with_passphrase k ks.body passphrase)) [
        | inr (x, d) ↦ absurd (failed x (v3 ks) (v3 ks2) (rw (add_passkey, d) at h))
        | inl (dek, d) ↦ elim (Result-cases (unlock_v2 k ks.body passphrase)) [
          | inr (x, u) ↦ absurd (failed x (v3 ks) (v3 ks2) (rw (add_passkey, d, u) at h))
          | inl (signer, u) ↦
              let (body, made, step) =
                then_advance_lem k (add_passkey_v2 k ks.body dek e drawn) ks ks2 signer
                  (rw (add_passkey, d, u) at h) in
              let n =
                add_passkey_v2-IsEnrolled aead ks.body body dek e drawn
                  (unlocked_size ks.body passphrase dek d) made in
              let a = advance-Advanced k signer (record ks { body = body }) ks2 step in
              let whole = a.same_body ∙ n.appended in
              let opened : unlock_with_passkey k (v3 ks2) (length ks.body.passkeys) e.hmac_output
                  ≡ decrypt_bundle k dek ks.body.bundle_nonce ks.body.bundle_ct =
                subst
                  (λ b.
                    passkey_v2 k b (length ks.body.passkeys) e.hmac_output
                    ≡ decrypt_bundle k dek ks.body.bundle_nonce ks.body.bundle_ct)
                  (sym whole) (passkey_v2-last ks.body n.slot e.hmac_output dek n.opens) in
              (opened ∙ rw (unlock, unlock_v2, d) refl, keeps_lem ks ks2 n.slot whole)
        ]
      ]
