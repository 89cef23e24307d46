-- ===== src/Keystore/Chain.antt =====
-- crates/filesec-core/src/keystore.rs: every change of a keystore continues its signed state.
use file_sec.Prelude.{
  arith, not, ◌||◌, ℕ, ◌≡◌, refl, ap, ◌∙◌, true, false, not, ◌||◌, Option, none, some, length, ltb,
  ◌==◌, ==_iff, Bool-cases, inl, inr, text_eq, text_eq_refl,
}
use file_sec.Errors.{not_ok_lem, format, Error, Result, ok, err, Result-cases}
use file_sec.State.{
  type_eq, Bytes, keystore, StateMetadata, StateAnchor, authenticated_data, from_metadata, next,
  check_candidate,
}
use file_sec.State.Anchoring.{next-accepted}
use file_sec.Codec.{to_vec}
use file_sec.Contacts.{fingerprint}
use file_sec.Keystore.{
  DeviceSlot, decrypt_bundle, Kit, Identity, KeystoreV2, PasskeyEnrollment, public,
}
use file_sec.Keystore.Slots.{
  unlock_dek_with_passphrase, add_passkey_v2, set_device_slot, Draws, unlock_v2,
}
use file_sec.Keystore.File.{
  without_slot, KeystoreV3, KeystoreFile, v3, object_id, verify_v3, advance,
}
use file_sec.Keystore.Ops.{
  Changed, then_advance, add_passkey, remove_passkey, set_device_token, remove_device_token,
}

pub failed :
    (e : Error) (before after : KeystoreFile) → ◌≡◌ {A = Changed} (err e, before) (ok tt, after) → ⊥
failed e before after h = cc

-- What a made state says of its object.
next_fields :
    (hash : Bytes → Bytes) (fpr : Bytes) (previous : Option StateAnchor) (payload : Bytes)
    (s : StateMetadata)
    → next hash fpr keystore object_id 0 previous payload ≡ ok s
    → (s.identity_fingerprint ≡ fpr)
      × (s.object_type ≡ keystore)
      × (s.object_id ≡ object_id)
      × (s.suite_id ≡ 0)
unfolding next
next_fields hash fpr previous payload s h = ground arith

-- The signing key of an identity.
pub record IsSigner (k : Kit) (i : Identity) : Type 0 where
  pub is_key : k.ed25519_is_key (public k i).sign_public ≡ true
  pub verifies :
      (m : Bytes)
      → k.ed25519_verify (public k i).sign_public m (k.ed25519_sign i.sign_secret m) ≡ true
  pub signature : (m : Bytes) → length (k.ed25519_sign i.sign_secret m) ≡ 64

done_lem : (ks ks2 : KeystoreV3) → ◌≡◌ {A = Changed} (ok tt, v3 ks) (ok tt, v3 ks2) → ks ≡ ks2
done_lem ks ks2 h = cc

module _ (k : Kit) where
  -- The changes that a signed keystore goes through, each with the identity that signs it.
  pub data IsChanged : Identity → KeystoreV3 → KeystoreV3 → Type 0 where
    enrolled :
        {signer : Identity} {ks next : KeystoreV3} (passphrase : Bytes) (e : PasskeyEnrollment)
        (draws : Draws) (drawn : Result Bytes)
        → unlock_v2 k ks.body passphrase ≡ ok signer
        → add_passkey k (v3 ks) passphrase e draws drawn ≡ (ok tt, v3 next)
        → IsChanged signer ks next
    dropped :
        {signer : Identity} {ks next : KeystoreV3} (index : ℕ)
        → remove_passkey k (v3 ks) index signer ≡ (ok tt, v3 next)
        → IsChanged signer ks next
    remembered :
        {signer : Identity} {ks next : KeystoreV3} (passphrase token : Bytes) (drawn : Result Bytes)
        → unlock_v2 k ks.body passphrase ≡ ok signer
        → set_device_token k (v3 ks) passphrase token drawn ≡ (ok tt, v3 next)
        → IsChanged signer ks next
    forgotten :
        {signer : Identity} {ks next : KeystoreV3} (slot : DeviceSlot)
        → ks.body.device ≡ some slot
        → remove_device_token k (v3 ks) signer ≡ (ok tt, v3 next)
        → IsChanged signer ks next

  record IsAdvanced (signer : Identity) (ks ks2 : KeystoreV3) : Type 0 where
    body : KeystoreV2
    step : advance k (record ks { body = body }) signer ≡ ok ks2

  pub then_advance_lem :
      (r : Result KeystoreV2) (ks ks2 : KeystoreV3) (signer : Identity)
      → then_advance r ks (λ changed. advance k changed signer) ≡ (ok tt, v3 ks2)
      → (body : KeystoreV2) × (r ≡ ok body)
        × (advance k (record ks { body = body }) signer ≡ ok ks2)
  then_advance_lem (err e) ks ks2 signer h = absurd cc
  then_advance_lem (ok body) ks ks2 signer h =
      elim (Result-cases (advance k (record ks { body = body }) signer)) [
        | inr (e, a) ↦ absurd (failed e (v3 (record ks { body = body })) (v3 ks2) (rw (a) at h))
        | inl (ks3, a) ↦ (body, refl, a ∙ ap ok (done_lem ks3 ks2 (rw (a) at h)))
      ]

  then_advance-IsAdvanced :
      (r : Result KeystoreV2) (ks ks2 : KeystoreV3) (signer : Identity)
      → then_advance r ks (λ changed. advance k changed signer) ≡ (ok tt, v3 ks2)
      → IsAdvanced signer ks ks2
  then_advance-IsAdvanced r ks ks2 signer h =
      let (body, made, step) = then_advance_lem r ks ks2 signer h in
      record { body = body; step = step }

  IsChanged-IsAdvanced :
      (signer : Identity) (ks ks2 : KeystoreV3) → IsChanged signer ks ks2 → IsAdvanced signer ks ks2
  unfolding add_passkey remove_passkey set_device_token remove_device_token unlock_v2
  IsChanged-IsAdvanced signer ks ks2 (enrolled passphrase e draws drawn u h) =
      elim (Result-cases (unlock_dek_with_passphrase k ks.body passphrase)) [
        | inr (x, d) ↦ absurd (failed x (v3 ks) (v3 ks2) (rw (add_passkey, d) at h))
        | inl (dek, d) ↦
            then_advance-IsAdvanced (add_passkey_v2 k ks.body dek e drawn) ks ks2 signer
              (rw (add_passkey, d, u) at h)
      ]
  IsChanged-IsAdvanced signer ks ks2 (dropped index h) =
      elim (Bool-cases (ltb index (length ks.body.passkeys))) [
        | inr o ↦ absurd (
            failed (format "passkey slot index out of range") (v3 ks) (v3 ks2)
              (rw (remove_passkey, o) at h))
        | inl o ↦
            then_advance-IsAdvanced
              (ok (record ks.body { passkeys = without_slot index ks.body.passkeys })) ks ks2 signer
              (rw (remove_passkey, o) at h)
      ]
  IsChanged-IsAdvanced signer ks ks2 (remembered passphrase token drawn u h) =
      elim (Result-cases (unlock_dek_with_passphrase k ks.body passphrase)) [
        | inr (x, d) ↦ absurd (failed x (v3 ks) (v3 ks2) (rw (set_device_token, d) at h))
        | inl (dek, d) ↦
            let b : decrypt_bundle k dek ks.body.bundle_nonce ks.body.bundle_ct ≡ ok signer =
              rw (unlock_v2, d) at u in
            then_advance-IsAdvanced (set_device_slot k ks.body dek token drawn) ks ks2 signer
              (rw (set_device_token, d, b) at h)
      ]
  IsChanged-IsAdvanced signer ks ks2 (forgotten slot d h) =
      then_advance-IsAdvanced (ok (record ks.body { device = none })) ks ks2 signer
        (rw (remove_device_token, d) at h)

  pub record Advanced (signer : Identity) (ks ks2 : KeystoreV3) : Type 0 where
    payload : Bytes
    written : to_vec k.v2_cbor ks.body ≡ ok payload
    continued :
        next k.hash
          (fingerprint k.hash (public k signer))
          keystore
          object_id
          0
          (some (from_metadata ks.state))
          payload
        ≡ ok ks2.state
    same_version : ks2.version ≡ ks.version
    same_identity : ks2.public_identity ≡ ks.public_identity
    pub same_body : ks2.body ≡ ks.body
    signed : ks2.signature ≡ k.ed25519_sign signer.sign_secret (authenticated_data ks2.state)

  pub advance-Advanced :
      (signer : Identity) (ks ks2 : KeystoreV3)
      → advance k ks signer ≡ ok ks2
      → Advanced signer ks ks2
  unfolding advance
  advance-Advanced signer ks ks2 h = ground arith

  version_lem : (ks : KeystoreV3) → verify_v3 k ks ≡ ok tt → ks.version ≡ 3
  unfolding verify_v3
  version_lem ks h = elim (Bool-cases (ks.version == 3)) [
    | inl v ↦ (==_iff ks.version 3).0 v
    | inr v ↦ absurd (not_ok_lem (rw (verify_v3, v) at h))
  ]

  -- Every change of a signed keystore that reports success, the enrollment and the removal of a passkey or
  -- of the device token, leaves a keystore that verifies again, and the anchor of the state before the
  -- change accepts its state as the next one: nothing is changed without advancing the epoch.
  pub IsChanged-accepted :
      (signer : Identity) (ks ks2 : KeystoreV3)
      → verify_v3 k ks ≡ ok tt
      → ks.public_identity ≡ public k signer
      → IsSigner k signer
      → IsChanged signer ks ks2
      → (verify_v3 k ks2 ≡ ok tt) × (check_candidate (from_metadata ks.state) ks2.state ≡ ok true)
  unfolding verify_v3
  IsChanged-accepted signer ks ks2 valid owner keys change =
      let step = IsChanged-IsAdvanced signer ks ks2 change in
      let a = advance-Advanced signer (record ks { body = step.body }) ks2 step.step in
      let fpr = fingerprint k.hash (public k signer) in
      let (hashed, accepted, current) =
        next-accepted k.hash fpr keystore object_id 0 (from_metadata ks.state) a.payload ks2.state
          a.continued in
      let (who, kind, name, suite) =
        next_fields k.hash fpr (some (from_metadata ks.state)) a.payload ks2.state a.continued in
      let m = authenticated_data ks2.state in
      let size = (==_iff (length (k.ed25519_sign signer.sign_secret m)) 64).1 (keys.signature m) in
      let owner2 : ks2.public_identity ≡ public k signer = a.same_identity ∙ owner in
      let version2 : ks2.version ≡ 3 = a.same_version ∙ version_lem ks valid in
      let written : to_vec k.v2_cbor ks2.body ≡ ok a.payload = rw (a.same_body) a.written in
      let guards : (not (ks2.version == 3)
            || not (type_eq ks2.state.object_type keystore)
            || not (text_eq ks2.state.object_id object_id)
            || not (ks2.state.suite_id == 0)
            || not
                (text_eq ks2.state.identity_fingerprint (fingerprint k.hash ks2.public_identity)))
          ≡ false =
        rw (version2, kind, name, suite, who, owner2, text_eq_refl object_id, text_eq_refl fpr)
          refl in
      (
        rw
            (
              verify_v3,
              guards,
              written,
              hashed,
              a.signed,
              owner2,
              size,
              keys.is_key,
              keys.verifies m,
            )
            refl,
        accepted,
      )
