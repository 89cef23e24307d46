-- ===== src/Keystore/Framing.antt =====
-- crates/filesec-core/src/keystore.rs: the bytes of a keystore file.
use file_sec.Prelude.{
  ◌≡◌, refl, sym, ap, ◌∙◌, true, ◌++◌, drop, be_bytes, from_be_bytes, text, text_eq, inl, inr,
  arith,
}
use file_sec.Errors.{not_ok_lem, ok_injective, ok, Result-cases}
use file_sec.State.{Bytes}
use file_sec.Kdf.{validate_for_open}
use file_sec.Codec.{Cbor, Travels, to_vec-Travels}
use file_sec.Keystore.{Kit}
use file_sec.Keystore.File.{
  KeystoreV3, v3, magic_v2, is_framed, frame_version, verify_v3, to_bytes, from_bytes,
}

-- The frame of version 3.
frame_lem :
    (body : Bytes)
    → (is_framed (magic_v2 ++ (be_bytes 2 3 ++ body)) ≡ true)
      × (frame_version (magic_v2 ++ (be_bytes 2 3 ++ body)) ≡ 3)
      × (drop 6 (magic_v2 ++ (be_bytes 2 3 ++ body)) ≡ body)
unfolding be_bytes from_be_bytes text text_eq
frame_lem body = (ground arith, refl, refl)

module _ (k : Kit) (v3_cbor : Cbor KeystoreV3) where
  -- A keystore that is written is read back, and verified on the way, if its key derivation stays within
  -- the limits for opening; one that does not verify is not written.
  pub from_bytes-to_bytes :
      (ks : KeystoreV3) (bytes : Bytes)
      → Travels v3_cbor ks
      → validate_for_open ks.body.passphrase.kdf ≡ ok tt
      → to_bytes k v3_cbor (v3 ks) ≡ ok bytes
      → (from_bytes k v3_cbor bytes ≡ ok (v3 ks)) × (verify_v3 k ks ≡ ok tt)
  unfolding to_bytes from_bytes
  from_bytes-to_bytes ks bytes travels kdf h = elim (Result-cases (verify_v3 k ks)) [
    | inr (e, bad) ↦ absurd (not_ok_lem (rw (to_bytes, bad) at h))
    | inl (done, good) ↦
        let (written, read) = to_vec-Travels v3_cbor ks travels in
        let same : magic_v2 ++ (be_bytes 2 3 ++ travels.bytes) ≡ bytes =
          ok_injective (rw (to_bytes, good, written) at h) in
        let (framed, version, body) = frame_lem travels.bytes in
        let read_again : from_bytes k v3_cbor (magic_v2 ++ (be_bytes 2 3 ++ travels.bytes))
            ≡ ok (v3 ks) =
          rw (from_bytes, framed, version, body, read, kdf, good) refl in
        (ap (from_bytes k v3_cbor) (sym same) ∙ read_again, good)
  ]
