-- ===== src/Aead/Totality.antt =====
-- crates/filesec-core/src/aead.rs: the loops over a stream end.
use file_sec.Prelude.{
  ℕ, zero, suc, ◌+◌, ◌≡◌, ◌<◌, refl, false, Option, some, List, [], ◌∷◌, ◌++◌, length, take, drop,
  is_empty, Bool-cases, Option-cases, inl, inr, length-take, length-drop, arith,
}
use file_sec.Errors.{auth, err, Result-cases}
use file_sec.State.{Bytes}
use file_sec.Suite.{AeadAlg}
use file_sec.Manifest.{tag_len}
use file_sec.Aead.{
  Ciphers, Streamed, finish, stream_checks, encrypt_loop, decrypt_loop, encrypt_stream_with,
  decrypt_stream_with,
}

abbrev pub HasResult : Option Streamed → Type 0
HasResult r = (s : Streamed) × (r ≡ some s)

nonempty_lem {ℓ} : {A : Type ℓ} (xs : List A) → is_empty xs ≡ false → 0 < length xs
nonempty_lem [] h = absurd (ground arith)
nonempty_lem (x ∷ xs) h = omega arith

pub shrinks :
    (size : ℕ) (reader : Bytes)
    → is_empty (take size reader) ≡ false
    → length (drop size reader) < length reader
shrinks size reader h =
    omega
      (arith, nonempty_lem (take size reader) h, length-take size reader, length-drop size reader)

module _ (c : Ciphers) where
  encrypt_loop-HasResult :
      (aad : Bytes) (size fuel : ℕ) (enc : c.Encryptor) (current reader out : Bytes) (written : ℕ)
      → length reader < fuel
      → HasResult (encrypt_loop c aad size fuel enc current reader out written)
  unfolding encrypt_loop
  encrypt_loop-HasResult aad size zero enc current reader out written h = absurd (omega arith)
  encrypt_loop-HasResult aad size (suc fuel) enc current reader out written h =
      elim (Bool-cases (is_empty (take size reader))) [
        | inl e ↦ rw (encrypt_loop, e) (finish (c.encrypt_last enc aad current) out written, refl)
        | inr e ↦ elim (Option-cases (c.encrypt_next enc aad current)) [
          | inl n ↦ rw (encrypt_loop, e, n) ((err auth, out), refl)
          | inr ((enc2, ct), n) ↦
              rw (encrypt_loop, e, n)
                (encrypt_loop-HasResult aad size fuel enc2 (take size reader) (drop size reader)
                  (out ++ ct) (written + length ct) (omega (arith, shrinks size reader e)))
        ]
      ]

  decrypt_loop-HasResult :
      (aad : Bytes) (size fuel : ℕ) (dec : c.Decryptor) (current reader out : Bytes) (written : ℕ)
      → length reader < fuel
      → HasResult (decrypt_loop c aad size fuel dec current reader out written)
  unfolding decrypt_loop
  decrypt_loop-HasResult aad size zero dec current reader out written h = absurd (omega arith)
  decrypt_loop-HasResult aad size (suc fuel) dec current reader out written h =
      elim (Bool-cases (is_empty (take size reader))) [
        | inl e ↦ rw (decrypt_loop, e) (finish (c.decrypt_last dec aad current) out written, refl)
        | inr e ↦ elim (Option-cases (c.decrypt_next dec aad current)) [
          | inl n ↦ rw (decrypt_loop, e, n) ((err auth, out), refl)
          | inr ((dec2, pt), n) ↦
              rw (decrypt_loop, e, n)
                (decrypt_loop-HasResult aad size fuel dec2 (take size reader) (drop size reader)
                  (out ++ pt) (written + length pt) (omega (arith, shrinks size reader e)))
        ]
      ]

  -- The loops always end: encryption and decryption give a result, an error or a count, for every
  -- cipher, every input and every chunk size, valid or not.
  pub encrypt_stream_with-decrypt_stream_with_total :
      (alg : AeadAlg) (key stream_nonce aad reader out : Bytes) (chunk_size : ℕ)
      → HasResult (encrypt_stream_with c alg key stream_nonce aad reader out chunk_size)
        × HasResult (decrypt_stream_with c alg key stream_nonce aad reader out chunk_size)
  unfolding encrypt_stream_with decrypt_stream_with
  encrypt_stream_with-decrypt_stream_with_total alg key stream_nonce aad reader out chunk_size =
      let fuelled : (n : ℕ) → length (drop n reader) < suc (length reader) =
        (λ n. omega (arith, length-drop n reader)) in
      elim (Result-cases (stream_checks alg stream_nonce chunk_size)) [
        | inr (e, s) ↦ (
          rw (encrypt_stream_with, s) ((err e, out), refl),
          rw (decrypt_stream_with, s) ((err e, out), refl),
        )
        | inl (done, s) ↦ (
          rw (encrypt_stream_with, s)
              (encrypt_loop-HasResult aad chunk_size (suc (length reader))
                (c.encryptor alg key stream_nonce) (take chunk_size reader) (drop chunk_size reader)
                out 0 (fuelled chunk_size)),
          rw (decrypt_stream_with, s)
              (decrypt_loop-HasResult aad (chunk_size + tag_len) (suc (length reader))
                (c.decryptor alg key stream_nonce) (take (chunk_size + tag_len) reader)
                (drop (chunk_size + tag_len) reader) out 0 (fuelled (chunk_size + tag_len))),
        )
      ]
