-- ===== src/Aead/Roundtrip.antt =====
-- crates/filesec-core/src/aead.rs: that a stream is read again, as a whole or chunk by chunk.
use file_sec.Prelude.{
  ◌==◌, ==_iff, ℕ, zero, suc, ◌+◌, ◌*◌, ◌≡◌, ◌≤◌, ◌<◌, refl, sym, ap, ◌∙◌, Option, some, [], ◌++◌,
  length, take, drop, length-take, length-drop, take-append-drop, arith,
}
use file_sec.Errors.{Result, ok}
use file_sec.State.{Bytes}
use file_sec.Suite.{AeadAlg, nonce_len, stream_nonce_len}
use file_sec.Manifest.{tag_len, u32_max, num_chunks, data_ciphertext_len}
use file_sec.Blobs.{max_chunk_size}
use file_sec.Aead.{
  Ciphers, Streamed, chunk_nonce, stream_checks, encrypt_stream_with, decrypt_stream_with,
  decrypt_chunk_with, open_with,
}
use file_sec.Aead.Laws.{IsAead, IsStream, length-chunk_nonce, num_chunks-IsCeil}
use file_sec.Aead.Loops.{Runs, runs, same_end}

module _ (c : Ciphers) (alg : AeadAlg) (key stream_nonce aad : Bytes) (size : ℕ)
    (aead : IsAead c alg key) (stream : IsStream c alg key stream_nonce)
    (nonce_fits : length stream_nonce ≡ stream_nonce_len alg) (some_size : 0 < size)
    (small : size ≤ max_chunk_size) where
  below_product : (j n : ℕ) → 0 < n → j ≤ j * n
  below_product j zero h = absurd (omega arith)
  below_product j (suc n) h = omega arith

  start_lem :
      (n : ℕ)
      → (j : ℕ) × (num_chunks n size ≡ suc j)
        × (n ≤ suc j * size)
        × ((k : ℕ) → j ≡ suc k → suc k * size < n)
        × (j ≤ n)
  unfolding num_chunks
  start_lem zero = (0, refl, omega arith, (λ k e. absurd (omega arith)), omega arith)
  start_lem (suc n) =
      let (j, e, low, high) = num_chunks-IsCeil (suc n) size some_size (omega arith) in
      (
        j,
        e,
        high,
        (λ k f. omega (arith, ap (λ t. t * size) f)),
        omega (arith, below_product j size some_size),
      )

  stream_checks_lem : stream_checks alg stream_nonce size ≡ ok tt
  unfolding stream_checks
  stream_checks_lem = ground arith

  whole_run :
      (pt : Bytes)
      → num_chunks (length pt) size ≤ suc u32_max
      → (j : ℕ) × (num_chunks (length pt) size ≡ suc j)
        × Runs c alg key stream_nonce aad size aead stream nonce_fits some_size small 0 j
            (suc (length pt))
            (take size pt)
            (drop size pt)
  whole_run pt h =
      let (j, e, high, low, below) = start_lem (length pt) in
      let front = length-take size pt in
      let back = length-drop size pt in
      (
        j,
        e,
        runs c alg key stream_nonce aad size aead stream nonce_fits some_size small j 0
            (suc (length pt)) (take size pt) (drop size pt) (omega arith) (λ more. omega arith)
            (omega arith) (λ k f. omega (arith, low k f)) (omega arith) (omega arith),
      )

  encrypt_stream_with_lem :
      (pt out : Bytes) (j : ℕ)
      (r : Runs c alg key stream_nonce aad size aead stream nonce_fits some_size small 0 j
        (suc (length pt))
        (take size pt)
        (drop size pt))
      → encrypt_stream_with c alg key stream_nonce aad pt out size
        ≡ some (ok (length r.ct), out ++ r.ct)
  unfolding encrypt_stream_with
  encrypt_stream_with_lem pt out j r =
      rw (encrypt_stream_with, stream_checks_lem, stream.enc_start)
        (r.encrypts out 0 ∙ same_end (omega arith) refl)

  -- Any plaintext of at most 2^32 chunks is encrypted: the writer gets a ciphertext of the length that
  -- the layout of a container counts with, the count that is returned is this length, and decryption
  -- gives the plaintext back with its length, whatever the writers held before.
  pub decrypt_stream_with-encrypt_stream_with :
      (pt out out2 : Bytes)
      → num_chunks (length pt) size ≤ suc u32_max
      → (ct : Bytes) × (encrypt_stream_with c alg key stream_nonce aad pt out size
          ≡ some (ok (length ct), out ++ ct))
        × (length ct ≡ data_ciphertext_len (length pt) size)
        × (decrypt_stream_with c alg key stream_nonce aad ct out2 size
            ≡ some (ok (length pt), out2 ++ pt))
  unfolding data_ciphertext_len decrypt_stream_with
  decrypt_stream_with-encrypt_stream_with pt out out2 h =
      let (j, e, r) = whole_run pt h in
      let front = length-take size pt in
      let back = length-drop size pt in
      (
        r.ct,
        encrypt_stream_with_lem pt out j r,
        omega (arith, r.tagged, ap (λ t. t * tag_len) e),
        rw (decrypt_stream_with, stream_checks_lem, stream.dec_start)
            (r.decrypts (suc (length r.ct)) out2 0 (omega (arith, r.tagged))
              ∙ same_end (omega arith) (ap (λ t. out2 ++ t) (take-append-drop size pt))),
      )

  written_lem :
      (n : ℕ) (r : Result ℕ) (xs ys : Bytes)
      → ◌≡◌ {A = Option Streamed} (some (r, xs)) (some (ok n, ys))
      → xs ≡ ys
  written_lem n r xs ys h = cc

  -- A chunk of the stream is decrypted alone: the chunk `k` of the ciphertext, with the index `k` and the
  -- last-chunk flag if it is the last, gives the chunk `k` of the plaintext.
  pub decrypt_chunk_with-encrypt_stream_with :
      (pt ct : Bytes) (n k : ℕ)
      → num_chunks (length pt) size ≤ suc u32_max
      → encrypt_stream_with c alg key stream_nonce aad pt [] size ≡ some (ok n, ct)
      → k < num_chunks (length pt) size
      → decrypt_chunk_with c alg key stream_nonce aad k
          (suc k == num_chunks (length pt) size)
          (take (size + tag_len) (drop (k * (size + tag_len)) ct))
        ≡ ok (take size (drop (k * size) pt))
  unfolding decrypt_chunk_with open_with
  decrypt_chunk_with-encrypt_stream_with pt ct n k h w below =
      let (j, e, r) = whole_run pt h in
      let written : r.ct ≡ ct =
        written_lem n (ok (length r.ct)) r.ct ct (sym (encrypt_stream_with_lem pt [] j r) ∙ w) in
      let last : (suc k == num_chunks (length pt) size) ≡ (k == j) = rw (e) (ground arith) in
      let fits = length-chunk_nonce alg stream_nonce k (k == j) nonce_fits in
      let index : 0 + k ≡ k = omega arith in
      let outer = (==_iff (length stream_nonce) (stream_nonce_len alg)).1 nonce_fits in
      let inner = (==_iff (length (chunk_nonce stream_nonce k (k == j))) (nonce_len alg)).1 fits in
      rw
        (
          last,
          outer,
          inner,
          ← written,
          rw (index, take-append-drop size pt) at (r.chunks k (omega arith)),
        )
        refl
