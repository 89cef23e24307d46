-- ===== src/Aead/Steps.antt =====
-- crates/filesec-core/src/aead.rs: one round of each loop over a stream.
use file_sec.Prelude.{
  ℕ, suc, ◌+◌, ◌≡◌, ◌≤◌, ◌<◌, refl, true, false, some, List, [], ◌∷◌, ◌++◌, length, take, drop,
  is_empty, length-take, arith,
}
use file_sec.Errors.{ok}
use file_sec.State.{Bytes}
use file_sec.Suite.{AeadAlg}
use file_sec.Manifest.{tag_len, u32_max}
use file_sec.Aead.{Ciphers, chunk_nonce, encrypt_loop, decrypt_loop}
use file_sec.Aead.Laws.{IsSealed, IsStream}

is_empty-nonempty {ℓ} : {A : Type ℓ} (xs : List A) → 0 < length xs → is_empty xs ≡ false
is_empty-nonempty [] h = absurd (omega arith)
is_empty-nonempty (x ∷ xs) h = refl

pub empty_lem {ℓ} : {A : Type ℓ} (xs : List A) → length xs ≡ 0 → xs ≡ []
empty_lem [] h = refl
empty_lem (x ∷ xs) h = absurd (omega arith)

empty-take : (n : ℕ) → take {A = ℕ} n [] ≡ []
empty-take n = empty_lem (take {A = ℕ} n []) (omega (arith, length-take {A = ℕ} n []))

module _ {c : Ciphers} {alg : AeadAlg} {key stream_nonce : Bytes} (aad : Bytes) (size : ℕ)
    (stream : IsStream c alg key stream_nonce) where
  pub encrypt_loop-last :
      (i fuel : ℕ) (current out : Bytes) (written : ℕ)
      (s : IsSealed c alg key (chunk_nonce stream_nonce i true) aad current)
      → i ≤ u32_max
      → encrypt_loop c aad size (suc fuel) (stream.enc_at i) current [] out written
        ≡ some (ok (written + length s.ct), out ++ s.ct)
  unfolding encrypt_loop
  encrypt_loop-last i fuel current out written s h =
      rw (encrypt_loop, empty-take size, stream.enc_last i aad current h, s.sealed) refl

  pub encrypt_loop-next :
      (i fuel : ℕ) (current reader out : Bytes) (written : ℕ)
      (s : IsSealed c alg key (chunk_nonce stream_nonce i false) aad current)
      → i < u32_max
      → 0 < length (take size reader)
      → encrypt_loop c aad size (suc fuel) (stream.enc_at i) current reader out written
        ≡ encrypt_loop c aad size fuel
            (stream.enc_at (suc i))
            (take size reader)
            (drop size reader)
            (out ++ s.ct)
            (written + length s.ct)
  unfolding encrypt_loop
  encrypt_loop-next i fuel current reader out written s h more =
      rw
        (
          encrypt_loop,
          is_empty-nonempty (take size reader) more,
          stream.enc_next i aad current h,
          s.sealed,
        )
        refl

  pub decrypt_loop-last :
      (i fuel : ℕ) (current out : Bytes) (written : ℕ)
      (s : IsSealed c alg key (chunk_nonce stream_nonce i true) aad current)
      → i ≤ u32_max
      → decrypt_loop c aad (size + tag_len) (suc fuel) (stream.dec_at i) s.ct [] out written
        ≡ some (ok (written + length current), out ++ current)
  unfolding decrypt_loop
  decrypt_loop-last i fuel current out written s h =
      rw (decrypt_loop, empty-take (size + tag_len), stream.dec_last i aad s.ct h, s.opens) refl

  pub decrypt_loop-next :
      (i fuel : ℕ) (current reader out : Bytes) (written : ℕ)
      (s : IsSealed c alg key (chunk_nonce stream_nonce i false) aad current)
      → i < u32_max
      → 0 < length (take (size + tag_len) reader)
      → decrypt_loop c aad (size + tag_len) (suc fuel) (stream.dec_at i) s.ct reader out written
        ≡ decrypt_loop c aad
            (size + tag_len)
            fuel
            (stream.dec_at (suc i))
            (take (size + tag_len) reader)
            (drop (size + tag_len) reader)
            (out ++ current)
            (written + length current)
  unfolding decrypt_loop
  decrypt_loop-next i fuel current reader out written s h more =
      rw
        (
          decrypt_loop,
          is_empty-nonempty (take (size + tag_len) reader) more,
          stream.dec_next i aad s.ct h,
          s.opens,
        )
        refl
