-- ===== src/Aead/Laws.antt =====
-- What crates/filesec-core/src/aead.rs relies on of the ciphers and of the STREAM construction.
use native.Mathlib.Nat.{div-add-mod', mod-lt}
use file_sec.Prelude.{
  Bool-cases, inl, inr, ==_iff, Option, none, ℕ, zero, suc, ◌+◌, ◌*◌, ◌/◌, ◌%◌, ◌≡◌, ◌≤◌, ◌<◌, refl,
  sym, subst, Bool, true, false, some, [], ◌∷◌, ◌++◌, length, if◌then◌else◌, ◌==◌, be_bytes,
  length-be_bytes, length-append, arith,
}
use file_sec.State.{Bytes}
use file_sec.Suite.{xchacha20_poly1305, AeadAlg, nonce_len, stream_nonce_len}
use file_sec.Manifest.{tag_len, u32_max, num_chunks}
use file_sec.Blobs.{max_chunk_size}
use file_sec.Errors.{not_ok_lem, ok_injective, ok}
use file_sec.Aead.{aead_seal, aead_open, seal_with, open_with, Ciphers, chunk_nonce, flag_byte}

-- What an encryption with one nonce leaves: a tag longer, and the message again when it is opened.
pub record IsSealed (c : Ciphers) (alg : AeadAlg) (key nonce aad m : Bytes) : Type 0 where
  pub ct : Bytes
  pub sealed : c.encrypt alg key nonce aad m ≡ some ct
  pub tagged : length ct ≡ length m + tag_len
  pub opens : c.decrypt alg key nonce aad ct ≡ some m

-- A cipher of the `aead` package: it takes a nonce of its length and any message up to the largest chunk.
abbrev pub IsAead : Ciphers → AeadAlg → Bytes → Type 0
IsAead c alg key =
    (nonce aad m : Bytes)
    → length nonce ≡ nonce_len alg
    → length m ≤ max_chunk_size
    → IsSealed c alg key nonce aad m

abbrev pub advanced : {A : Type 0} → A → Option Bytes → Option (A × Bytes)
advanced state none = none
advanced state (some bytes) = some (state, bytes)

-- STREAM with a 32-bit counter: each chunk is sealed under the prefix, its index and its flag, and a
-- chunk that is not the last has an index below the largest.
pub record IsStream (c : Ciphers) (alg : AeadAlg) (key stream_nonce : Bytes) : Type 0 where
  pub enc_at : ℕ → c.Encryptor
  pub dec_at : ℕ → c.Decryptor
  pub enc_start : c.encryptor alg key stream_nonce ≡ enc_at 0
  pub dec_start : c.decryptor alg key stream_nonce ≡ dec_at 0
  pub enc_next :
      (i : ℕ) (aad m : Bytes)
      → i < u32_max
      → c.encrypt_next (enc_at i) aad m
        ≡ advanced (enc_at (suc i)) (c.encrypt alg key (chunk_nonce stream_nonce i false) aad m)
  pub enc_last :
      (i : ℕ) (aad m : Bytes)
      → i ≤ u32_max
      → c.encrypt_last (enc_at i) aad m ≡ c.encrypt alg key (chunk_nonce stream_nonce i true) aad m
  pub dec_next :
      (i : ℕ) (aad ct : Bytes)
      → i < u32_max
      → c.decrypt_next (dec_at i) aad ct
        ≡ advanced (dec_at (suc i)) (c.decrypt alg key (chunk_nonce stream_nonce i false) aad ct)
  pub dec_full : (aad ct : Bytes) → c.decrypt_next (dec_at u32_max) aad ct ≡ none
  pub dec_last :
      (i : ℕ) (aad ct : Bytes)
      → i ≤ u32_max
      → c.decrypt_last (dec_at i) aad ct
        ≡ c.decrypt alg key (chunk_nonce stream_nonce i true) aad ct

pub length-chunk_nonce :
    (alg : AeadAlg) (stream_nonce : Bytes) (i : ℕ) (last : Bool)
    → length stream_nonce ≡ stream_nonce_len alg
    → length (chunk_nonce stream_nonce i last) ≡ nonce_len alg
unfolding stream_nonce_len nonce_len
length-chunk_nonce alg stream_nonce i last h =
    let whole = length-append (stream_nonce ++ be_bytes 4 i) (flag_byte last ∷ []) in
    let front = length-append stream_nonce (be_bytes 4 i) in
    let word = length-be_bytes 4 i in grind arith

-- What is sealed with success is opened again.
pub aead_open-aead_seal :
    (c : Ciphers) (key nonce aad m ct : Bytes)
    → IsAead c xchacha20_poly1305 key
    → length m ≤ max_chunk_size
    → aead_seal c key nonce aad m ≡ ok ct
    → aead_open c key nonce aad ct ≡ ok m
unfolding aead_seal aead_open seal_with open_with
aead_open-aead_seal c key nonce aad m ct aead h sealed =
    elim (Bool-cases (length nonce == nonce_len xchacha20_poly1305)) [
      | inr n ↦ absurd (not_ok_lem (rw (aead_seal, seal_with, n) at sealed))
      | inl n ↦
          let s = aead nonce aad m ((==_iff (length nonce) (nonce_len xchacha20_poly1305)).0 n) h in
          let same : s.ct ≡ ct = ok_injective (rw (aead_seal, seal_with, n, s.sealed) at sealed) in
          rw (aead_open, open_with, n, ← same, s.opens) refl
    ]

abbrev pub IsCeil : ℕ → ℕ → ℕ → Type 0
IsCeil n size k = (j : ℕ) × (k ≡ suc j) × (j * size < n) × (n ≤ suc j * size)

div-IsCeil :
    (n size q r : ℕ)
    → 0 < n
    → q * size + r ≡ n
    → r < size
    → IsCeil n size (if r == 0 then q else q + 1)
div-IsCeil n size zero zero h e s = absurd (omega arith)
div-IsCeil n size (suc q) zero h e s = (q, refl, omega arith, omega arith)
div-IsCeil n size q (suc r) h e s = (q, grind arith, omega arith, omega arith)

-- The number of chunks is the least that has room for the bytes.
pub num_chunks-IsCeil : (n size : ℕ) → 0 < size → 0 < n → IsCeil n size (num_chunks n size)
unfolding num_chunks
num_chunks-IsCeil zero size h p = absurd (omega arith)
num_chunks-IsCeil (suc n) size h p =
    let some_bytes : num_chunks (suc n) size
        ≡ (if suc n % size == 0 then suc n / size else suc n / size + 1) =
      grind arith in
    subst (IsCeil (suc n) size) (sym some_bytes) (
      div-IsCeil (suc n) size (suc n / size) (suc n % size) p (div-add-mod' (suc n) size)
        (mod-lt (suc n) h))
