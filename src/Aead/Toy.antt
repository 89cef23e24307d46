-- ===== src/Aead/Toy.antt =====
-- A concrete cipher for the tests of crates/filesec-core/src/aead.rs and of the code above it: it appends
-- a tag that the nonce determines.
use file_sec.Prelude.{
  ℕ, suc, ◌-◌, ◌%◌, ◌≡◌, ◌≤◌, refl, true, false, Option, none, some, ◌++◌, length, take, drop,
  replicate, if◌then◌else◌, ◌==◌, from_be_bytes, text_eq, text_eq_refl, length-append, take-append,
  drop-append, arith,
}
use file_sec.State.{Bytes}
use file_sec.Suite.{AeadAlg}
use file_sec.Manifest.{u32_max}
use file_sec.Aead.{Ciphers, chunk_nonce}
use file_sec.Aead.Laws.{IsAead, IsStream, advanced}

abbrev pub toy_tag : Bytes → Bytes
toy_tag nonce = replicate 16 (from_be_bytes 0 nonce % 251)

abbrev pub toy_encrypt : Bytes → Bytes → Option Bytes
toy_encrypt nonce m = some (m ++ toy_tag nonce)

abbrev pub toy_decrypt : Bytes → Bytes → Option Bytes
toy_decrypt nonce ct =
    if text_eq (drop (length ct - 16) ct) (toy_tag nonce)
    then some (take (length ct - 16) ct)
    else none

-- A STREAM over any decryption: the state is the prefix and the counter.
abbrev pub toy_ciphers : (Bytes → Bytes → Option Bytes) → Ciphers
toy_ciphers decrypt = record {
  encrypt = (λ alg key nonce aad m. toy_encrypt nonce m);
  decrypt = (λ alg key nonce aad ct. decrypt nonce ct);
  Encryptor = Bytes × ℕ;
  Decryptor = Bytes × ℕ;
  encryptor = (λ alg key prefix. (prefix, 0));
  decryptor = (λ alg key prefix. (prefix, 0));
  encrypt_next = (λ e aad m.
      if e.1 == u32_max
      then none
      else advanced (e.0, suc e.1) (toy_encrypt (chunk_nonce e.0 e.1 false) m));
  encrypt_last = (λ e aad m. toy_encrypt (chunk_nonce e.0 e.1 true) m);
  decrypt_next = (λ e aad ct.
      if e.1 == u32_max
      then none
      else advanced (e.0, suc e.1) (decrypt (chunk_nonce e.0 e.1 false) ct));
  decrypt_last = (λ e aad ct. decrypt (chunk_nonce e.0 e.1 true) ct);
}

below_lem : (i : ℕ) → suc i ≤ u32_max → (i == u32_max) ≡ false
below_lem i h = ground arith

pub toy_ciphers-IsStream :
    (decrypt : Bytes → Bytes → Option Bytes) (alg : AeadAlg) (key prefix : Bytes)
    → IsStream (toy_ciphers decrypt) alg key prefix
toy_ciphers-IsStream decrypt alg key prefix = record {
  enc_at = (λ i. (prefix, i));
  dec_at = (λ i. (prefix, i));
  enc_start = refl;
  dec_start = refl;
  enc_next = (λ i aad m h. rw (below_lem i h) refl);
  enc_last = (λ i aad m h. refl);
  dec_next = (λ i aad ct h. rw (below_lem i h) refl);
  dec_full = (λ aad ct. refl);
  dec_last = (λ i aad ct h. refl);
}

toy_decrypt-toy_encrypt : (nonce m : Bytes) → toy_decrypt nonce (m ++ toy_tag nonce) ≡ some m
toy_decrypt-toy_encrypt nonce m =
    let cut : length (m ++ toy_tag nonce) - 16 ≡ length m =
      omega (arith, length-append m (toy_tag nonce)) in
    rw
      (
        cut,
        drop-append m (toy_tag nonce),
        take-append m (toy_tag nonce),
        text_eq_refl (toy_tag nonce),
      )
      refl

pub toy_ciphers-IsAead : (alg : AeadAlg) (key : Bytes) → IsAead (toy_ciphers toy_decrypt) alg key
toy_ciphers-IsAead alg key nonce aad m h k = record {
  ct = m ++ toy_tag nonce;
  sealed = refl;
  tagged = omega (arith, length-append m (toy_tag nonce));
  opens = toy_decrypt-toy_encrypt nonce m;
}
