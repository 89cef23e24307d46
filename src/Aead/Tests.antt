-- ===== src/Aead/Tests.antt =====
-- Concrete ciphers and streams of crates/filesec-core/src/aead.rs.
use file_sec.Prelude.{
  be_bytes, Bool-cases, and-eq-true, inl, inr, ◌≡◌, refl, true, false, ◌&&◌, Option, none, some,
  List, [], ◌∷◌, ◌++◌, length, replicate, if◌then◌else◌, from_be_bytes, text_eq, text_eq_iff, arith,
}
use file_sec.Errors.{ok, err, auth}
use file_sec.State.{Bytes}
use file_sec.Suite.{nonce_len, stream_nonce_len, xchacha20_poly1305, aes256_gcm}
use file_sec.Manifest.{num_chunks, data_ciphertext_len}
use file_sec.Aead.{
  encrypt_loop, decrypt_loop, stream_checks, chunk_nonce, encrypt_stream_with, decrypt_stream_with,
  decrypt_chunk_with,
}
use file_sec.Aead.Toy.{toy_tag, toy_decrypt, toy_ciphers, toy_ciphers-IsStream, toy_ciphers-IsAead}
use file_sec.Aead.Roundtrip.{
  decrypt_stream_with-encrypt_stream_with, decrypt_chunk_with-encrypt_stream_with,
}
use file_sec.Aead.Integrity.{IsAuthentic, IsPrefix, decrypt_stream_with-IsPrefix}
use file_sec.Aead.Reader.{StreamDecryptReader, new_with, read_stream}
use file_sec.Aead.Draining.{IsReadOf, ended, read_all, read_all-decrypt_stream_with}
use file_sec.Aead.Totality.{HasResult, encrypt_stream_with-decrypt_stream_with_total}

abbrev prefix : Bytes
prefix = replicate 19 7

decrypt_stream_with-encrypt_stream_with_example :
    (ct : Bytes) × (encrypt_stream_with
        (toy_ciphers toy_decrypt)
        xchacha20_poly1305
        []
        prefix
        []
        (1 ∷ 2 ∷ 3 ∷ [])
        []
        2
      ≡ some (ok (length ct), [] ++ ct))
    × (length ct ≡ data_ciphertext_len 3 2)
    × (decrypt_stream_with (toy_ciphers toy_decrypt) xchacha20_poly1305 [] prefix [] ct (9 ∷ []) 2
        ≡ some (ok 3, 9 ∷ 1 ∷ 2 ∷ 3 ∷ []))
unfolding stream_nonce_len num_chunks data_ciphertext_len
decrypt_stream_with-encrypt_stream_with_example =
    decrypt_stream_with-encrypt_stream_with (toy_ciphers toy_decrypt) xchacha20_poly1305 [] prefix
      [] 2 (toy_ciphers-IsAead xchacha20_poly1305 [])
      (toy_ciphers-IsStream toy_decrypt xchacha20_poly1305 [] prefix) refl (omega arith)
      (omega arith) (1 ∷ 2 ∷ 3 ∷ []) [] (9 ∷ []) (omega arith)

decrypt_chunk_with-encrypt_stream_with_example :
    decrypt_chunk_with
      (toy_ciphers toy_decrypt)
      xchacha20_poly1305
      []
      prefix
      []
      1
      true
      (3 ∷ toy_tag (chunk_nonce prefix 1 true))
    ≡ ok (3 ∷ [])
unfolding stream_nonce_len num_chunks data_ciphertext_len encrypt_stream_with encrypt_loop
    stream_checks be_bytes from_be_bytes nonce_len
decrypt_chunk_with-encrypt_stream_with_example =
    decrypt_chunk_with-encrypt_stream_with (toy_ciphers toy_decrypt) xchacha20_poly1305 [] prefix []
      2 (toy_ciphers-IsAead xchacha20_poly1305 [])
      (toy_ciphers-IsStream toy_decrypt xchacha20_poly1305 [] prefix) refl (omega arith)
      (omega arith) (1 ∷ 2 ∷ 3 ∷ [])
      (1 ∷ 2 ∷ toy_tag (chunk_nonce prefix 0 false) ++ 3 ∷ toy_tag (chunk_nonce prefix 1 true)) 35 1
      (omega arith) refl (omega arith)

-- A cipher that opens only the two chunks that the sender sealed.
abbrev sent : List Bytes
sent = (1 ∷ 2 ∷ []) ∷ (3 ∷ []) ∷ []

abbrev strict_decrypt : Bytes → Bytes → Option Bytes
strict_decrypt nonce ct =
    if text_eq nonce (chunk_nonce prefix 0 false) && text_eq ct (1 ∷ 2 ∷ toy_tag nonce)
    then some (1 ∷ 2 ∷ [])
    else if text_eq nonce (chunk_nonce prefix 1 true) && text_eq ct (3 ∷ toy_tag nonce)
    then some (3 ∷ [])
    else none

strict_decrypt-IsAuthentic :
    IsAuthentic (toy_ciphers strict_decrypt) xchacha20_poly1305 [] prefix [] sent
strict_decrypt-IsAuthentic nonce ct m h =
    let first = text_eq nonce (chunk_nonce prefix 0 false) && text_eq ct (1 ∷ 2 ∷ toy_tag nonce) in
    let second = text_eq nonce (chunk_nonce prefix 1 true) && text_eq ct (3 ∷ toy_tag nonce) in
    elim (Bool-cases first) [
      | inl a ↦ (
        0,
        (text_eq_iff nonce (chunk_nonce prefix 0 false)).0
            (and-eq-true (text_eq nonce (chunk_nonce prefix 0 false))
              (text_eq ct (1 ∷ 2 ∷ toy_tag nonce)) a).0,
        rw (a) at h,
      )
      | inr a ↦ elim (Bool-cases second) [
        | inl b ↦ (
          1,
          (text_eq_iff nonce (chunk_nonce prefix 1 true)).0
              (and-eq-true (text_eq nonce (chunk_nonce prefix 1 true))
                (text_eq ct (3 ∷ toy_tag nonce)) b).0,
          rw (a, b) at h,
        )
        | inr b ↦ absurd (ground arith)
      ]
    ]

-- The last chunk of the stream is cut off.
decrypt_stream_with-IsPrefix_example : IsPrefix sent [] (err auth, [])
unfolding stream_nonce_len decrypt_stream_with decrypt_loop stream_checks be_bytes from_be_bytes
    nonce_len text_eq
decrypt_stream_with-IsPrefix_example =
    decrypt_stream_with-IsPrefix (toy_ciphers strict_decrypt) xchacha20_poly1305 [] prefix [] sent
      (toy_ciphers-IsStream strict_decrypt xchacha20_poly1305 [] prefix) strict_decrypt-IsAuthentic
      (omega arith) (1 ∷ 2 ∷ toy_tag (chunk_nonce prefix 0 false)) [] 2 (err auth, []) refl

encrypt_stream_with-decrypt_stream_with_total_example :
    HasResult (
      encrypt_stream_with
        (toy_ciphers toy_decrypt)
        aes256_gcm
        []
        (replicate 7 0)
        []
        (1 ∷ 2 ∷ [])
        []
        1)
    × HasResult (
        decrypt_stream_with
          (toy_ciphers toy_decrypt)
          aes256_gcm
          []
          (replicate 7 0)
          []
          (1 ∷ 2 ∷ [])
          []
          1)
encrypt_stream_with-decrypt_stream_with_total_example =
    encrypt_stream_with-decrypt_stream_with_total (toy_ciphers toy_decrypt) aes256_gcm []
      (replicate 7 0) [] (1 ∷ 2 ∷ []) [] 1

abbrev two_chunks : Bytes
two_chunks = 1 ∷ 2 ∷ toy_tag (chunk_nonce prefix 0 false) ++ 3 ∷ toy_tag (chunk_nonce prefix 1 true)

abbrev opened : StreamDecryptReader (toy_ciphers toy_decrypt)
opened = record {
  dec = some (prefix, 0);
  reader = 3 ∷ toy_tag (chunk_nonce prefix 1 true);
  aad = [];
  enc_chunk = 18;
  current = 1 ∷ 2 ∷ toy_tag (chunk_nonce prefix 0 false);
  plain = [];
  pos = 0;
  finished = false;
}

read_all-decrypt_stream_with_example :
    IsReadOf 3 (ok 3) (1 ∷ 2 ∷ 3 ∷ []) (read_all (toy_ciphers toy_decrypt) (1 ∷ 5 ∷ 5 ∷ []) opened)
unfolding new_with decrypt_stream_with decrypt_loop stream_checks stream_nonce_len nonce_len
    be_bytes from_be_bytes text_eq
read_all-decrypt_stream_with_example =
    read_all-decrypt_stream_with (toy_ciphers toy_decrypt) xchacha20_poly1305 [] prefix []
      two_chunks (1 ∷ 2 ∷ 3 ∷ []) 2 (ok 3) opened (1 ∷ 5 ∷ 5 ∷ []) refl refl
      (omega arith, (omega arith, (omega arith, tt)))

-- Two of the three reads above, and the end.
reads_in_pieces :
    read_all (toy_ciphers toy_decrypt) (1 ∷ 5 ∷ 5 ∷ 5 ∷ []) opened ≡ (1 ∷ 2 ∷ 3 ∷ [], ended)
unfolding read_all read_stream be_bytes from_be_bytes text_eq
reads_in_pieces = refl
