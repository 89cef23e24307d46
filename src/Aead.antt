-- ===== src/Aead.antt =====
-- crates/filesec-core/src/aead.rs: sealing with one nonce, and streams of chunks. The ciphers and the
-- STREAM construction of the `aead` package are parameters; a `SymKey` has the length that both ciphers
-- take, so making a cipher does not fail. A reader is the bytes that it still holds and a writer the
-- bytes that it was given.

pub mod Laws
pub mod Steps
pub mod Loops
pub mod Roundtrip
pub mod Toy
mod Tests
pub mod Integrity
pub mod Totality
pub mod Reader
pub mod Wrapping
pub mod Refilling
pub mod Reading
pub mod Draining
use file_sec.Prelude.{
  ℕ, zero, suc, ◌+◌, ◌≡◌, Bool, true, false, not, ◌||◌, Option, none, some, List, [], ◌∷◌, ◌++◌,
  length, take, drop, is_empty, if◌then◌else◌, ltb, ◌==◌, be_bytes,
}
use file_sec.Errors.{Error, Result, ok, err, ◌>>=◌, ◌>>◌, fail_if, auth, format}
use file_sec.State.{Bytes}
use file_sec.Suite.{AeadAlg, xchacha20_poly1305, nonce_len, stream_nonce_len}
use file_sec.Manifest.{tag_len}
use file_sec.Blobs.{max_chunk_size}

-- What the code calls of the ciphers' packages. `none` stands for their one error.
pub record Ciphers : Type 1 where
  -- key, nonce, associated data, message
  pub encrypt : AeadAlg → Bytes → Bytes → Bytes → Bytes → Option Bytes
  pub decrypt : AeadAlg → Bytes → Bytes → Bytes → Bytes → Option Bytes
  -- `EncryptorBE32` and `DecryptorBE32`
  pub Encryptor : Type 0
  pub Decryptor : Type 0
  pub encryptor : AeadAlg → Bytes → Bytes → Encryptor
  pub decryptor : AeadAlg → Bytes → Bytes → Decryptor
  -- associated data, message
  pub encrypt_next : Encryptor → Bytes → Bytes → Option (Encryptor × Bytes)
  pub encrypt_last : Encryptor → Bytes → Bytes → Option Bytes
  pub decrypt_next : Decryptor → Bytes → Bytes → Option (Decryptor × Bytes)
  pub decrypt_last : Decryptor → Bytes → Bytes → Option Bytes

-- `map_err(|_| Error::Auth)`
abbrev pub or_auth : Option Bytes → Result Bytes
or_auth none = err auth
or_auth (some bytes) = ok bytes

-- What a stream returns, and what its writer was given until then.
abbrev pub Streamed : Type 0
Streamed = Result ℕ × Bytes

-- The step that ends a stream: it writes the last chunk, or fails.
abbrev pub finish : Option Bytes → Bytes → ℕ → Streamed
finish none out written = (err auth, out)
finish (some chunk) out written = (ok (written + length chunk), out ++ chunk)

unfoldable pub stream_checks : AeadAlg → Bytes → ℕ → Result (Unit {0})
stream_checks alg stream_nonce chunk_size = do
  fail_if (not (length stream_nonce == stream_nonce_len alg)) (format "stream nonce length")
  fail_if (chunk_size == 0 || ltb max_chunk_size chunk_size) (format "chunk size")

abbrev pub flag_byte : Bool → ℕ
flag_byte true = 1
flag_byte false = 0

-- The nonce of a chunk: the prefix, the big-endian index, the last-chunk flag.
abbrev pub chunk_nonce : Bytes → ℕ → Bool → Bytes
chunk_nonce stream_nonce index is_last = stream_nonce ++ be_bytes 4 index ++ flag_byte is_last ∷ []

module _ (c : Ciphers) where
  unfoldable pub seal_with : AeadAlg → Bytes → Bytes → Bytes → Bytes → Result Bytes
  seal_with alg key nonce aad plaintext = do
    fail_if (not (length nonce == nonce_len alg)) (format "aead nonce length")
    or_auth (c.encrypt alg key nonce aad plaintext)

  unfoldable pub open_with : AeadAlg → Bytes → Bytes → Bytes → Bytes → Result Bytes
  open_with alg key nonce aad ciphertext = do
    fail_if (not (length nonce == nonce_len alg)) (format "aead nonce length")
    or_auth (c.decrypt alg key nonce aad ciphertext)

  unfoldable pub aead_seal : Bytes → Bytes → Bytes → Bytes → Result Bytes
  aead_seal key nonce aad plaintext = seal_with xchacha20_poly1305 key nonce aad plaintext

  unfoldable pub aead_open : Bytes → Bytes → Bytes → Bytes → Result Bytes
  aead_open key nonce aad ciphertext = open_with xchacha20_poly1305 key nonce aad ciphertext

  -- The loop of `encrypt_stream_with`: fuel, the encryptor, the chunk read ahead, the reader, the writer
  -- and the count. Without fuel there is no result.
  unfoldable pub encrypt_loop :
      Bytes → ℕ → ℕ → c.Encryptor → Bytes → Bytes → Bytes → ℕ → Option Streamed
  encrypt_loop aad chunk_size zero enc current reader out written = none
  encrypt_loop aad chunk_size (suc fuel) enc current reader out written =
      elim (is_empty (take chunk_size reader)) [
        | true ↦ some (finish (c.encrypt_last enc aad current) out written)
        | false ↦ elim (c.encrypt_next enc aad current) [
          | none ↦ some (err auth, out)
          | some (enc2, ct) ↦
              encrypt_loop aad chunk_size fuel enc2 (take chunk_size reader)
                (drop chunk_size reader) (out ++ ct) (written + length ct)
        ]
      ]

  -- The loop of `decrypt_stream_with`, on chunks of `enc_chunk` bytes.
  unfoldable pub decrypt_loop :
      Bytes → ℕ → ℕ → c.Decryptor → Bytes → Bytes → Bytes → ℕ → Option Streamed
  decrypt_loop aad enc_chunk zero dec current reader out written = none
  decrypt_loop aad enc_chunk (suc fuel) dec current reader out written =
      elim (is_empty (take enc_chunk reader)) [
        | true ↦ some (finish (c.decrypt_last dec aad current) out written)
        | false ↦ elim (c.decrypt_next dec aad current) [
          | none ↦ some (err auth, out)
          | some (dec2, pt) ↦
              decrypt_loop aad enc_chunk fuel dec2 (take enc_chunk reader) (drop enc_chunk reader)
                (out ++ pt) (written + length pt)
        ]
      ]

  -- Fuel for one chunk per byte of the reader and for the last chunk.
  unfoldable pub encrypt_stream_with :
      AeadAlg → Bytes → Bytes → Bytes → Bytes → Bytes → ℕ → Option Streamed
  encrypt_stream_with alg key stream_nonce aad reader out chunk_size =
      elim (stream_checks alg stream_nonce chunk_size) [
        | err failure ↦ some (err failure, out)
        | ok done ↦
            encrypt_loop aad chunk_size (suc (length reader)) (c.encryptor alg key stream_nonce)
              (take chunk_size reader) (drop chunk_size reader) out 0
      ]

  unfoldable pub decrypt_stream_with :
      AeadAlg → Bytes → Bytes → Bytes → Bytes → Bytes → ℕ → Option Streamed
  decrypt_stream_with alg key stream_nonce aad reader out chunk_size =
      elim (stream_checks alg stream_nonce chunk_size) [
        | err failure ↦ some (err failure, out)
        | ok done ↦
            let enc_chunk = chunk_size + tag_len in
            decrypt_loop aad enc_chunk (suc (length reader)) (c.decryptor alg key stream_nonce)
              (take enc_chunk reader) (drop enc_chunk reader) out 0
      ]

  -- One chunk of a stream by its index.
  unfoldable pub decrypt_chunk_with :
      AeadAlg → Bytes → Bytes → Bytes → ℕ → Bool → Bytes → Result Bytes
  decrypt_chunk_with alg key stream_nonce aad index is_last ciphertext = do
    fail_if (not (length stream_nonce == stream_nonce_len alg)) (format "stream nonce length")
    open_with alg key (chunk_nonce stream_nonce index is_last) aad ciphertext
