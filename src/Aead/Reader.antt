-- ===== src/Aead/Reader.antt =====
-- crates/filesec-core/src/aead.rs: the reader that decrypts a stream while it is read. The reader below it
-- is the bytes that it still holds.
use file_sec.Prelude.{
  String, ℕ, zero, suc, ◌+◌, ◌-◌, min, Bool, true, false, Option, none, some, [], length, take,
  drop, is_empty, if◌then◌else◌, ltb,
}
use file_sec.Errors.{Error, io, Result, ok, err, ◌>>◌, auth, format}
use file_sec.State.{Bytes}
use file_sec.Suite.{AeadAlg, xchacha20_poly1305}
use file_sec.Manifest.{tag_len}
use file_sec.Aead.{Ciphers, stream_checks}

pub record StreamDecryptReader (c : Ciphers) : Type 0 where
  pub dec : Option c.Decryptor
  pub reader : Bytes
  pub aad : Bytes
  pub enc_chunk : ℕ
  pub current : Bytes
  pub plain : Bytes
  pub pos : ℕ
  pub finished : Bool

-- The `io::Error` of a read: one that comes from the reader below, or an error of this crate that is wrapped
-- as invalid data.
pub data ReadError : Type 0 where
  passed : String → ReadError
  invalid_data : Error → ReadError

unfoldable pub read_error : Error → ReadError
read_error (io failure) = passed failure
read_error failure = invalid_data failure

pub data ReadResult : Type 0 where
  gave : Bytes → ReadResult
  failed : ReadError → ReadResult

module _ (c : Ciphers) where
  unfoldable pub new_with :
      AeadAlg → Bytes → Bytes → Bytes → Bytes → ℕ → Result (StreamDecryptReader c)
  new_with alg key stream_nonce aad reader chunk_size = do
    stream_checks alg stream_nonce chunk_size
    let enc_chunk = chunk_size + tag_len
    ok (record {
      dec = some (c.decryptor alg key stream_nonce);
      reader = drop enc_chunk reader;
      aad = aad;
      enc_chunk = enc_chunk;
      current = take enc_chunk reader;
      plain = [];
      pos = 0;
      finished = false;
    })

  -- `StreamDecryptReader::new`
  unfoldable pub new_reader : Bytes → Bytes → Bytes → Bytes → ℕ → Result (StreamDecryptReader c)
  unfolding new_with
  new_reader key stream_nonce aad reader chunk_size =
      new_with xchacha20_poly1305 key stream_nonce aad reader chunk_size

  -- The last chunk: the decryptor is used up.
  abbrev pub refill_last : StreamDecryptReader c → c.Decryptor → Result Bool × StreamDecryptReader c
  refill_last s d = elim (c.decrypt_last d s.aad s.current) [
    | none ↦ (err auth, record s { dec = none })
    | some pt ↦ (ok true, record s { dec = none; plain = pt; pos = 0; finished = true })
  ]

  abbrev pub refill_next :
      StreamDecryptReader c → c.Decryptor → Bytes → Result Bool × StreamDecryptReader c
  refill_next s d next = elim (c.decrypt_next d s.aad s.current) [
    | none ↦ (err auth, s)
    | some (d2, pt) ↦ (ok true, record s { dec = some d2; current = next; plain = pt; pos = 0 })
  ]

  unfoldable pub refill : StreamDecryptReader c → Result Bool × StreamDecryptReader c
  refill s = elim s.finished [
    | true ↦ (ok false, s)
    | false ↦
        let next = take s.enc_chunk s.reader in
        let moved = record s { reader = drop s.enc_chunk s.reader } in
        elim s.dec [
          | none ↦ (err (format "stream state"), moved)
          | some d ↦ elim (is_empty next) [
            | true ↦ refill_last moved d
            | false ↦ refill_next moved d next
          ]
        ]
  ]

  -- From the chunk that is decrypted.
  abbrev pub deliver : ℕ → StreamDecryptReader c → ReadResult × StreamDecryptReader c
  deliver room s =
      let n = min (length s.plain - s.pos) room in
      (gave (take n (drop s.pos s.plain)), record s { pos = s.pos + n })

  -- The refills that can give a chunk: each of them but the last takes bytes off the reader.
  abbrev pub rounds : StreamDecryptReader c → ℕ
  rounds s = if s.finished then 0 else suc (length s.reader)

  abbrev pub after_refill :
      (StreamDecryptReader c → ReadResult × StreamDecryptReader c)
      → Result Bool × StreamDecryptReader c
      → ReadResult × StreamDecryptReader c
  after_refill continue (err failure, s2) = (failed (read_error failure), s2)
  after_refill continue (ok true, s2) = continue s2
  after_refill continue (ok false, s2) = (gave [], s2)

  -- The loop of `read`; without rounds left the stream is finished.
  unfoldable pub read_within : ℕ → ℕ → StreamDecryptReader c → ReadResult × StreamDecryptReader c
  unfolding refill read_error
  read_within zero room s = if ltb s.pos (length s.plain) then deliver room s else (gave [], s)
  read_within (suc n) room s = elim (ltb s.pos (length s.plain)) [
    | true ↦ deliver room s
    | false ↦ after_refill (λ s2. read_within n room s2) (refill s)
  ]

  unfoldable pub read_stream : ℕ → StreamDecryptReader c → ReadResult × StreamDecryptReader c
  unfolding read_within
  read_stream room s = read_within (rounds s) room s
