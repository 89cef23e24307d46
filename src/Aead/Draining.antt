-- ===== src/Aead/Draining.antt =====
-- crates/filesec-core/src/aead.rs: a stream that is read in pieces, against the loop that decrypts it at once.
use file_sec.Prelude.{
  ℕ, zero, suc, ◌≤◌, ◌≡◌, refl, sym, ap, ◌∙◌, List, [], ◌∷◌, ◌++◌, All, length, ++-assoc,
  length-append, some, arith,
}
use file_sec.Errors.{Error, Result, ok, err}
use file_sec.State.{Bytes}
use file_sec.Suite.{AeadAlg}
use file_sec.Aead.{Ciphers, decrypt_stream_with}
use file_sec.Aead.Reader.{
  ReadError, ReadResult, gave, failed, StreamDecryptReader, new_with, rounds, read_stream,
}
use file_sec.Aead.Wrapping.{IsWrapped}
use file_sec.Aead.Refilling.{Agrees, new_with-Agrees}
use file_sec.Aead.Reading.{ReadOf, read_within_lem}

-- How a row of reads leaves the stream.
pub data Ending : Type 0 where
  open_still ended : Ending
  stopped : ReadError → Ending

abbrev pub and_then : Bytes → Bytes × Ending → Bytes × Ending
and_then bytes (later, ending) = (bytes ++ later, ending)

module _ (c : Ciphers) where
  abbrev pub after_read :
      (StreamDecryptReader c → Bytes × Ending) → ReadResult × StreamDecryptReader c → Bytes × Ending
  after_read continue (failed f, s) = ([], stopped f)
  after_read continue (gave [], s) = ([], ended)
  after_read continue (gave (b ∷ bytes), s) = and_then (b ∷ bytes) (continue s)

  -- Reads into buffers of some lengths, until one gives nothing or fails.
  unfoldable pub read_all : List ℕ → StreamDecryptReader c → Bytes × Ending
  read_all [] s = ([], open_still)
  read_all (room ∷ rooms) s = after_read (λ s2. read_all rooms s2) (read_stream c room s)

-- What reads give of a stream that would be decrypted to a result and some output: a part of the output, at
-- least a byte for each read, or all of it with the same result.
abbrev pub IsReadOf : ℕ → Result ℕ → Bytes → Bytes × Ending → Type 0
IsReadOf reads res out (bytes, open_still) =
    (later : Bytes) × (out ≡ bytes ++ later) × (reads ≤ length bytes)
IsReadOf reads res out (bytes, ended) = (bytes ≡ out) × (n : ℕ) × (res ≡ ok n)
IsReadOf reads res out (bytes, stopped f) =
    (bytes ≡ out) × (e : Error) × IsWrapped e f × (res ≡ err e)

module _ (c : Ciphers) where
  and_then_lem :
      (reads : ℕ) (res : Result ℕ) (whole later bytes : Bytes) (r : Bytes × Ending)
      → whole ≡ bytes ++ later
      → 1 ≤ length bytes
      → IsReadOf reads res later r
      → IsReadOf (suc reads) res whole (and_then bytes r)
  and_then_lem reads res whole later bytes (more, open_still) same any (rest, split, enough) = (
    rest,
    same ∙ ap (λ xs. bytes ++ xs) split ∙ sym (++-assoc bytes more rest),
    omega (arith, length-append bytes more),
  )
  and_then_lem reads res whole later bytes (more, ended) same any (all, n, good) =
      (ap (λ xs. bytes ++ xs) all ∙ sym same, n, good)
  and_then_lem reads res whole later bytes (more, stopped f) same any (all, e, wrapped, bad) =
      (ap (λ xs. bytes ++ xs) all ∙ sym same, e, wrapped, bad)

  read_lem :
      (room : ℕ) (rooms : List ℕ) (res : Result ℕ) (whole : Bytes)
      (r : ReadResult × StreamDecryptReader c)
      → ReadOf c room res whole r
      → ((s2 : StreamDecryptReader c) (later : Bytes)
          → Agrees c s2 res later
          → IsReadOf (length rooms) res later (read_all c rooms s2))
      → IsReadOf (suc (length rooms)) res whole (after_read c (λ s2. read_all c rooms s2) r)
  read_lem room rooms res whole (failed f, s2) (e, wrapped, bad, nothing) next =
      (sym nothing, e, wrapped, bad)
  read_lem room rooms res whole (gave [], s2) (nothing, n, good) next = (sym nothing, n, good)
  read_lem room rooms res whole (gave (b ∷ bytes), s2) (later, same, a) next =
      and_then_lem (length rooms) res whole later (b ∷ bytes) (read_all c rooms s2) same
        (omega arith) (next s2 later a)

  read_all_lem :
      (rooms : List ℕ) (s : StreamDecryptReader c) (res : Result ℕ) (whole : Bytes)
      → All (λ room. 1 ≤ room) rooms
      → Agrees c s res whole
      → IsReadOf (length rooms) res whole (read_all c rooms s)
  unfolding read_all read_stream
  read_all_lem [] s res whole h a = (whole, refl, omega arith)
  read_all_lem (zero ∷ rooms) s res whole h a = absurd (omega (arith, h.0))
  read_all_lem (suc room ∷ rooms) s res whole h a =
      read_lem room rooms res whole (read_stream c (suc room) s)
        (read_within_lem c (rounds c s) room s res whole (omega arith) a)
        (λ s2 later b. read_all_lem rooms s2 res later h.1 b)

  -- Decrypting a stream while it is read gives what decrypting it at once writes, whatever the lengths of
  -- the buffers: up to any point the front of it, at least a byte with each read, at the end all of it if
  -- that succeeds, and if it fails, after the same bytes the same error, as
  -- an error of the reader: one of input as it is, any other wrapped as invalid data.
  pub read_all-decrypt_stream_with :
      (alg : AeadAlg) (key stream_nonce aad reader out : Bytes) (size : ℕ) (res : Result ℕ)
      (s : StreamDecryptReader c) (rooms : List ℕ)
      → new_with c alg key stream_nonce aad reader size ≡ ok s
      → decrypt_stream_with c alg key stream_nonce aad reader [] size ≡ some (res, out)
      → All (λ room. 1 ≤ room) rooms
      → IsReadOf (length rooms) res out (read_all c rooms s)
  read_all-decrypt_stream_with alg key stream_nonce aad reader out size res s rooms made runs h =
      read_all_lem rooms s res out h
        (new_with-Agrees c alg key stream_nonce aad reader out size res s made runs)
