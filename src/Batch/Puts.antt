-- ===== src/Batch/Puts.antt =====
-- crates/filesec-core/src/format_v2.rs: the edits of `VaultBatch` that put a file, and the blob that it is
-- written to. A method returns its result beside the batch and the blobs on disk. BLAKE3, the encryption
-- of a blob under the vault's header and `char::to_uppercase` are parameters.
use file_sec.Prelude.{ℕ, ℤ, not, ◌||◌, Option, ◌∷◌, length, if◌then◌else◌, ◌==◌, Text, text_eq}
use file_sec.Errors.{Error, Result, ok, err, auth}
use file_sec.Paths.{normalize_path, normalize_stored_path}
use file_sec.Tree.{andthen}
use file_sec.Vault.{on_path}
use file_sec.State.{Bytes}
use file_sec.Blobs.{Blobs, remove_file}
use file_sec.Batch.{VaultBatch}
use file_sec.Batch.Ops.{StagedBlob, FileInfo, place, reject_dir, count_op}

-- The batch and the blobs on disk, which `put_file` and `put_bytes` write to.
abbrev pub Work : Type 0
Work = VaultBatch × Blobs

-- A method that leaves the disk alone.
abbrev pub on_batch :
    (VaultBatch → Result (Unit {0}) × VaultBatch) → Work → Result (Unit {0}) × Work
on_batch method (b, blobs) = let (r, c) = method b in (r, (c, blobs))

abbrev pub place_staged :
    Text → FileInfo → VaultBatch → Result StagedBlob × Blobs → Result (Unit {0}) × Work
place_staged norm info b (err e, blobs) = (err e, (b, blobs))
place_staged norm info b (ok staged, blobs) = on_batch (place norm staged info) (b, blobs)

-- The source of a put cannot be read: nothing is written, and a directory at the path is what is
-- complained of first.
abbrev pub refused : Error → Text → Work → Result (Unit {0}) × Work
refused e norm w = elim (reject_dir w.0 norm) [ err f ↦ (err f, w) | ok free ↦ (err e, w) ]

module _ (blake3 : Bytes → Bytes) (encrypt : Bytes → Bytes → Bytes → Result Bytes) where
  -- The blob of a source that has been hashed before: the bytes that are encrypted are hashed again.
  -- `fresh` is the id, the key and the nonce that were drawn.
  unfoldable pub write_blob : Bytes → ℕ → Bytes → StagedBlob → Blobs → Result StagedBlob × Blobs
  unfolding remove_file
  write_blob hash size source fresh blobs = elim (encrypt fresh.key fresh.nonce source) [
    | err e ↦ (err e, blobs)
    | ok ciphertext ↦
        let written = (fresh.file_id, ciphertext) ∷ remove_file fresh.file_id blobs in
        if not (length source == size) || not (text_eq (blake3 source) hash)
        then (err auth, remove_file fresh.file_id written)
        else (ok fresh, written)
  ]

  -- After the checks of a put: the blob is written and its entry placed.
  unfoldable pub put_at : Bytes → FileInfo → StagedBlob → Text → Work → Result (Unit {0}) × Work
  unfolding write_blob reject_dir place
  put_at source info fresh norm (b, blobs) = elim (reject_dir b norm) [
    | err e ↦ (err e, (b, blobs))
    | ok free ↦ place_staged norm info b (write_blob info.blake3 info.size source fresh blobs)
  ]

  -- The checks of a put of a file on disk and what follows them. The file is read twice: to hash it, and
  -- to encrypt it.
  unfoldable pub put_read :
      Result Bytes
      → Result Bytes
      → Option ℤ
      → Option ℕ
      → StagedBlob
      → Text
      → Work
      → Result (Unit {0}) × Work
  unfolding put_at reject_dir
  put_read (err e) second mtime mode fresh = refused e
  put_read (ok first) (err e) mtime mode fresh = refused e
  put_read (ok first) (ok second) mtime mode fresh =
      put_at second
        (record { blake3 = blake3 first; size = length first; mtime = mtime; mode = mode }) fresh

  module _ (to_upper : ℕ → Text) where
    unfoldable pub put_bytes :
        Text → Bytes → Option ℤ → Option ℕ → StagedBlob → Work → Result (Unit {0}) × Work
    unfolding put_at count_op
    put_bytes vault_path bytes mtime mode fresh w = andthen (on_batch count_op w) (
        on_path (normalize_path to_upper vault_path) (
          put_at bytes
            (record { blake3 = blake3 bytes; size = length bytes; mtime = mtime; mode = mode })
            fresh))

    -- `first` is what reading the file on disk gives when it is hashed, `second` what opening and reading
    -- it gives when it is encrypted.
    unfoldable pub put_file :
        Text
        → Result Bytes
        → Result Bytes
        → Option ℤ
        → Option ℕ
        → StagedBlob
        → Work
        → Result (Unit {0}) × Work
    unfolding put_read count_op
    put_file vault_path first second mtime mode fresh w =
        andthen (on_batch count_op w)
          (on_path (normalize_path to_upper vault_path) (put_read first second mtime mode fresh))

    unfoldable pub put_stream_trusted :
        Text
        → Bytes
        → ℕ
        → Bytes
        → Option ℤ
        → Option ℕ
        → StagedBlob
        → Work
        → Result (Unit {0}) × Work
    unfolding put_at
    put_stream_trusted path hash size source mtime mode fresh =
        on_path (normalize_stored_path to_upper path)
          (put_at source (record { blake3 = hash; size = size; mtime = mtime; mode = mode }) fresh)
