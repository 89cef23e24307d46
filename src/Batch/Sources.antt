-- ===== src/Batch/Sources.antt =====
-- The file on disk that a put reads (crates/filesec-core/src/format_v2.rs): when it cannot be read, the
-- batch and the blobs are what they were.
use file_sec.Prelude.{ℕ, ℤ, ◌≡◌, refl, subst, sym, Option, length, inl, inr, Text}
use file_sec.Errors.{Error, Result, Result-cases, ok, err}
use file_sec.State.{Bytes}
use file_sec.Batch.Ops.{StagedBlob, FileInfo, reject_dir}
use file_sec.Batch.Puts.{Work, refused, put_at, put_read}

refused-keeps : (e : Error) (norm : Text) (w : Work) → (refused e norm w).1 ≡ w
refused-keeps e norm w = elim (Result-cases (reject_dir w.0 norm)) [
  | inr (f, x) ↦ rw (x, refused) refl
  | inl (free, x) ↦ rw (x, refused) refl
]

refused-fails : (e : Error) (norm : Text) (w : Work) → ¬ (refused e norm w).0 ≡ ok tt
refused-fails e norm w done = elim (Result-cases (reject_dir w.0 norm)) [
  | inr (f, x) ↦ absurd (let h = rw (x, refused) at done in cc)
  | inl (free, x) ↦ absurd (let h = rw (x, refused) at done in cc)
]

module _ (blake3 : Bytes → Bytes) (encrypt : Bytes → Bytes → Bytes → Result Bytes)
    (fresh : StagedBlob) (mtime : Option ℤ) (mode : Option ℕ) where
  pub put_read-keeps :
      (P : Work → Type 0)
      → ((source : Bytes) (info : FileInfo) (norm : Text) (w : Work)
          → P w
          → P (put_at blake3 encrypt source info fresh norm w).1)
      → (first second : Result Bytes) (norm : Text) (w : Work) → P w
      → P (put_read blake3 encrypt first second mtime mode fresh norm w).1
  unfolding put_read
  put_read-keeps P puts (err e) second norm w h = subst P (sym (refused-keeps e norm w)) h
  put_read-keeps P puts (ok first) (err e) norm w h = subst P (sym (refused-keeps e norm w)) h
  put_read-keeps P puts (ok first) (ok second) norm w h =
      puts second
        (record { blake3 = blake3 first; size = length first; mtime = mtime; mode = mode }) norm w h

  pub put_read-reaches :
      (P Q : Work → Type 0)
      → ((source : Bytes) (info : FileInfo) (norm : Text) (w : Work)
          → P w
          → (put_at blake3 encrypt source info fresh norm w).0 ≡ ok tt
          → Q (put_at blake3 encrypt source info fresh norm w).1)
      → (first second : Result Bytes) (norm : Text) (w : Work) → P w
      → (put_read blake3 encrypt first second mtime mode fresh norm w).0 ≡ ok tt
      → Q (put_read blake3 encrypt first second mtime mode fresh norm w).1
  unfolding put_read
  put_read-reaches P Q puts (err e) second norm w h done = absurd (refused-fails e norm w done)
  put_read-reaches P Q puts (ok first) (err e) norm w h done = absurd (refused-fails e norm w done)
  put_read-reaches P Q puts (ok first) (ok second) norm w h done =
      puts second
        (record { blake3 = blake3 first; size = length first; mtime = mtime; mode = mode }) norm w h
        done
