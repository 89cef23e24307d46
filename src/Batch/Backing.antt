-- ===== src/Batch/Backing.antt =====
-- The blobs that a vault needs (crates/filesec-core/src/format_v2.rs): whatever a batch does, every blob
-- that the manifest in use names stays on disk.
use file_sec.Prelude.{
  ap, sym, ℕ, ◌+◌, ◌≤◌, ◌≡◌, refl, ◌∙◌, Bool, true, not, ◌||◌, none, List, [], ◌∷◌, length, ◌==◌,
  if◌then◌else◌, Bool-cases, inl, inr, Text, text_eq, text_eq_iff, text_eq_refl, arith,
}
use file_sec.Errors.{Result, Result-cases, ok}
use file_sec.State.{Bytes}
use file_sec.Blobs.{Blobs, remove_file, open_file}
use file_sec.Batch.{VaultBatch}
use file_sec.Batch.Ops.{StagedBlob, FileInfo, reject_dir, is_some}
use file_sec.Batch.Puts.{Work, on_batch, place_staged, write_blob, put_at}
use file_sec.Batch.Commit.{remove_files}
use file_sec.Batch.Counting.{count}
use file_sec.Batch.Keeping.{IsBacked, place-IsBacked}

abbrev pub on_disk : Blobs → Text → Bool
on_disk blobs id = is_some (open_file id blobs)

pub open_file-remove_file :
    (id x : Text) (blobs : Blobs)
    → open_file id (remove_file x blobs) ≡ (if text_eq x id then none else open_file id blobs)
unfolding open_file remove_file
open_file-remove_file id x [] = ground arith
open_file-remove_file id x (b ∷ blobs) = ground (
  arith,
  open_file-remove_file id x blobs,
  text_eq_iff b.0 x,
  text_eq_iff b.0 id,
  text_eq_iff x id,
)

pub open_file-remove_files :
    (gone : Text → Bool) (id : Text) (ids : List Text) (blobs : Blobs)
    → count id ids ≡ 0
    → open_file id (remove_files gone ids blobs) ≡ open_file id blobs
unfolding remove_files
open_file-remove_files gone id [] blobs h = refl
open_file-remove_files gone id (x ∷ ids) blobs h = elim (Bool-cases (gone x)) [
  | inl removed ↦ rw removed (
      open_file-remove_files gone id ids (remove_file x blobs) (ground arith)
      ∙ ground (arith, open_file-remove_file id x blobs))
  | inr kept ↦ rw kept (open_file-remove_files gone id ids blobs (ground arith))
]

on_disk-remove_file :
    (a b : Blobs) (x : Text)
    → ((id : Text) → on_disk a id ≡ true → on_disk b id ≡ true)
    → (id : Text) → on_disk (remove_file x a) id ≡ true
    → on_disk (remove_file x b) id ≡ true
on_disk-remove_file a b x h id there = elim (Bool-cases (text_eq x id)) [
  | inl same ↦
      absurd (let missing = rw same at (open_file-remove_file id x a) in ground (arith, missing))
  | inr other ↦
      ap is_some (rw other at (open_file-remove_file id x b))
      ∙ h id (sym (ap is_some (rw other at (open_file-remove_file id x a))) ∙ there)
]

on_disk-kept :
    (x : Text) (blobs : Blobs) (id : Text)
    → on_disk (remove_file x blobs) id ≡ true
    → on_disk blobs id ≡ true
on_disk-kept x blobs id h = ground (arith, h, open_file-remove_file id x blobs)

-- When some removals fail, at least the blobs are on disk that are there when all of them succeed.
pub on_disk-remove_files :
    (gone : Text → Bool) (ids : List Text) (a b : Blobs)
    → ((id : Text) → on_disk a id ≡ true → on_disk b id ≡ true)
    → (id : Text) → on_disk (remove_files (λ x. true) ids a) id ≡ true
    → on_disk (remove_files gone ids b) id ≡ true
unfolding remove_files
on_disk-remove_files gone [] a b h id there = h id there
on_disk-remove_files gone (x ∷ ids) a b h id there = elim (Bool-cases (gone x)) [
  | inl removed ↦ rw removed (
      on_disk-remove_files gone ids (remove_file x a) (remove_file x b)
        (on_disk-remove_file a b x h) id there)
  | inr kept ↦ rw kept (
      on_disk-remove_files gone ids (remove_file x a) b (λ y g. h y (on_disk-kept x a y g)) id
        there)
]

abbrev pub IsBackedWork : (Text → ℕ) → Work → Type 0
IsBackedWork other w = IsBacked other (on_disk w.1) w.0

pub weaken :
    (other less : Text → ℕ) (w : Work)
    → ((id : Text) → less id ≤ other id)
    → IsBackedWork other w
    → IsBackedWork less w
weaken other less w h b = record { once = λ id. omega (arith, h id, b.once id); backed = b.backed }

pub on_batch-IsBacked :
    (method : VaultBatch → Result (Unit {0}) × VaultBatch) (other : Text → ℕ) (w : Work)
    → ((b : VaultBatch)
        → IsBacked other (on_disk w.1) b
        → IsBacked other (on_disk w.1) (method b).1)
    → IsBackedWork other w
    → IsBackedWork other (on_batch method w).1
on_batch-IsBacked method other w keeps h = keeps w.0 h

module _ (blake3 : Bytes → Bytes) (encrypt : Bytes → Bytes → Bytes → Result Bytes)
    (fresh : StagedBlob) where
  written_stays :
      (ciphertext : Bytes) (blobs : Blobs) (id : Text)
      → on_disk blobs id ≡ true
      → on_disk ((fresh.file_id, ciphertext) ∷ remove_file fresh.file_id blobs) id ≡ true
  unfolding open_file
  written_stays ciphertext blobs id h = ground (arith, open_file-remove_file id fresh.file_id blobs)

  written_new :
      (ciphertext : Bytes) (blobs : Blobs)
      → on_disk ((fresh.file_id, ciphertext) ∷ remove_file fresh.file_id blobs) fresh.file_id ≡ true
  unfolding open_file
  written_new ciphertext blobs = ground (arith, text_eq_refl fresh.file_id)

  place_staged-IsBacked :
      (other : Text → ℕ) (norm hash : Text) (size : ℕ) (source : Bytes) (info : FileInfo)
      (b : VaultBatch) (blobs : Blobs)
      → IsBackedWork (λ id. count id (fresh.file_id ∷ []) + other id) (b, blobs)
      → (place_staged norm info b (write_blob blake3 encrypt hash size source fresh blobs)).0
        ≡ ok tt
      → IsBackedWork other
          (place_staged norm info b (write_blob blake3 encrypt hash size source fresh blobs)).1
  unfolding write_blob
  place_staged-IsBacked other norm hash size source info b blobs h done =
      elim (Result-cases (encrypt fresh.key fresh.nonce source)) [
        | inr (e, x) ↦ absurd (ground arith)
        | inl (ciphertext, x) ↦
            elim (Bool-cases (not (length source == size) || not (text_eq (blake3 source) hash))) [
              | inl differs ↦ absurd (ground arith)
              | inr same ↦
                  rw (x, write_blob, same)
                    (place-IsBacked fresh other (on_disk blobs)
                      (on_disk ((fresh.file_id, ciphertext) ∷ remove_file fresh.file_id blobs))
                      (written_stays ciphertext blobs) (written_new ciphertext blobs) norm info b h
                      (rw (x, write_blob, same) at done))
            ]
      ]

  pub put_at-IsBacked :
      (other : Text → ℕ) (source : Bytes) (info : FileInfo) (norm : Text) (w : Work)
      → IsBackedWork (λ id. count id (fresh.file_id ∷ []) + other id) w
      → (put_at blake3 encrypt source info fresh norm w).0 ≡ ok tt
      → IsBackedWork other (put_at blake3 encrypt source info fresh norm w).1
  unfolding put_at
  put_at-IsBacked other source info norm (b, blobs) h done =
      elim (Result-cases (reject_dir b norm)) [
        | inr (e, x) ↦ absurd (ground arith)
        | inl (free, x) ↦
            rw (x, put_at)
              (place_staged-IsBacked other norm info.blake3 info.size source info b blobs h
                (rw (x, put_at) at done))
      ]
