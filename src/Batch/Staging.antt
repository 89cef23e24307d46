-- ===== src/Batch/Staging.antt =====
-- The blobs that the edits of a batch write (crates/filesec-core/src/format_v2.rs): removing those that
-- were staged gives the files that there were before.
use file_sec.Prelude.{
  true, ℕ, ◌≡◌, refl, sym, ap, ◌∙◌, not, ◌||◌, none, List, [], ◌∷◌, ◌++◌, length, ◌==◌, Bool-cases,
  Option-cases, inl, inr, Text, text_eq, text_eq_refl, arith,
}
use file_sec.Errors.{Error, Result, Result-cases, ok, err}
use file_sec.Tree.Keeping.{andthen-keeps}
use file_sec.State.{Bytes}
use file_sec.Blobs.{Blobs, remove_file, open_file}
use file_sec.Batch.{VaultBatch, lookup, push_at, reindex}
use file_sec.Batch.Ops.{StagedBlob, FileInfo, ensure_dirs, place, placed, set_changed, reject_dir}
use file_sec.Batch.Puts.{Work, on_batch, place_staged, write_blob, put_at}
use file_sec.Batch.Stable.{IsStable, ensure_dirs-keeps}
use file_sec.Batch.Commit.{remove_files}

remove_file-remove_file :
    (a b : Text) (blobs : Blobs)
    → remove_file a (remove_file b blobs) ≡ remove_file b (remove_file a blobs)
unfolding remove_file
remove_file-remove_file a b [] = refl
remove_file-remove_file a b (x ∷ blobs) = ground (arith, remove_file-remove_file a b blobs)

remove_file_twice :
    (a : Text) (blobs : Blobs) → remove_file a (remove_file a blobs) ≡ remove_file a blobs
unfolding remove_file
remove_file_twice a [] = refl
remove_file_twice a (x ∷ blobs) = ground (arith, remove_file_twice a blobs)

remove_file_missing :
    (a : Text) (blobs : Blobs) → open_file a blobs ≡ none → remove_file a blobs ≡ blobs
unfolding remove_file open_file
remove_file_missing a [] h = refl
remove_file_missing a (x ∷ blobs) h = ground (arith, remove_file_missing a blobs)

-- The files are removed, and each removal succeeds.
abbrev pub remove_all : List Text → Blobs → Blobs
remove_all = remove_files (λ id. true)

remove_all-remove_file :
    (ids : List Text) (id : Text) (blobs : Blobs)
    → remove_all ids (remove_file id blobs) ≡ remove_file id (remove_all ids blobs)
unfolding remove_files
remove_all-remove_file [] id blobs = refl
remove_all-remove_file (a ∷ ids) id blobs =
    ap (remove_all ids) (remove_file-remove_file a id blobs)
    ∙ remove_all-remove_file ids id (remove_file a blobs)

remove_all-append :
    (ids : List Text) (id : Text) (blobs : Blobs)
    → remove_all (ids ++ id ∷ []) blobs ≡ remove_file id (remove_all ids blobs)
unfolding remove_files
remove_all-append [] id blobs = refl
remove_all-append (a ∷ ids) id blobs = remove_all-append ids id (remove_file a blobs)

remove_file_written :
    (id : Text) (ciphertext : Bytes) (blobs : Blobs)
    → remove_file id ((id, ciphertext) ∷ remove_file id blobs) ≡ remove_file id blobs
unfolding remove_file
remove_file_written id ciphertext blobs =
    ground (arith, text_eq_refl id, remove_file_twice id blobs)

-- Removing what was staged gives the blobs that there were before.
abbrev pub IsRolled : Blobs → Work → Type 0
IsRolled before w = remove_all w.0.staged w.1 ≡ before

abbrev pub HasStaged : List Text → VaultBatch → Type 0
HasStaged ids b = b.staged ≡ ids

pub HasStaged-IsStable : (ids : List Text) → IsStable (HasStaged ids)
unfolding push_at reindex
HasStaged-IsStable ids = record {
  counting = λ n b h. h;
  pushing = λ p b h. h;
  flagging = λ b h. h;
  indexing = λ b h. h;
  deleting = λ hit b h. h;
  renaming = λ from to b h. h;
  marking = λ i e mtime mode b at h. h;
}

place-HasStaged :
    (norm : Text) (blob : StagedBlob) (info : FileInfo) (b : VaultBatch)
    → HasStaged (b.staged ++ blob.file_id ∷ []) (place norm blob info b).1
unfolding place push_at
place-HasStaged norm blob info b = elim (Option-cases (lookup norm b.index)) [
  | inl free ↦
      rw (free, place)
        (andthen-keeps (HasStaged (b.staged ++ blob.file_id ∷ []))
          (ensure_dirs norm (record b { staged = b.staged ++ blob.file_id ∷ [] }))
          (λ c. (ok tt, set_changed (push_at norm (placed norm blob info) c)))
          (ensure_dirs-keeps (HasStaged (b.staged ++ blob.file_id ∷ []))
            (HasStaged-IsStable (b.staged ++ blob.file_id ∷ [])) norm
            (record b { staged = b.staged ++ blob.file_id ∷ [] }) refl)
          (λ c h. h))
  | inr (i, taken) ↦ rw (taken, place)
]

module _ (before : Blobs) where
  -- A method that writes no blob.
  pub on_batch-IsRolled :
      (method : VaultBatch → Result (Unit {0}) × VaultBatch)
      → ((ids : List Text) (b : VaultBatch) → HasStaged ids b → HasStaged ids (method b).1)
      → (w : Work) → IsRolled before w
      → IsRolled before (on_batch method w).1
  on_batch-IsRolled method keeps w h =
      ap (λ ids. remove_all ids w.1) (keeps w.0.staged w.0 refl) ∙ h

  module _ (blake3 : Bytes → Bytes) (encrypt : Bytes → Bytes → Bytes → Result Bytes) where
    -- A blob that was drawn afresh was not on disk before.
    abbrev pub IsFresh : StagedBlob → Type 0
    IsFresh fresh = open_file fresh.file_id before ≡ none

    module _ (fresh : StagedBlob) (new : IsFresh fresh) where
      gone :
          (b : VaultBatch) (blobs : Blobs)
          → IsRolled before (b, blobs)
          → remove_file fresh.file_id (remove_all b.staged blobs) ≡ before
      gone b blobs h =
          ap (remove_file fresh.file_id) h ∙ remove_file_missing fresh.file_id before new

      written-IsRolled :
          (ids : List Text) (ciphertext : Bytes) (blobs : Blobs)
          → remove_all ids blobs ≡ before
          → remove_all
              (ids ++ fresh.file_id ∷ [])
              ((fresh.file_id, ciphertext) ∷ remove_file fresh.file_id blobs)
            ≡ before
      written-IsRolled ids ciphertext blobs h =
          remove_all-append ids fresh.file_id
            ((fresh.file_id, ciphertext) ∷ remove_file fresh.file_id blobs)
          ∙ sym (
              remove_all-remove_file ids fresh.file_id
                ((fresh.file_id, ciphertext) ∷ remove_file fresh.file_id blobs))
          ∙ ap (remove_all ids) (remove_file_written fresh.file_id ciphertext blobs)
          ∙ remove_all-remove_file ids fresh.file_id blobs
          ∙ ap (remove_file fresh.file_id) h
          ∙ remove_file_missing fresh.file_id before new

      data WriteResult (ids : List Text) : Result StagedBlob × Blobs → Type 0 where
        failed :
            (e : Error) (blobs : Blobs)
            → remove_all ids blobs ≡ before
            → WriteResult ids (err e, blobs)
        wrote :
            (blobs : Blobs)
            → remove_all (ids ++ fresh.file_id ∷ []) blobs ≡ before
            → WriteResult ids (ok fresh, blobs)

      write_blob-WriteResult :
          (ids : List Text) (hash : Bytes) (size : ℕ) (source : Bytes) (blobs : Blobs)
          → remove_all ids blobs ≡ before
          → WriteResult ids (write_blob blake3 encrypt hash size source fresh blobs)
      unfolding write_blob
      write_blob-WriteResult ids hash size source blobs h =
          elim (Result-cases (encrypt fresh.key fresh.nonce source)) [
            | inr (e, x) ↦ rw (x, write_blob) (failed e blobs h)
            | inl (ciphertext, x) ↦
                elim (Bool-cases
                  (not (length source == size) || not (text_eq (blake3 source) hash))) [
                    | inl differs ↦
                        rw (x, write_blob, differs)
                          (failed _ _ (
                            ap (remove_all ids) (remove_file_written fresh.file_id ciphertext blobs)
                            ∙ remove_all-remove_file ids fresh.file_id blobs
                            ∙ ap (remove_file fresh.file_id) h
                            ∙ remove_file_missing fresh.file_id before new))
                    | inr same ↦
                        rw (x, write_blob, same) (wrote _ (written-IsRolled ids ciphertext blobs h))
                  ]
          ]

      place_staged-IsRolled :
          (norm : Text) (info : FileInfo) (b : VaultBatch) (r : Result StagedBlob × Blobs)
          → WriteResult b.staged r
          → IsRolled before (place_staged norm info b r).1
      place_staged-IsRolled norm info b r (failed e blobs h) = h
      place_staged-IsRolled norm info b r (wrote blobs h) =
          ap (λ ids. remove_all ids blobs) (place-HasStaged norm fresh info b) ∙ h

      pub put_at-IsRolled :
          (source : Bytes) (info : FileInfo) (norm : Text) (w : Work)
          → IsRolled before w
          → IsRolled before (put_at blake3 encrypt source info fresh norm w).1
      unfolding put_at
      put_at-IsRolled source info norm (b, blobs) h = elim (Result-cases (reject_dir b norm)) [
        | inr (e, x) ↦ rw (x, put_at) h
        | inl (free, x) ↦
            rw (x, put_at)
              (place_staged-IsRolled norm info b _
                (write_blob-WriteResult b.staged info.blake3 info.size source blobs h))
      ]
