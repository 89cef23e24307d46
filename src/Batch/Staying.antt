-- ===== src/Batch/Staying.antt =====
-- The blobs that were there before a batch (crates/filesec-core/src/format_v2.rs): no edit touches them.
use file_sec.Prelude.{
  ℕ, ◌≡◌, refl, sym, ap, subst, true, false, not, ◌||◌, List, [], ◌∷◌, length, ◌==◌, Bool-cases,
  inl, inr, All, Text, text_eq, text_eq_iff, arith,
}
use file_sec.Errors.{Result, Result-cases, ok, err}
use file_sec.Paths.{normalize_path}
use file_sec.Vault.{on_path}
use file_sec.Tree.{andthen}
use file_sec.Tree.Keeping.{andthen-keeps}
use file_sec.State.{Bytes}
use file_sec.Blobs.{Blobs, remove_file, open_file}
use file_sec.Batch.Ops.{StagedBlob, FileInfo, count_op, reject_dir}
use file_sec.Batch.Puts.{
  Work, on_batch, place_staged, write_blob, put_at, put_read, put_bytes, put_file,
}
use file_sec.Batch.Sources.{put_read-keeps}
use file_sec.Batch.Stable.{on_path-keeps}
use file_sec.Batch.Commit.{Edit, put, put_from, make, delete, move, touch, apply_edit, run}
use file_sec.Batch.Staging.{IsFresh}
use file_sec.Batch.Rollback.{IsFreshEdit}
use file_sec.Batch.Backing.{on_disk, open_file-remove_file}

module _ (before : Blobs) where
  abbrev pub Stays : Blobs → Type 0
  Stays blobs = (id : Text) → on_disk before id ≡ true → on_disk blobs id ≡ true

  module _ (blake3 : Bytes → Bytes) (encrypt : Bytes → Bytes → Bytes → Result Bytes) where
    module _ (fresh : StagedBlob) (new : IsFresh before blake3 encrypt fresh) where
      other_id : (id : Text) → on_disk before id ≡ true → text_eq fresh.file_id id ≡ false
      other_id id h = elim (Bool-cases (text_eq fresh.file_id id)) [
        | inl same ↦
            absurd
              (ground (arith, ap (on_disk before) ((text_eq_iff fresh.file_id id).0 same), new))
        | inr differs ↦ differs
      ]

      write_blob-Stays :
          (hash : Bytes) (size : ℕ) (source : Bytes) (blobs : Blobs)
          → Stays blobs
          → Stays (write_blob blake3 encrypt hash size source fresh blobs).1
      unfolding write_blob open_file
      write_blob-Stays hash size source blobs h id there =
          elim (Result-cases (encrypt fresh.key fresh.nonce source)) [
            | inr (e, x) ↦ rw (x, write_blob) (h id there)
            | inl (ciphertext, x) ↦
                elim (Bool-cases
                  (not (length source == size) || not (text_eq (blake3 source) hash))) [
                    | inl differs ↦
                        rw (x, write_blob, differs)
                          (ground (
                            arith,
                            h id there,
                            other_id id there,
                            open_file-remove_file id fresh.file_id
                                ((fresh.file_id, ciphertext) ∷ remove_file fresh.file_id blobs),
                            open_file-remove_file id fresh.file_id blobs,
                          ))
                    | inr same ↦
                        rw (x, write_blob, same)
                          (ground (
                            arith,
                            h id there,
                            other_id id there,
                            open_file-remove_file id fresh.file_id blobs,
                          ))
                  ]
          ]

      place_staged-blobs :
          (norm : Text) (info : FileInfo) (w : Work) (r : Result StagedBlob × Blobs)
          → (place_staged norm info w.0 r).1.1 ≡ r.1
      place_staged-blobs norm info w (err e, blobs) = refl
      place_staged-blobs norm info w (ok staged, blobs) = refl

      put_at-Stays :
          (source : Bytes) (info : FileInfo) (norm : Text) (w : Work)
          → Stays w.1
          → Stays (put_at blake3 encrypt source info fresh norm w).1.1
      unfolding put_at
      put_at-Stays source info norm (b, blobs) h = elim (Result-cases (reject_dir b norm)) [
        | inr (e, x) ↦ rw (x, put_at) h
        | inl (free, x) ↦
            rw (x, put_at)
              (subst Stays
                (sym (
                  place_staged-blobs norm info (b, blobs)
                    (write_blob blake3 encrypt info.blake3 info.size source fresh blobs)))
                (write_blob-Stays info.blake3 info.size source blobs h))
      ]

    module _ (to_upper : ℕ → Text) where
      put-Stays :
          (path : Text) (next : Text → Work → Result (Unit {0}) × Work)
          → ((norm : Text) (w : Work) → Stays w.1 → Stays (next norm w).1.1)
          → (w : Work) → Stays w.1
          → Stays (andthen (on_batch count_op w) (on_path (normalize_path to_upper path) next)).1.1
      put-Stays path next keeps w h =
          andthen-keeps (λ v. Stays v.1) (on_batch count_op w)
            (on_path (normalize_path to_upper path) next) h
            (on_path-keeps (λ v. Stays v.1) (normalize_path to_upper path) next keeps)

      apply_edit-Stays :
          (e : Edit) (w : Work)
          → IsFreshEdit before blake3 encrypt e
          → Stays w.1
          → Stays (apply_edit blake3 encrypt to_upper e w).1.1
      unfolding apply_edit put_bytes put_file
      apply_edit-Stays (put path bytes mtime mode fresh) w new h =
          put-Stays path
            (put_at blake3 encrypt bytes
              (record { blake3 = blake3 bytes; size = length bytes; mtime = mtime; mode = mode })
              fresh)
            (put_at-Stays fresh new bytes
              (record { blake3 = blake3 bytes; size = length bytes; mtime = mtime; mode = mode }))
            w h
      apply_edit-Stays (put_from path first second mtime mode fresh) w new h =
          put-Stays path (put_read blake3 encrypt first second mtime mode fresh)
            (put_read-keeps blake3 encrypt fresh mtime mode (λ v. Stays v.1)
              (put_at-Stays fresh new) first second)
            w h
      apply_edit-Stays (make path) w new h = h
      apply_edit-Stays (delete path) w new h = h
      apply_edit-Stays (move from to) w new h = h
      apply_edit-Stays (touch path mtime mode) w new h = h

      pub run-Stays :
          (es : List Edit) (w : Work)
          → All (IsFreshEdit before blake3 encrypt) es
          → Stays w.1
          → Stays (run blake3 encrypt to_upper es w).1.1
      unfolding run
      run-Stays [] w new h = h
      run-Stays (e ∷ es) w new h =
          andthen-keeps (λ v. Stays v.1) (apply_edit blake3 encrypt to_upper e w)
            (run blake3 encrypt to_upper es) (apply_edit-Stays e w new.0 h)
            (λ v. run-Stays es v new.1)
