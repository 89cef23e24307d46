-- ===== src/Batch/Sound.antt =====
-- Commits one after another (crates/filesec-core/src/format_v2.rs): the open vault never names a blob
-- that is not on disk.
use file_sec.Prelude.{
  if-reaches, some, true, false, ℕ, ◌+◌, ◌≤◌, ◌≡◌, ap, ◌∙◌, Bool, List, [], ◌∷◌, ◌++◌, length, Text,
  arith, subst, sym, All, inl, inr,
}
use file_sec.Errors.{Result, ok, err, Result-cases}
use file_sec.Paths.{normalize_path}
use file_sec.Vault.{on_path}
use file_sec.Tree.{andthen}
use file_sec.Tree.Keeping.{andthen-reaches}
use file_sec.State.{Bytes, StateMetadata}
use file_sec.Blobs.{ManifestV2, Blobs}
use file_sec.Batch.{VaultBatch, new_batch}
use file_sec.Batch.Ops.{StagedBlob, count_op, mkdir, remove, rename, set_attr, is_some}
use file_sec.Batch.Puts.{Work, on_batch, put_at, put_read, put_bytes, put_file}
use file_sec.Batch.Sources.{put_read-reaches}
use file_sec.Batch.Stable.{mkdir-keeps, remove-keeps, rename-keeps, set_attr-keeps, count_op-keeps}
use file_sec.Batch.Commit.{
  VaultReaderV2, Disk, reclaim, seal_and_write, adopt, Edit, put, put_from, make, delete, move,
  touch, apply_edit, run, max_batch_ops, commit_with, commit_batch, conclude,
}
use file_sec.Batch.Counting.{count, count-append, uses}
use file_sec.Batch.Keeping.{IsBacked, IsBacked-IsStable}
use file_sec.Batch.Staying.{Stays, run-Stays}
use file_sec.Batch.Rollback.{IsFreshEdit, commit_batch_failed}
use file_sec.Batch.Backing.{
  on_disk, open_file-remove_files, on_disk-remove_files, IsBackedWork, weaken, on_batch-IsBacked,
  put_at-IsBacked,
}

-- The ids that an edit draws.
abbrev pub drawn : Edit → List Text
drawn (put path bytes mtime mode fresh) = fresh.file_id ∷ []
drawn (put_from path first second mtime mode fresh) = fresh.file_id ∷ []
drawn _ = []

abbrev pub all_drawn : List Edit → List Text
all_drawn [] = []
all_drawn (e ∷ es) = drawn e ++ all_drawn es

-- A vault that is sound: each blob id is named once by the manifest or waits once for its removal, and
-- the blobs that the manifest names are on disk.
pub record IsSound (r : VaultReaderV2) (disk : Disk) : Type 0 where
  pub once : (id : Text) → uses id r.manifest.entries + count id r.pending_reclaim ≤ 1
  pub backed : (id : Text) → 1 ≤ uses id r.manifest.entries → on_disk disk.blobs id ≡ true

on_path-reaches :
    {S : Type 0} (P Q : S → Type 0) (r : Result Text) (next : Text → S → Result (Unit {0}) × S)
    → ((norm : Text) (s : S) → P s → (next norm s).0 ≡ ok tt → Q (next norm s).1)
    → (s : S) → P s
    → (on_path r next s).0 ≡ ok tt
    → Q (on_path r next s).1
on_path-reaches P Q (ok norm) next h s p done = h norm s p done
on_path-reaches P Q (err e) next h s p done = absurd (cc)

module _ (blake3 : Bytes → Bytes) (encrypt : Bytes → Bytes → Bytes → Result Bytes)
    (to_upper : ℕ → Text) where
  put-IsBacked :
      (other : Text → ℕ) (fresh : StagedBlob) (path : Text)
      (next : Text → Work → Result (Unit {0}) × Work)
      → ((norm : Text) (w : Work)
          → IsBackedWork (λ id. count id (fresh.file_id ∷ []) + other id) w
          → (next norm w).0 ≡ ok tt
          → IsBackedWork other (next norm w).1)
      → (w : Work) → IsBackedWork (λ id. count id (fresh.file_id ∷ []) + other id) w
      → (andthen (on_batch count_op w) (on_path (normalize_path to_upper path) next)).0 ≡ ok tt
      → IsBackedWork other
          (andthen (on_batch count_op w) (on_path (normalize_path to_upper path) next)).1
  put-IsBacked other fresh path next reaches w h =
      andthen-reaches (IsBackedWork (λ id. count id (fresh.file_id ∷ []) + other id))
        (IsBackedWork other) (on_batch count_op w) (on_path (normalize_path to_upper path) next)
        (λ counted.
          on_batch-IsBacked count_op (λ id. count id (fresh.file_id ∷ []) + other id) w
            (count_op-keeps
              (IsBacked (λ id. count id (fresh.file_id ∷ []) + other id) (on_disk w.1))
              (IsBacked-IsStable (λ id. count id (fresh.file_id ∷ []) + other id) (on_disk w.1)))
            h)
        (on_path-reaches (IsBackedWork (λ id. count id (fresh.file_id ∷ []) + other id))
          (IsBackedWork other) (normalize_path to_upper path) next reaches)

  apply_edit-IsBacked :
      (other : Text → ℕ) (e : Edit) (w : Work)
      → IsBackedWork (λ id. count id (drawn e) + other id) w
      → (apply_edit blake3 encrypt to_upper e w).0 ≡ ok tt
      → IsBackedWork other (apply_edit blake3 encrypt to_upper e w).1
  unfolding apply_edit put_bytes put_file
  apply_edit-IsBacked other (put path bytes mtime mode fresh) w h done =
      put-IsBacked other fresh path
        (put_at blake3 encrypt bytes
          (record { blake3 = blake3 bytes; size = length bytes; mtime = mtime; mode = mode }) fresh)
        (put_at-IsBacked blake3 encrypt fresh other bytes
          (record { blake3 = blake3 bytes; size = length bytes; mtime = mtime; mode = mode }))
        w h done
  apply_edit-IsBacked other (put_from path first second mtime mode fresh) w h done =
      put-IsBacked other fresh path (put_read blake3 encrypt first second mtime mode fresh)
        (put_read-reaches blake3 encrypt fresh mtime mode
          (IsBackedWork (λ id. count id (fresh.file_id ∷ []) + other id)) (IsBackedWork other)
          (put_at-IsBacked blake3 encrypt fresh other) first second)
        w h done
  apply_edit-IsBacked other (make path) w h done =
      on_batch-IsBacked (mkdir to_upper path) other w
        (mkdir-keeps (IsBacked other (on_disk w.1)) (IsBacked-IsStable other (on_disk w.1)) to_upper
          path)
        (weaken _ other w (λ id. omega arith) h)
  apply_edit-IsBacked other (delete path) w h done =
      on_batch-IsBacked (remove to_upper path) other w
        (remove-keeps (IsBacked other (on_disk w.1)) (IsBacked-IsStable other (on_disk w.1))
          to_upper path)
        (weaken _ other w (λ id. omega arith) h)
  apply_edit-IsBacked other (move from to) w h done =
      on_batch-IsBacked (rename to_upper from to) other w
        (rename-keeps (IsBacked other (on_disk w.1)) (IsBacked-IsStable other (on_disk w.1))
          to_upper from to)
        (weaken _ other w (λ id. omega arith) h)
  apply_edit-IsBacked other (touch path mtime mode) w h done =
      on_batch-IsBacked (set_attr to_upper path mtime mode) other w
        (set_attr-keeps (IsBacked other (on_disk w.1)) (IsBacked-IsStable other (on_disk w.1))
          to_upper path mtime mode)
        (weaken _ other w (λ id. omega arith) h)

  run-IsBacked :
      (other : Text → ℕ) (es : List Edit) (w : Work)
      → IsBackedWork (λ id. count id (all_drawn es) + other id) w
      → (run blake3 encrypt to_upper es w).0 ≡ ok tt
      → IsBackedWork other (run blake3 encrypt to_upper es w).1
  unfolding run
  run-IsBacked other [] w h done = weaken _ other w (λ id. omega arith) h
  run-IsBacked other (e ∷ es) w h done =
      andthen-reaches (IsBackedWork (λ id. count id (all_drawn es) + other id)) (IsBackedWork other)
        (apply_edit blake3 encrypt to_upper e w) (run blake3 encrypt to_upper es)
        (apply_edit-IsBacked (λ id. count id (all_drawn es) + other id) e w
          (weaken _ (λ id. count id (drawn e) + (count id (all_drawn es) + other id)) w
            (λ id. omega (arith, count-append id (drawn e) (all_drawn es))) h))
        (run-IsBacked other es) done

module _ (blake3 : Bytes → Bytes) (to_vec : ManifestV2 → Result Bytes)
    (object_id_of : Bytes → Result Text) (gone : Text → Bool) (r : VaultReaderV2) where
  seal_and_write-blobs :
      (manifest : ManifestV2) (written : Result Bool) (d : Disk)
      → (seal_and_write blake3 to_vec object_id_of gone r manifest written d).1.blobs ≡ d.blobs
  unfolding seal_and_write
  seal_and_write-blobs manifest written d = ground arith

  adopt-IsSound :
      (b : VaultBatch) (y : Result (StateMetadata × Bool) × Disk) (blobs : Blobs)
      → y.1.blobs ≡ blobs
      → IsBackedWork (λ id. count id r.pending_reclaim) (b, blobs)
      → (adopt blake3 to_vec object_id_of gone r b y).0 ≡ ok tt
      → IsSound
          (adopt blake3 to_vec object_id_of gone r b y).1.0
          (adopt blake3 to_vec object_id_of gone r b y).1.1
  unfolding reclaim
  adopt-IsSound b (err e, d) blobs same h done = absurd (cc)
  adopt-IsSound b (ok (s, true), d) blobs same h done = record {
    once = λ id. omega (arith, h.once id);
    backed = λ id u.
        ap is_some (
          open_file-remove_files gone id (r.pending_reclaim ++ b.superseded) d.blobs
            (omega (arith, h.once id, count-append id r.pending_reclaim b.superseded)))
        ∙ ap (λ bs. on_disk bs id) same
        ∙ h.backed id u;
  }
  adopt-IsSound b (ok (s, false), d) blobs same h done = record {
    once = λ id. omega (arith, h.once id, count-append id r.pending_reclaim b.superseded);
    backed = λ id u. ap (λ bs. on_disk bs id) same ∙ h.backed id u;
  }

  conclude-IsSound :
      (disk : Disk) (written : Result Bool) (x : Result (Unit {0}) × Work)
      → IsSound r disk
      → Stays disk.blobs x.1.1
      → (x.0 ≡ ok tt → IsBackedWork (λ id. count id r.pending_reclaim) x.1)
      → (conclude blake3 to_vec object_id_of gone r disk written x).0 ≡ ok tt
      → IsSound
          (conclude blake3 to_vec object_id_of gone r disk written x).1.0
          (conclude blake3 to_vec object_id_of gone r disk written x).1.1
  conclude-IsSound disk written (err e, w) sound stays h done = absurd (cc)
  conclude-IsSound disk written (ok passed, (b, blobs)) sound stays h done =
      if-reaches (λ z. z.0 ≡ ok tt → IsSound z.1.0 z.1.1) b.changed
        (adopt blake3 to_vec object_id_of gone r b (
          seal_and_write blake3 to_vec object_id_of gone r b.manifest written
            (record disk { blobs = blobs })))
        (ok tt, (r, record disk { blobs = blobs }))
        (λ changed.
          adopt-IsSound b
            (seal_and_write blake3 to_vec object_id_of gone r b.manifest written
              (record disk { blobs = blobs }))
            blobs (seal_and_write-blobs b.manifest written (record disk { blobs = blobs }))
            (h (λ i. ok tt)))
        (λ same fine. record { once = sound.once; backed = λ id u. stays id (sound.backed id u) })
        done

  -- A commit never loses a blob: whether the edits pass or fail, whether the new manifest is written or
  -- not, whether that write is known to be durable and whichever removals succeed, if the vault names each blob id once and has the
  -- blobs of its files on disk, then so does the vault after the commit. The ids that are drawn for new
  -- blobs must be unused and distinct.
  pub commit_batch-IsSound :
      (disk : Disk) (encrypt : Bytes → Bytes → Bytes → Result Bytes) (to_upper : ℕ → Text)
      (es : List Edit) (written : Result Bool)
      → IsSound r disk
      → All (IsFreshEdit disk.blobs blake3 encrypt) es
      → ((id : Text)
          → uses id r.manifest.entries + count id r.pending_reclaim + count id (all_drawn es) ≤ 1)
      → IsSound
          (commit_batch blake3 to_vec object_id_of gone
            (run blake3 encrypt to_upper es)
            written
            r
            disk).1.0
          (commit_batch blake3 to_vec object_id_of gone
            (run blake3 encrypt to_upper es)
            written
            r
            disk).1.1
  unfolding commit_batch commit_with new_batch
  commit_batch-IsSound disk encrypt to_upper es written sound new distinct =
      let start : Work = (new_batch r.manifest (some max_batch_ops), disk.blobs) in
      let result = run blake3 encrypt to_upper es start in
      elim (Result-cases (conclude blake3 to_vec object_id_of gone r disk written result).0) [
        | inr (e, failed) ↦
            let (staged, blobs, left, rolled) =
              commit_batch_failed blake3 to_vec object_id_of gone r disk encrypt to_upper es written
                e new failed in
            subst (λ x. IsSound x.0 x.1) (sym left)
              (record {
                once = sound.once;
                backed = λ id u.
                    on_disk-remove_files gone staged blobs blobs (λ y there. there) id
                      (ap (λ bs. on_disk bs id) rolled ∙ sound.backed id u);
              })
        | inl (done, passed) ↦
            conclude-IsSound disk written result sound
              (run-Stays disk.blobs blake3 encrypt to_upper es start new (λ id h. h))
              (run-IsBacked blake3 encrypt to_upper (λ id. count id r.pending_reclaim) es start
                (record {
                  once = λ id. omega (arith, distinct id, arith);
                  backed = λ id u. sound.backed id u;
                }))
              passed
      ]
