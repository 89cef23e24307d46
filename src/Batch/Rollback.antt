-- ===== src/Batch/Rollback.antt =====
-- A batch that does not commit (crates/filesec-core/src/format_v2.rs): the blobs that it has written are
-- removed, and nothing else has changed.
use file_sec.Prelude.{
  true, ℕ, ◌≡◌, refl, ap, ◌∙◌, Bool, some, List, [], ◌∷◌, length, Bool-cases, inl, inr, All, Text,
  arith,
}
use file_sec.Errors.{Error, Result, ok, err}
use file_sec.Paths.{normalize_path}
use file_sec.Vault.{on_path}
use file_sec.Tree.{andthen}
use file_sec.Tree.Keeping.{andthen-keeps}
use file_sec.State.{Bytes, StateMetadata}
use file_sec.Blobs.{ManifestV2, Blobs, remove_file}
use file_sec.Batch.{VaultBatch, new_batch}
use file_sec.Batch.Ops.{count_op, mkdir, remove, rename, set_attr}
use file_sec.Batch.Puts.{Work, on_batch, put_at, put_read, put_bytes, put_file}
use file_sec.Batch.Sources.{put_read-keeps}
use file_sec.Batch.Stable.{on_path-keeps, mkdir-keeps, remove-keeps, rename-keeps, set_attr-keeps}
use file_sec.Batch.Commit.{
  VaultReaderV2, Disk, remove_files, seal_and_write, adopt, conclude, commit_with, commit_batch,
  max_batch_ops, Edit, put, put_from, make, delete, move, touch, apply_edit, run,
}
use file_sec.Batch.Staging.{
  remove_all, IsRolled, HasStaged, HasStaged-IsStable, on_batch-IsRolled, IsFresh, put_at-IsRolled,
}

module _ (before : Blobs) where
  module _ (blake3 : Bytes → Bytes) (encrypt : Bytes → Bytes → Bytes → Result Bytes) where
    -- The ids that an edit draws were not on disk before.
    abbrev pub IsFreshEdit : Edit → Type 0
    IsFreshEdit (put path bytes mtime mode fresh) = IsFresh before blake3 encrypt fresh
    IsFreshEdit (put_from path first second mtime mode fresh) = IsFresh before blake3 encrypt fresh
    IsFreshEdit _ = Unit

    module _ (to_upper : ℕ → Text) where
      count_op-IsRolled : (w : Work) → IsRolled before w → IsRolled before (on_batch count_op w).1
      unfolding count_op
      count_op-IsRolled w h = h

      put-IsRolled :
          (path : Text) (next : Text → Work → Result (Unit {0}) × Work)
          → ((norm : Text) (w : Work) → IsRolled before w → IsRolled before (next norm w).1)
          → (w : Work) → IsRolled before w
          → IsRolled before
              (andthen (on_batch count_op w) (on_path (normalize_path to_upper path) next)).1
      put-IsRolled path next keeps w h =
          andthen-keeps (IsRolled before) (on_batch count_op w)
            (on_path (normalize_path to_upper path) next) (count_op-IsRolled w h)
            (on_path-keeps (IsRolled before) (normalize_path to_upper path) next keeps)

      apply_edit-IsRolled :
          (e : Edit) (w : Work)
          → IsFreshEdit e
          → IsRolled before w
          → IsRolled before (apply_edit blake3 encrypt to_upper e w).1
      unfolding apply_edit put_bytes put_file
      apply_edit-IsRolled (put path bytes mtime mode fresh) w new h =
          put-IsRolled path
            (put_at blake3 encrypt bytes
              (record { blake3 = blake3 bytes; size = length bytes; mtime = mtime; mode = mode })
              fresh)
            (put_at-IsRolled before blake3 encrypt fresh new bytes
              (record { blake3 = blake3 bytes; size = length bytes; mtime = mtime; mode = mode }))
            w h
      apply_edit-IsRolled (put_from path first second mtime mode fresh) w new h =
          put-IsRolled path (put_read blake3 encrypt first second mtime mode fresh)
            (put_read-keeps blake3 encrypt fresh mtime mode (IsRolled before)
              (put_at-IsRolled before blake3 encrypt fresh new) first second)
            w h
      apply_edit-IsRolled (make path) w new h =
          on_batch-IsRolled before (mkdir to_upper path)
            (λ ids. mkdir-keeps (HasStaged ids) (HasStaged-IsStable ids) to_upper path) w h
      apply_edit-IsRolled (delete path) w new h =
          on_batch-IsRolled before (remove to_upper path)
            (λ ids. remove-keeps (HasStaged ids) (HasStaged-IsStable ids) to_upper path) w h
      apply_edit-IsRolled (move from to) w new h =
          on_batch-IsRolled before (rename to_upper from to)
            (λ ids. rename-keeps (HasStaged ids) (HasStaged-IsStable ids) to_upper from to) w h
      apply_edit-IsRolled (touch path mtime mode) w new h =
          on_batch-IsRolled before (set_attr to_upper path mtime mode)
            (λ ids.
              set_attr-keeps (HasStaged ids) (HasStaged-IsStable ids) to_upper path mtime mode)
            w h

      run-IsRolled :
          (es : List Edit) (w : Work)
          → All IsFreshEdit es
          → IsRolled before w
          → IsRolled before (run blake3 encrypt to_upper es w).1
      unfolding run
      run-IsRolled [] w new h = h
      run-IsRolled (e ∷ es) w new h =
          andthen-keeps (IsRolled before) (apply_edit blake3 encrypt to_upper e w)
            (run blake3 encrypt to_upper es) (apply_edit-IsRolled e w new.0 h)
            (λ v. run-IsRolled es v new.1)

module _ (blake3 : Bytes → Bytes) (to_vec : ManifestV2 → Result Bytes)
    (object_id_of : Bytes → Result Text) (gone : Text → Bool) (r : VaultReaderV2)
    (disk : Disk) where
  seal_and_write_failed :
      (manifest : ManifestV2) (written : Result Bool) (d : Disk) (e : Error)
      → (seal_and_write blake3 to_vec object_id_of gone r manifest written d).0 ≡ err e
      → (seal_and_write blake3 to_vec object_id_of gone r manifest written d).1 ≡ d
  unfolding seal_and_write
  seal_and_write_failed manifest written d e h = ground arith

  adopt_err :
      (batch : VaultBatch) (x : Result (StateMetadata × Bool) × Disk) (e : Error)
      → (adopt blake3 to_vec object_id_of gone r batch x).0 ≡ err e
      → (x.0 ≡ err e)
        × ((adopt blake3 to_vec object_id_of gone r batch x).1
            ≡ (r, record x.1 { blobs = remove_files gone batch.staged x.1.blobs }))
  adopt_err batch (err f, d) e h = (cc, refl)
  adopt_err batch (ok s, d) e h = absurd (cc)

  -- What a conclusion that fails leaves: the staged blobs are removed, as far as that succeeds.
  conclude_failed :
      (written : Result Bool) (x : Result (Unit {0}) × Work) (e : Error)
      → (conclude blake3 to_vec object_id_of gone r disk written x).0 ≡ err e
      → (conclude blake3 to_vec object_id_of gone r disk written x).1
        ≡ (r, record disk { blobs = remove_files gone x.1.0.staged x.1.1 })
  conclude_failed written (err f, w) e h = refl
  conclude_failed written (ok done, (b, blobs)) e h = elim (Bool-cases b.changed) [
    | inr same ↦ absurd (ground arith)
    | inl changed ↦
        let d : Disk = record disk { blobs = blobs } in
        let sealed = seal_and_write blake3 to_vec object_id_of gone r b.manifest written d in
        let (seal_fails, after) = adopt_err b sealed e (rw changed at h) in
        rw changed (
          after
          ∙ ap (λ x. (r, record x { blobs = remove_files gone b.staged x.blobs }))
              (seal_and_write_failed b.manifest written d e seal_fails))
  ]

  remove_files-all :
      (ids : List Text) (blobs : Blobs)
      → ((id : Text) → gone id ≡ true)
      → remove_files gone ids blobs ≡ remove_all ids blobs
  unfolding remove_files
  remove_files-all [] blobs all = refl
  remove_files-all (id ∷ ids) blobs all =
      rw (all id) (remove_files-all ids (remove_file id blobs) all)

  -- What a commit that fails leaves: the open vault and its manifest are what they were, and its blobs too
  -- if the removal of the staged ones succeeds.
  pub commit_batch_failed :
      (encrypt : Bytes → Bytes → Bytes → Result Bytes) (to_upper : ℕ → Text) (es : List Edit)
      (written : Result Bool) (e : Error)
      → All (IsFreshEdit disk.blobs blake3 encrypt) es
      → (commit_batch blake3 to_vec object_id_of gone
          (run blake3 encrypt to_upper es)
          written
          r
          disk).0
        ≡ err e
      → (staged : List Text) × (blobs : Blobs) × ((commit_batch blake3 to_vec object_id_of gone
            (run blake3 encrypt to_upper es)
            written
            r
            disk).1
          ≡ (r, record disk { blobs = remove_files gone staged blobs }))
        × (remove_all staged blobs ≡ disk.blobs)
  unfolding commit_batch commit_with
  commit_batch_failed encrypt to_upper es written e new h =
      let start : Work = (new_batch r.manifest (some max_batch_ops), disk.blobs) in
      let result = run blake3 encrypt to_upper es start in
      (
        result.1.0.staged,
        result.1.1,
        conclude_failed written result e h,
        run-IsRolled disk.blobs blake3 encrypt to_upper es start new
            (unfold new_batch remove_files in refl),
      )

  -- A commit that fails leaves no trace: whether one of the edits fails or the new manifest cannot be
  -- written, the vault that is open, its manifest on disk and the files of its blobs directory are what
  -- they were, if the ids that are drawn for new blobs were not in use and the removals succeed.
  pub commit_batch_rollback :
      (encrypt : Bytes → Bytes → Bytes → Result Bytes) (to_upper : ℕ → Text) (es : List Edit)
      (written : Result Bool) (e : Error)
      → ((id : Text) → gone id ≡ true)
      → All (IsFreshEdit disk.blobs blake3 encrypt) es
      → (commit_batch blake3 to_vec object_id_of gone
          (run blake3 encrypt to_upper es)
          written
          r
          disk).0
        ≡ err e
      → (commit_batch blake3 to_vec object_id_of gone
          (run blake3 encrypt to_upper es)
          written
          r
          disk).1
        ≡ (r, disk)
  commit_batch_rollback encrypt to_upper es written e all new h =
      let (staged, blobs, left, rolled) = commit_batch_failed encrypt to_upper es written e new h in
      left ∙ ap (λ bs. (r, record disk { blobs = bs })) (remove_files-all staged blobs all ∙ rolled)
