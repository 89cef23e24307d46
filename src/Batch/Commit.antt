-- ===== src/Batch/Commit.antt =====
-- crates/filesec-core/src/format_v2.rs, the reader of a vault directory and its commit: a set of edits
-- becomes one new manifest on disk, or none at all. CBOR, BLAKE3, the encryption of blobs, the object
-- id that is read from the header and `char::to_uppercase` are parameters; what the randomness, the
-- sealing and the atomic write of the manifest returned is an argument.
use file_sec.Prelude.{
  ℕ, ℤ, ◌+◌, Bool, false, not, ◌&&◌, ◌||◌, Option, none, some, List, [], ◌∷◌, ◌++◌, any, map,
  if◌then◌else◌, Text, text_eq,
}
use file_sec.Errors.{Result, ok, err, ◌>>=◌}
use file_sec.Tree.{andthen}
use file_sec.Suite.{SuiteId, to_u16}
use file_sec.State.{Bytes, StateMetadata, StateAnchor, vault_manifest, from_metadata, next}
use file_sec.Manifest.{Entry}
use file_sec.Blobs.{EntryV2, ManifestV2, Blobs, remove_file, validate_blob_id, is_safe_writer_temp}
use file_sec.Batch.{VaultBatch, new_batch}
use file_sec.Batch.Ops.{StagedBlob, mkdir, remove, rename, set_attr, extend}
use file_sec.Batch.Puts.{Work, on_batch, put_bytes, put_file}

pub record VaultReaderV2 : Type 0 where
  pub suite : SuiteId
  pub header_bytes : Bytes
  pub manifest : ManifestV2
  pub owner_fingerprint : Bytes  -- 32 bytes
  pub state : Option StateMetadata
  pub view : List Entry
  pub pending_reclaim : List Text

-- The vault's directory: the files below `blobs`, and what the sealed manifest opens to.
pub record Disk : Type 0 where
  pub blobs : Blobs
  pub manifest_file : Option (ManifestV2 × StateMetadata)

abbrev pub viewed : EntryV2 → Entry
viewed e = record {
  path = e.path;
  kind = e.kind;
  size = e.size;
  mtime = e.mtime;
  mode = e.mode;
  blake3 = e.blake3;
  data_offset = 0;
}

unfoldable pub view_of : ManifestV2 → List Entry
view_of manifest = map viewed manifest.entries

-- `gone` tells which removals succeed; one that fails is ignored.
unfoldable pub remove_files : (Text → Bool) → List Text → Blobs → Blobs
unfolding remove_file
remove_files gone [] blobs = blobs
remove_files gone (id ∷ ids) blobs =
    remove_files gone ids (if gone id then remove_file id blobs else blobs)

unfoldable pub reclaim :
    (Text → Bool) → List Text → Bool → VaultReaderV2 → Blobs → VaultReaderV2 × Blobs
unfolding remove_files
reclaim gone superseded durable r blobs =
    let queue = r.pending_reclaim ++ superseded in
    if durable
    then (record r { pending_reclaim = [] }, remove_files gone queue blobs)
    else (record r { pending_reclaim = queue }, blobs)

-- The blob ids that a manifest names.
unfoldable pub ids_of : List EntryV2 → List Text
ids_of [] = []
ids_of (e ∷ es) = extend [] e.file_id ++ ids_of es

abbrev pub max_batch_ops : ℕ
max_batch_ops = 1024

module _ (blake3 : Bytes → Bytes) (to_vec : ManifestV2 → Result Bytes)
    (object_id_of : Bytes → Result Text) (gone : Text → Bool) where
  abbrev pub anchor_of : Option StateMetadata → Option StateAnchor
  anchor_of none = none
  anchor_of (some s) = some (from_metadata s)

  -- The state that the new manifest is written with, and whether the write is known to be durable.
  unfoldable pub seal_and_write :
      VaultReaderV2 → ManifestV2 → Result Bool → Disk → Result (StateMetadata × Bool) × Disk
  unfolding next from_metadata to_u16
  seal_and_write r manifest written disk =
      let state : Result StateMetadata = (do
        pt ← to_vec manifest
        object_id ← object_id_of r.header_bytes
        next blake3 r.owner_fingerprint vault_manifest object_id (to_u16 r.suite)
            (anchor_of r.state) pt) in
      elim state [
        | err e ↦ (err e, disk)
        | ok s ↦ elim written [
          | err e ↦ (err e, disk)
          | ok durable ↦ (ok (s, durable), record disk { manifest_file = some (manifest, s) })
        ]
      ]

  -- The commit after the edits have passed and changed something.
  abbrev pub adopt :
      VaultReaderV2
      → VaultBatch
      → Result (StateMetadata × Bool) × Disk
      → Result (Unit {0}) × (VaultReaderV2 × Disk)
  adopt r batch (err e, disk) =
      (err e, (r, record disk { blobs = remove_files gone batch.staged disk.blobs }))
  adopt r batch (ok (state, durable), disk) =
      let (reader, blobs) =
        reclaim gone batch.superseded durable
          (record r {
            manifest = batch.manifest;
            state = some state;
            view = view_of batch.manifest;
          })
          disk.blobs in
      (ok tt, (reader, record disk { blobs = blobs }))

  abbrev pub conclude :
      VaultReaderV2
      → Disk
      → Result Bool
      → Result (Unit {0}) × Work
      → Result (Unit {0}) × (VaultReaderV2 × Disk)
  conclude r disk written (err e, (batch, blobs)) =
      (err e, (r, record disk { blobs = remove_files gone batch.staged blobs }))
  conclude r disk written (ok done, (batch, blobs)) =
      if batch.changed
      then adopt r batch (seal_and_write r batch.manifest written (record disk { blobs = blobs }))
      else (ok tt, (r, record disk { blobs = blobs }))

  unfoldable pub commit_with :
      Option ℕ
      → (Work → Result (Unit {0}) × Work)
      → Result Bool
      → VaultReaderV2
      → Disk
      → Result (Unit {0}) × (VaultReaderV2 × Disk)
  unfolding seal_and_write reclaim view_of new_batch
  commit_with limit edits written r disk =
      conclude r disk written (edits (new_batch r.manifest limit, disk.blobs))

  unfoldable pub commit_batch :
      (Work → Result (Unit {0}) × Work)
      → Result Bool
      → VaultReaderV2
      → Disk
      → Result (Unit {0}) × (VaultReaderV2 × Disk)
  unfolding commit_with
  commit_batch edits written r disk = commit_with (some max_batch_ops) edits written r disk

-- What the calls on the blobs directory return: opening it, reading an entry, and asking whether the
-- entry is a file; `gone` tells which removals succeed.
pub record Listing : Type 0 where
  pub read_dir : Result (Unit {0})
  pub entry : Text → Result (Unit {0})
  pub is_file : Text → Result Bool
  pub gone : Text → Bool

-- The names that are removed: those of blobs that no entry references, and those that an interrupted
-- write has left.
abbrev pub is_orphan : List Text → Text → Bool
is_orphan referenced name =
    (elim (validate_blob_id name) [ ok done ↦ not (any (text_eq name) referenced) | err e ↦ false ])
    || is_safe_writer_temp name

-- Whether an entry is removed, if it can be read.
unfoldable pub is_removed : List Text → Listing → Text → Result Bool
unfolding validate_blob_id is_safe_writer_temp
is_removed referenced listing name = do
  done ← listing.entry name
  file ← if is_orphan referenced name then listing.is_file name else ok false
  ok (file && listing.gone name)

-- The number of files that the loop removes, beside the files that it leaves: from the first entry that
-- cannot be read, all of them.
unfoldable pub sweep : (Text → Result Bool) → Blobs → Result ℕ × Blobs
sweep removed [] = (ok 0, [])
sweep removed (b ∷ blobs) =
    let (n, rest) = sweep removed blobs in
    elim (removed b.0) [
      | err e ↦ (err e, b ∷ blobs)
      | ok gone ↦ if gone then ((do m ← n; ok (1 + m)), rest) else (n, b ∷ rest)
    ]

abbrev pub swept : VaultReaderV2 → Disk → Result ℕ × Blobs → Result ℕ × (VaultReaderV2 × Disk)
swept r disk (err e, blobs) = (err e, (r, record disk { blobs = blobs }))
swept r disk (ok n, blobs) =
    (ok n, (record r { pending_reclaim = [] }, record disk { blobs = blobs }))

unfoldable pub collect_garbage :
    Listing → Bool → VaultReaderV2 → Disk → Result ℕ × (VaultReaderV2 × Disk)
unfolding is_removed sweep ids_of
collect_garbage listing synced r disk =
    if not synced then (ok 0, (r, disk)) else elim listing.read_dir [
      | err e ↦ (err e, (r, disk))
      | ok opened ↦ swept r disk (sweep (is_removed (ids_of r.manifest.entries) listing) disk.blobs)
    ]

-- The edits that the callers put in a batch.
pub data Edit : Type 0 where
  put : Text → Bytes → Option ℤ → Option ℕ → StagedBlob → Edit
  put_from : Text → Result Bytes → Result Bytes → Option ℤ → Option ℕ → StagedBlob → Edit
  make : Text → Edit
  delete : Text → Edit
  move : Text → Text → Edit
  touch : Text → Option ℤ → Option ℕ → Edit

module _ (blake3 : Bytes → Bytes) (encrypt : Bytes → Bytes → Bytes → Result Bytes)
    (to_upper : ℕ → Text) where
  unfoldable pub apply_edit : Edit → Work → Result (Unit {0}) × Work
  unfolding put_bytes put_file mkdir remove rename set_attr
  apply_edit (put path bytes mtime mode fresh) =
      put_bytes blake3 encrypt to_upper path bytes mtime mode fresh
  apply_edit (put_from path first second mtime mode fresh) =
      put_file blake3 encrypt to_upper path first second mtime mode fresh
  apply_edit (make path) = on_batch (mkdir to_upper path)
  apply_edit (delete path) = on_batch (remove to_upper path)
  apply_edit (move from to) = on_batch (rename to_upper from to)
  apply_edit (touch path mtime mode) = on_batch (set_attr to_upper path mtime mode)

  unfoldable pub run : List Edit → Work → Result (Unit {0}) × Work
  unfolding apply_edit
  run [] w = (ok tt, w)
  run (e ∷ es) w = let rest = run es in andthen (apply_edit e w) rest
