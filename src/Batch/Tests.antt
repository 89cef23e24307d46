-- ===== src/Batch/Tests.antt =====
-- Witnesses and tests for the batches of a vault directory: BLAKE3 and the encryption of a blob are the
-- identity, and the CBOR of a manifest is empty.
use file_sec.Prelude.{
  Bool, false, ℕ, pos, ◌+◌, ◌-◌, ◌≤◌, ◌≡◌, refl, true, none, some, List, [], ◌∷◌, leb, ◌&&◌,
  if◌then◌else◌, Text, text, text_eq, starts_with, utf8_len, arith, ◌⊎◌,
}
use file_sec.Errors.{Result, ok, err, vault}
use file_sec.Paths.{
  split_from, join, has_drive, ends_badly, is_device, to_uppercase, check_component, collect,
  normalize_stored_path, normalize_path, is_spoofing_format_char,
}
use file_sec.Tree.{file, ensure_one, walk, init, ensure}
use file_sec.Suite.{classic}
use file_sec.State.{Bytes, StateMetadata, vault_manifest, next, link, from_metadata}
use file_sec.Blobs.{EntryV2, ManifestV2, open_file, remove_file, dir_entry}
use file_sec.Batch.{new_batch, index_entries, lookup, entry_at, push_at}
use file_sec.Batch.Ops.{
  StagedBlob, count_op, kind_of_path, reject_dir, ensure_dirs, placed, place, make_dir, mkdir,
}
use file_sec.Batch.Puts.{Work, write_blob, put_at, put_bytes}
use file_sec.Batch.Commit.{
  max_batch_ops, VaultReaderV2, Disk, Edit, put, make, remove_files, commit_with, commit_batch,
  ids_of, apply_edit, run, seal_and_write, reclaim,
}
use file_sec.Batch.Sealing.{IsUntouched, IsCommitted, commit_batch-IsCommitted}
use file_sec.Batch.Rollback.{commit_batch_rollback}
use file_sec.Batch.Counting.{count, uses}
use file_sec.Batch.Sound.{IsSound, commit_batch-IsSound, all_drawn}

ascii_upper : ℕ → Text
ascii_upper c = (if leb b'a' c && leb c b'z' then c - 32 else c) ∷ []

abbrev hash : Bytes → Bytes
hash bytes = bytes

abbrev encrypt : Bytes → Bytes → Bytes → Result Bytes
encrypt key nonce source = ok source

abbrev to_vec : ManifestV2 → Result Bytes
to_vec manifest = ok []

abbrev object_id_of : Bytes → Result Text
object_id_of header = ok []

abbrev old_file : EntryV2
old_file = record {
  path = b'c' ∷ [];
  kind = file;
  size = 1;
  mtime = none;
  mode = none;
  blake3 = 5 ∷ [];
  file_id = some (1 ∷ []);
  key = some [];
  nonce = some [];
  chunk_size = 65536;
}

abbrev reader : VaultReaderV2
reader = record {
  suite = classic;
  header_bytes = [];
  manifest = record { vault_name = []; created_at = pos 0; entries = old_file ∷ [] };
  owner_fingerprint = [];
  state = none;
  view = [];
  pending_reclaim = [];
}

abbrev disk : Disk
disk = record { blobs = (1 ∷ [], 5 ∷ []) ∷ []; manifest_file = none }

abbrev fresh : StagedBlob
fresh = record { file_id = 2 ∷ []; key = []; nonce = [] }

abbrev a_b : Text
a_b = b'a' ∷ b'/' ∷ b'b' ∷ []

-- Every removal succeeds, or none.
abbrev removes : Text → Bool
removes id = true

abbrev sticks : Text → Bool
sticks id = false

-- A file is put at `a/b`, and then a directory is asked for there.
abbrev clashing : List Edit
clashing = put a_b (7 ∷ []) none none fresh ∷ make a_b ∷ []

abbrev passing : List Edit
passing = put a_b (7 ∷ []) none none fresh ∷ []

clashing_fails :
    (commit_batch hash to_vec object_id_of removes
      (run hash encrypt ascii_upper clashing)
      (ok true)
      reader
      disk).0
    ≡ err (vault (text "a file exists at a/b"))
unfolding commit_batch commit_with run apply_edit put_bytes put_at write_blob reject_dir place
    placed ensure_dirs ensure ensure_one walk init count_op kind_of_path mkdir make_dir new_batch
    index_entries lookup entry_at push_at open_file remove_file remove_files dir_entry
    normalize_path normalize_stored_path collect split_from check_component join has_drive
    ends_badly is_device to_uppercase ascii_upper text_eq text starts_with utf8_len
    is_spoofing_format_char
clashing_fails = refl

commit_batch_rollback_example :
    (commit_batch hash to_vec object_id_of removes
      (run hash encrypt ascii_upper clashing)
      (ok true)
      reader
      disk).1
    ≡ (reader, disk)
commit_batch_rollback_example =
    commit_batch_rollback hash to_vec object_id_of removes reader disk encrypt ascii_upper clashing
      (ok true) (vault (text "a file exists at a/b")) (λ id. refl)
      (unfold open_file text_eq in refl, (tt, tt)) clashing_fails

reader-IsSound : IsSound reader disk
unfolding ids_of open_file
reader-IsSound = record { once = λ id. ground arith; backed = λ id u. ground arith }

distinct :
    (id : Text)
    → uses id reader.manifest.entries
        + count id reader.pending_reclaim
        + count id (all_drawn passing)
      ≤ 1
unfolding ids_of text_eq
distinct [] = omega arith
distinct (x ∷ id) = ground arith

commit_batch-IsSound_example :
    IsSound
      (commit_batch hash to_vec object_id_of sticks
        (run hash encrypt ascii_upper passing)
        (ok true)
        reader
        disk).1.0
      (commit_batch hash to_vec object_id_of sticks
        (run hash encrypt ascii_upper passing)
        (ok true)
        reader
        disk).1.1
commit_batch-IsSound_example =
    commit_batch-IsSound hash to_vec object_id_of sticks reader disk encrypt ascii_upper passing
      (ok true) reader-IsSound (unfold open_file text_eq in refl, tt) distinct

abbrev old_state : StateMetadata
old_state = record {
  identity_fingerprint = [];
  object_type = vault_manifest;
  object_id = [];
  suite_id = 1;
  epoch = 7;
  previous_state_hash = [];
  current_state_hash = 9 ∷ [];
}

abbrev anchored : VaultReaderV2
anchored = record reader { state = some old_state }

passing_commits :
    (commit_batch hash to_vec object_id_of removes
      (run hash encrypt ascii_upper passing)
      (ok true)
      anchored
      disk).0
    ≡ ok tt
unfolding commit_batch commit_with run apply_edit put_bytes put_at write_blob reject_dir place
    placed ensure_dirs ensure ensure_one walk init count_op kind_of_path new_batch index_entries
    lookup entry_at push_at open_file remove_file remove_files dir_entry normalize_path
    normalize_stored_path collect split_from check_component join has_drive ends_badly is_device
    to_uppercase ascii_upper text_eq text starts_with utf8_len is_spoofing_format_char
    seal_and_write next link from_metadata reclaim
passing_commits = refl

abbrev edited : Result (Unit {0}) × Work
edited =
    run hash encrypt ascii_upper passing
      (new_batch anchored.manifest (some max_batch_ops), disk.blobs)

abbrev committed : Result (Unit {0}) × (VaultReaderV2 × Disk)
committed =
    commit_batch hash to_vec object_id_of removes (run hash encrypt ascii_upper passing) (ok true)
      anchored disk

commit_batch-IsCommitted_example :
    (edited.0 ≡ ok tt)
    × (IsUntouched hash to_vec object_id_of removes edited.1.0 edited.1.1 anchored disk
          committed.1.0 committed.1.1
        ⊎ IsCommitted hash to_vec object_id_of removes old_state
            (ok true)
            edited.1.0
            edited.1.1
            anchored
            committed.1.0
            committed.1.1)
commit_batch-IsCommitted_example =
    commit_batch-IsCommitted hash to_vec object_id_of removes old_state anchored refl disk
      (run hash encrypt ascii_upper passing) (ok true) passing_commits
