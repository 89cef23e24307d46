-- ===== src/Batch/GarbageTests.antt =====
-- A witness and a test for the collection of garbage in a vault directory.
use file_sec.Prelude.{
  pos, ◌≤◌, ◌≡◌, refl, subst, true, none, some, [], ◌∷◌, replicate, Bool-cases, inl, inr, Text,
  text, text_eq, text_eq_iff, starts_with, utf8_len, arith,
}
use file_sec.Errors.{ok}
use file_sec.Tree.{file}
use file_sec.Suite.{classic}
use file_sec.Blobs.{EntryV2, open_file, validate_blob_id, is_safe_writer_temp}
use file_sec.Batch.Ops.{is_some}
use file_sec.Batch.Commit.{VaultReaderV2, Disk, Listing, is_removed, sweep, ids_of, collect_garbage}
use file_sec.Batch.Counting.{uses}
use file_sec.Batch.Sound.{IsSound}
use file_sec.Batch.Garbage.{collect_garbage-IsSound}

abbrev used_id : Text
used_id = replicate 32 b'a'

abbrev orphan_id : Text
orphan_id = replicate 32 b'0'

abbrev used : EntryV2
used = record {
  path = b'c' ∷ [];
  kind = file;
  size = 1;
  mtime = none;
  mode = none;
  blake3 = 5 ∷ [];
  file_id = some used_id;
  key = some [];
  nonce = some [];
  chunk_size = 65536;
}

abbrev reader : VaultReaderV2
reader = record {
  suite = classic;
  header_bytes = [];
  manifest = record { vault_name = []; created_at = pos 0; entries = used ∷ [] };
  owner_fingerprint = [];
  state = none;
  view = [];
  pending_reclaim = [];
}

abbrev disk : Disk
disk = record { blobs = (orphan_id, 6 ∷ []) ∷ (used_id, 5 ∷ []) ∷ []; manifest_file = none }

-- The blobs directory with every removal succeeding.
abbrev listing : Listing
listing = record {
  read_dir = ok tt;
  entry = λ name. ok tt;
  is_file = λ name. ok true;
  gone = λ name. true;
}

-- The orphan goes.
one_removed : (collect_garbage listing true reader disk).0 ≡ ok 1
unfolding collect_garbage is_removed sweep validate_blob_id is_safe_writer_temp ids_of text_eq
    starts_with text utf8_len
one_removed = refl

names_used : (id : Text) → 1 ≤ uses id reader.manifest.entries → used_id ≡ id
unfolding ids_of
names_used id u = elim (Bool-cases (text_eq used_id id)) [
  | inl same ↦ (text_eq_iff used_id id).0 same
  | inr other ↦ absurd (ground arith)
]

used_there : (open_file used_id disk.blobs) ≡ some (5 ∷ [])
unfolding open_file text_eq
used_there = refl

reader-IsSound : IsSound reader disk
unfolding ids_of
reader-IsSound = record {
  once = λ id. ground arith;
  backed = λ id u.
      subst (λ x. is_some (open_file x disk.blobs) ≡ true) (names_used id u) (rw used_there);
}

used_valid : (id : Text) → 1 ≤ uses id reader.manifest.entries → validate_blob_id id ≡ ok tt
unfolding validate_blob_id utf8_len
used_valid id u = subst (λ x. validate_blob_id x ≡ ok tt) (names_used id u) refl

collect_garbage-IsSound_example :
    IsSound
      (collect_garbage listing true reader disk).1.0
      (collect_garbage listing true reader disk).1.1
collect_garbage-IsSound_example =
    collect_garbage-IsSound listing true reader disk reader-IsSound used_valid
