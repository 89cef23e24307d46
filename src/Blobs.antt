-- ===== src/Blobs.antt =====
-- crates/filesec-core/src/format_v2.rs: the entries and the manifest of a vault directory, the checks
-- of a decrypted manifest and of a blob on disk. `char::to_uppercase` is a parameter.
use file_sec.Prelude.{
  ℕ, ℤ, ◌+◌, ◌*◌, ◌-◌, Bool, false, not, ◌&&◌, ◌||◌, Option, none, some, List, [], ◌∷◌, ◌++◌,
  length, take, drop, all, replicate, if◌then◌else◌, ltb, leb, ◌==◌, Text, text, text_eq,
  starts_with, utf8_len,
}
use file_sec.Errors.{Error, Result, ok, err, ◌>>=◌, ◌>>◌, fail_if, format, vault, io}
use file_sec.Paths.{normalize_stored_path}
use file_sec.Tree.{EntryKind, file, dir, is_file}
use file_sec.Tree.Parents.{is_member}
use file_sec.Vault.Shape.{check_tree_shape}
use file_sec.Suite.{AeadAlg, stream_nonce_len}
use file_sec.State.{Bytes}
use file_sec.Manifest.{max_manifest_entries, tag_len, u32_max, num_chunks, checked_add}

pub record EntryV2 : Type 0 where
  pub path : Text
  pub kind : EntryKind
  pub size : ℕ  -- u64
  pub mtime : Option ℤ  -- i64
  pub mode : Option ℕ  -- u32
  pub blake3 : Bytes  -- 32 bytes
  pub file_id : Option Text
  pub key : Option Bytes  -- 32 bytes
  pub nonce : Option Bytes
  pub chunk_size : ℕ  -- u32

pub record ManifestV2 : Type 0 where
  pub vault_name : Text
  pub created_at : ℤ
  pub entries : List EntryV2

unfoldable pub dir_entry : Text → EntryV2
dir_entry path = record {
  path = path;
  kind = dir;
  size = 0;
  mtime = none;
  mode = none;
  blake3 = replicate 32 0;
  file_id = none;
  key = none;
  nonce = none;
  chunk_size = 0;
}

-- The files below `blobs`, by name.
abbrev pub Blobs : Type 0
Blobs = List (Text × Bytes)

unfoldable pub remove_file : Text → Blobs → Blobs
remove_file id [] = []
remove_file id (b ∷ blobs) =
    let rest = remove_file id blobs in if text_eq b.0 id then rest else b ∷ rest

unfoldable pub open_file : Text → Blobs → Option Bytes
open_file id [] = none
open_file id (b ∷ blobs) =
    let rest = open_file id blobs in if text_eq b.0 id then some b.1 else rest

unfoldable pub is_trashed : Text → Bool
is_trashed path = text_eq path (text ".trash") || starts_with (text ".trash/") path

abbrev pub blob_id_len : ℕ
blob_id_len = 32

abbrev pub max_chunk_size : ℕ
max_chunk_size = 16777216

abbrev pub default_chunk_size : ℕ
default_chunk_size = 65536

-- A byte of a character beyond ASCII is at least 128, and so is its code point.
abbrev pub is_lower_hex : ℕ → Bool
is_lower_hex b = (leb b'0' b && leb b b'9') || (leb b'a' b && leb b b'f')

unfoldable pub validate_blob_id : Text → Result (Unit {0})
validate_blob_id id = do
  fail_if (not (utf8_len id == blob_id_len)) (format "blob id must be 32 hex chars")
  fail_if (not (all is_lower_hex id)) (format "blob id must be lowercase hex")
  ok tt

-- A hexadecimal digit in either case.
abbrev pub is_hex : ℕ → Bool
is_hex b = is_lower_hex b || (leb b'A' b && leb b b'F')

-- The name of a file that an interrupted write has left (crates/filesec-core/src/safe_io.rs).
unfoldable pub is_safe_writer_temp : Text → Bool
is_safe_writer_temp name =
    let rest = drop 9 name in
    let hex = take (length rest - 6) rest in
    starts_with (text ".filesec-") name
    && text_eq (drop (length rest - 6) rest) (text ".fstmp")
    && utf8_len hex == 16
    && all is_hex hex

-- `ok_or`
abbrev pub ok_or {ℓ} : {A : Type ℓ} → Option A → Error → Result A
ok_or none e = err e
ok_or (some a) e = ok a

unfoldable pub blob_id : EntryV2 → Result Text
unfolding validate_blob_id
blob_id entry = do
  id ← ok_or entry.file_id (format "file entry missing blob id")
  validate_blob_id id
  ok id

abbrev pub has_nonce : Option Bytes → ℕ → Bool
has_nonce none n = false
has_nonce (some nonce) n = length nonce == n

-- The checks on a file's entry; returns the size of all files so far.
unfoldable pub check_file : AeadAlg → EntryV2 → ℕ → Result ℕ
unfolding validate_blob_id num_chunks stream_nonce_len
check_file alg e total_size = do
  id ← ok_or e.file_id (format "missing blob id")
  validate_blob_id id
  fail_if (e.chunk_size == 0 || ltb max_chunk_size e.chunk_size) (format "bad chunk size")
  fail_if (ltb u32_max (num_chunks e.size e.chunk_size)) (format "too many blob chunks")
  next ← checked_add total_size e.size (format "size overflow")
  key ← ok_or e.key (format "missing blob key")
  fail_if (not (has_nonce e.nonce (stream_nonce_len alg))) (format "bad blob nonce length")
  ok next

abbrev pub check_kind : EntryKind → AeadAlg → EntryV2 → ℕ → Result ℕ
check_kind file alg e total_size = check_file alg e total_size
check_kind dir alg e total_size = ok total_size

module _ (to_upper : ℕ → Text) (alg : AeadAlg) where
  unfoldable pub manifest_loop :
      List EntryV2 → ℕ → List Text → List (Text × EntryKind) → Result (List (Text × EntryKind))
  manifest_loop [] total_size seen shape = ok shape
  manifest_loop (e ∷ es) total_size seen shape = do
    norm ← normalize_stored_path to_upper e.path
    fail_if (is_member norm seen) (format "duplicate path in manifest")
    next ← check_kind e.kind alg e total_size
    manifest_loop es next (norm ∷ seen) (shape ++ (norm, e.kind) ∷ [])

  unfoldable pub validate_manifest_v2 : ManifestV2 → Result (Unit {0})
  unfolding manifest_loop
  validate_manifest_v2 manifest = do
    fail_if (ltb max_manifest_entries (length manifest.entries))
        (format "too many manifest entries")
    shape ← manifest_loop manifest.entries 0 [] []
    check_tree_shape shape

-- The length that a blob must have on disk.
unfoldable pub blob_len : ℕ → ℕ → Result ℕ
unfolding num_chunks
blob_len size chunk_size = do
  fail_if (chunk_size == 0) (format "bad chunk size")
  let chunks = num_chunks size chunk_size
  fail_if (ltb u32_max chunks) (format "too many blob chunks")
  checked_add size (chunks * tag_len) (format "blob length overflow")

unfoldable pub open_blob : Text → ℕ → ℕ → Blobs → Result Bytes
unfolding blob_len open_file
open_blob file_id size chunk_size blobs = do
  expected ← blob_len size chunk_size
  content ← ok_or (open_file file_id blobs) (io "not found")
  fail_if (not (length content == expected)) (format "blob length mismatch")
  ok content

-- Where chunk `c` of a blob stands: its offset, its length with the tag, and whether it is the last.
unfoldable pub chunk_extent : ℕ → ℕ → ℕ → ℕ × ℕ × Bool
unfolding num_chunks
chunk_extent size chunk c =
    let last_index = num_chunks size chunk - 1 in
    let is_last = c == last_index in
    let pt_len = if is_last then size - last_index * chunk else chunk in
    (c * (chunk + tag_len), pt_len + tag_len, is_last)

-- `iter().find(|e| e.path == path)`
unfoldable pub find_path : Text → List EntryV2 → Option EntryV2
find_path path [] = none
find_path path (e ∷ es) = if text_eq e.path path then some e else find_path path es

module _ (to_upper : ℕ → Text) where
  unfoldable pub file_entry : Text → ManifestV2 → Result EntryV2
  unfolding find_path
  file_entry path manifest = do
    norm ← normalize_stored_path to_upper path
    e ← ok_or (find_path norm manifest.entries) (vault (text "entry not found"))
    fail_if (not (is_file e.kind)) (vault (text "not a file"))
    ok e
