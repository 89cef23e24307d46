-- ===== src/Manifest.antt =====
-- crates/filesec-core/src/manifest.rs, and from crates/filesec-core/src/format.rs the manifest of an
-- export and the check of an untrusted one. BLAKE3 and `char::to_uppercase` are parameters.
pub mod Layout
mod Tests
use file_sec.Prelude.{
  ℕ, ℤ, ◌+◌, ◌*◌, ◌/◌, ◌%◌, ◌-◌, ◌≡◌, Bool, true, false, not, ◌&&◌, ◌||◌, Option, none, some, List,
  [], ◌∷◌, ◌++◌, length, replicate, min, if◌then◌else◌, ltb, ◌==◌, Text, text,
}
use file_sec.Errors.{Error, Result, ok, err, ◌>>=◌, ◌>>◌, fail_if, format}
use file_sec.Paths.{normalize_path}
use file_sec.Tree.{EntryKind, file, dir, is_file}
use file_sec.Tree.Parents.{is_member}
use file_sec.Vault.{Vault, VaultEntry, size}
use file_sec.Vault.Shape.{check_tree_shape}
use file_sec.State.{Bytes, u64_max}

pub record Entry : Type 0 where
  pub path : Text
  pub kind : EntryKind
  pub size : ℕ  -- u64
  pub mtime : Option ℤ  -- i64
  pub mode : Option ℕ  -- u32
  pub blake3 : Bytes  -- 32 bytes
  pub data_offset : ℕ  -- u64

pub record Manifest : Type 0 where
  pub vault_name : Text
  pub created_at : ℤ
  pub entries : List Entry

abbrev pub max_manifest_entries : ℕ
max_manifest_entries = 1_000_000

abbrev pub tag_len : ℕ
tag_len = 16

abbrev pub u32_max : ℕ
u32_max = 4294967295

-- `div_ceil` on u64.
abbrev pub div_ceil : ℕ → ℕ → ℕ
div_ceil a b = if a % b == 0 then a / b else a / b + 1

-- An empty stream still has one chunk.
unfoldable pub num_chunks : ℕ → ℕ → ℕ
num_chunks size chunk = if size == 0 then 1 else div_ceil size chunk

unfoldable pub data_ciphertext_len : ℕ → ℕ → ℕ
unfolding num_chunks
data_ciphertext_len plaintext_len chunk_size =
    plaintext_len + num_chunks plaintext_len chunk_size * tag_len

-- `checked_add` on u64.
abbrev pub checked_add : ℕ → ℕ → Error → Result ℕ
checked_add a b e = if ltb u64_max (a + b) then err e else ok (a + b)

module _ (blake3 : Bytes → Bytes) where
  abbrev entry_of : EntryKind → VaultEntry → ℕ → Entry
  entry_of file e offset = record {
    path = e.path;
    kind = file;
    size = size e;
    mtime = e.mtime;
    mode = e.mode;
    blake3 = blake3 e.content;
    data_offset = offset;
  }
  entry_of dir e offset = record {
    path = e.path;
    kind = dir;
    size = 0;
    mtime = e.mtime;
    mode = e.mode;
    blake3 = replicate 32 0;
    data_offset = 0;
  }

  -- `saturating_add` on u64.
  abbrev after_entry : EntryKind → VaultEntry → ℕ → ℕ
  after_entry file e offset = min (offset + size e) u64_max
  after_entry dir e offset = offset

  unfoldable pub build_entries : List VaultEntry → ℕ → List Entry
  unfolding size
  build_entries [] offset = []
  build_entries (e ∷ es) offset =
      entry_of e.kind e offset ∷ build_entries es (after_entry e.kind e offset)

  unfoldable pub build_manifest : Vault → Manifest
  unfolding build_entries
  build_manifest v = record {
    vault_name = v.name;
    created_at = v.created_at;
    entries = build_entries v.entries 0;
  }

-- The bytes of the stream in front of what follows an entry that starts at `total`.
abbrev pub advance : EntryKind → Entry → ℕ → Result ℕ
advance file e total = do
  fail_if (not (e.data_offset == total)) (format "non-contiguous data offset")
  checked_add total e.size (format "size overflow")
advance dir e total = ok total

module _ (to_upper : ℕ → Text) where
  -- The loop over the entries: the plaintext length, the paths seen, and the normalized tree.
  unfoldable pub layout_loop :
      List Entry → ℕ → List Text → List (Text × EntryKind) → Result (ℕ × List (Text × EntryKind))
  layout_loop [] total seen shape = ok (total, shape)
  layout_loop (e ∷ es) total seen shape = do
    p ← normalize_path to_upper e.path
    fail_if (is_member p seen) (format "duplicate path in manifest")
    next ← advance e.kind e total
    layout_loop es next (p ∷ seen) (shape ++ (p, e.kind) ∷ [])

  -- The plaintext length and the number of chunks of a container's data.
  unfoldable pub validate_manifest_layout : Manifest → ℕ → ℕ → Result (ℕ × ℕ)
  unfolding layout_loop num_chunks
  validate_manifest_layout manifest chunk_size data_len_ciphertext = do
    fail_if (chunk_size == 0) (format "bad chunk size")
    fail_if (ltb max_manifest_entries (length manifest.entries))
        (format "too many manifest entries")
    (total, shape) ← layout_loop manifest.entries 0 [] []
    let chunks = num_chunks total chunk_size
    fail_if (ltb u32_max chunks) (format "too many chunks")
    check_tree_shape shape
    expected ← checked_add total (min (chunks * tag_len) u64_max) (format "length overflow")
    fail_if (not (expected == data_len_ciphertext)) (format "data length mismatch")
    ok (total, chunks)
