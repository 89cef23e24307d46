-- ===== src/Batch/Ops.antt =====
-- crates/filesec-core/src/format_v2.rs: the edits of `VaultBatch`. A method returns its result beside the
-- batch. `char::to_uppercase` is a parameter.
use file_sec.Prelude.{
  ℕ, zero, suc, ℤ, ◌+◌, ◌/◌, ◌%◌, Bool, true, false, not, Option, none, some, List, [], ◌∷◌, ◌++◌,
  length, set, map, if◌then◌else◌, ltb, ◌==◌, Text, text, text_eq, starts_with, drop,
}
use file_sec.Errors.{Error, Result, ok, err, vault, auth, format}
use file_sec.Paths.{slash, normalize_path, normalize_stored_path}
use file_sec.Tree.{EntryKind, file, dir, is_file, andthen, ensure}
use file_sec.Vault.{on_path, is_within}
use file_sec.State.{Bytes}
use file_sec.Blobs.{EntryV2, dir_entry, default_chunk_size}
use file_sec.Batch.{VaultBatch, lookup, entry_at, push_at, reindex, batch_store}

-- A number in decimal, on fuel.
unfoldable pub decimal : ℕ → ℕ → Text
decimal zero n = []
decimal (suc fuel) n =
    let front = decimal fuel (n / 10) in
    if ltb n 10 then (b'0' + n) ∷ [] else front ++ (b'0' + n % 10) ∷ []

abbrev pub over_limit : Option ℕ → ℕ → Bool
over_limit none ops = false
over_limit (some limit) ops = ltb limit ops

abbrev pub limit_error : Option ℕ → Error
limit_error none = auth
limit_error (some limit) =
    vault (text "a batch holds at most " ++ (decimal 20 limit ++ text " operations"))

unfoldable pub count_op : VaultBatch → Result (Unit {0}) × VaultBatch
unfolding decimal
count_op b = (
  if over_limit b.limit (b.ops + 1) then err (limit_error b.limit) else ok tt,
  record b { ops = b.ops + 1 },
)

unfoldable pub kind_of_path : VaultBatch → Text → Option EntryKind
unfolding entry_at
kind_of_path b path = elim (entry_at b path) [ none ↦ none | some e ↦ some e.kind ]

unfoldable pub ensure_dirs : Text → VaultBatch → Result (Unit {0}) × VaultBatch
unfolding ensure push_at entry_at dir_entry
ensure_dirs norm b = ensure batch_store norm b

-- A freshly encrypted blob that no manifest references yet.
pub record StagedBlob : Type 0 where
  pub file_id : Text
  pub key : Bytes
  pub nonce : Bytes

-- What a caller says of a file.
pub record FileInfo : Type 0 where
  pub blake3 : Bytes
  pub size : ℕ
  pub mtime : Option ℤ
  pub mode : Option ℕ

unfoldable pub placed : Text → StagedBlob → FileInfo → EntryV2
placed norm blob info = record {
  path = norm;
  kind = file;
  size = info.size;
  mtime = info.mtime;
  mode = info.mode;
  blake3 = info.blake3;
  file_id = some blob.file_id;
  key = some blob.key;
  nonce = some blob.nonce;
  chunk_size = default_chunk_size;
}

-- `superseded.extend(old.file_id)`
abbrev pub extend : List Text → Option Text → List Text
extend ids none = ids
extend ids (some id) = ids ++ id ∷ []

abbrev pub old_id : Option EntryV2 → Option Text
old_id none = none
old_id (some e) = e.file_id

-- The entry at a position is replaced.
abbrev pub replace_at : ℕ → EntryV2 → Option EntryV2 → VaultBatch → VaultBatch
replace_at i entry old b = record b {
  manifest = record b.manifest { entries = set b.manifest.entries i entry };
  superseded = extend b.superseded (old_id old);
  changed = true;
}

abbrev pub set_changed : VaultBatch → VaultBatch
set_changed b = record b { changed = true }

unfoldable pub place : Text → StagedBlob → FileInfo → VaultBatch → Result (Unit {0}) × VaultBatch
unfolding placed ensure_dirs lookup
place norm blob info b =
    let staged = record b { staged = b.staged ++ blob.file_id ∷ [] } in
    elim (lookup norm b.index) [
      | some i ↦ (ok tt, replace_at i (placed norm blob info) (entry_at b norm) staged)
      | none ↦
          andthen (ensure_dirs norm staged)
            (λ c. (ok tt, set_changed (push_at norm (placed norm blob info) c)))
    ]

-- A directory at a path where nothing stands.
unfoldable pub make_dir : Text → VaultBatch → Result (Unit {0}) × VaultBatch
unfolding ensure_dirs
make_dir norm b =
    andthen (ensure_dirs norm b) (λ c. (ok tt, set_changed (push_at norm (dir_entry norm) c)))

abbrev pub mkdir_at : Option EntryKind → Error → Text → VaultBatch → Result (Unit {0}) × VaultBatch
mkdir_at (some dir) e norm b = (ok tt, b)
mkdir_at (some file) e norm b = (err e, b)
mkdir_at none e norm b = make_dir norm b

unfoldable pub reject_dir : VaultBatch → Text → Result (Unit {0})
unfolding kind_of_path
reject_dir b norm = elim (kind_of_path b norm) [
  | none ↦ ok tt
  | some kind ↦ if is_file kind then ok tt else err (vault (text "a directory exists at " ++ norm))
]

unfoldable pub retain : (EntryV2 → Bool) → List EntryV2 → List EntryV2
retain keep [] = []
retain keep (e ∷ es) = let rest = retain keep es in if keep e then e ∷ rest else rest

-- The blobs of the entries that are removed.
unfoldable pub removed_ids : (EntryV2 → Bool) → List EntryV2 → List Text
removed_ids hit [] = []
removed_ids hit (e ∷ es) =
    let rest = removed_ids hit es in if hit e then extend [] e.file_id ++ rest else rest

-- `remove` at a normalized path.
unfoldable pub remove_at : Text → VaultBatch → Result (Unit {0}) × VaultBatch
unfolding retain removed_ids
remove_at norm b =
    let hit : EntryV2 → Bool = λ e. is_within norm e.path in
    let kept = retain (λ e. not (hit e)) b.manifest.entries in
    (
      ok tt,
      if length kept == length b.manifest.entries
          then b
          else reindex (record b {
            manifest = record b.manifest { entries = kept };
            superseded = b.superseded ++ removed_ids hit b.manifest.entries;
            changed = true;
          }),
    )

-- The new path of an entry: `to` in place of `from`, on `from` itself and below it.
unfoldable pub moved : Text → Text → Text → Text
moved from to path =
    if text_eq path from
    then to
    else if starts_with (from ++ slash ∷ []) path
    then to ++ slash ∷ drop (length (from ++ slash ∷ [])) path
    else path

abbrev pub move_entry : Text → Text → EntryV2 → EntryV2
move_entry from to e = record e { path = moved from to e.path }

abbrev pub is_some {ℓ} : {A : Type ℓ} → Option A → Bool
is_some none = false
is_some (some a) = true

unfoldable pub rename_at : Text → Text → VaultBatch → Result (Unit {0}) × VaultBatch
unfolding ensure_dirs moved
rename_at from to b =
    if text_eq from to
    then (ok tt, b)
    else if starts_with (from ++ slash ∷ []) to
    then (err (vault (text "cannot move a directory into itself")), b)
    else if not (is_some (lookup from b.index))
    then (err (vault (text "not found: " ++ from)), b)
    else if is_some (lookup to b.index)
    then (err (vault (text "path already exists: " ++ to)), b)
    else andthen (ensure_dirs to b) (λ c. (
      ok tt,
      reindex (record c {
        manifest = record c.manifest { entries = map (move_entry from to) c.manifest.entries };
        changed = true;
      }),
    ))

abbrev pub attr_at :
    Option ℕ
    → Option EntryV2
    → Option ℤ
    → Option ℕ
    → Text
    → VaultBatch
    → Result (Unit {0}) × VaultBatch
attr_at (some i) (some e) mtime mode norm b = (
  ok tt,
  record b {
    manifest = record b.manifest {
      entries = set b.manifest.entries i (record e { mtime = mtime; mode = mode });
    };
    changed = true;
  },
)
attr_at _ _ mtime mode norm b = (err (vault (text "not found: " ++ norm)), b)

-- `self.count_op()?` in front of a method.
abbrev pub counted :
    (VaultBatch → Result (Unit {0}) × VaultBatch) → VaultBatch → Result (Unit {0}) × VaultBatch
counted method b = andthen (count_op b) method

module _ (to_upper : ℕ → Text) where
  unfoldable pub mkdir : Text → VaultBatch → Result (Unit {0}) × VaultBatch
  unfolding count_op make_dir kind_of_path
  mkdir vault_path = counted (
      on_path (normalize_path to_upper vault_path)
        λ norm b. mkdir_at (kind_of_path b norm) (vault (text "a file exists at " ++ norm)) norm b)

  unfoldable pub add_dir_trusted : Text → VaultBatch → Result (Unit {0}) × VaultBatch
  unfolding make_dir kind_of_path
  add_dir_trusted path = on_path (normalize_stored_path to_upper path) λ norm b.
      mkdir_at (kind_of_path b norm) (format "a path is both a file and a directory") norm b

  unfoldable pub remove : Text → VaultBatch → Result (Unit {0}) × VaultBatch
  unfolding count_op remove_at
  remove vault_path = counted (on_path (normalize_stored_path to_upper vault_path) remove_at)

  unfoldable pub rename : Text → Text → VaultBatch → Result (Unit {0}) × VaultBatch
  unfolding count_op rename_at
  rename from to = counted (
      on_path (normalize_stored_path to_upper from)
        λ old. on_path (normalize_path to_upper to) λ new. rename_at old new)

  unfoldable pub set_attr : Text → Option ℤ → Option ℕ → VaultBatch → Result (Unit {0}) × VaultBatch
  unfolding count_op lookup
  set_attr vault_path mtime mode = counted (
      on_path (normalize_stored_path to_upper vault_path)
        λ norm b. attr_at (lookup norm b.index) (entry_at b norm) mtime mode norm b)
