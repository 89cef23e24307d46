-- ===== src/Batch.antt =====
-- crates/filesec-core/src/format_v2.rs, `VaultBatch`: a copy of a vault's manifest with an index from
-- each path to the position of its entry, which a set of edits changes together.
pub mod Ops
pub mod Puts
pub mod Sources
pub mod Commit
pub mod Stable
pub mod Staging
pub mod Rollback
pub mod Renaming
pub mod MovedTree
pub mod Moves
pub mod Sealing
pub mod Garbage
pub mod Counting
pub mod Keeping
pub mod Backing
pub mod Staying
pub mod Sound
mod Tests
mod MoveTests
mod GarbageTests
use file_sec.Prelude.{
  ℕ, zero, suc, ◌+◌, ◌*◌, ◌-◌, ◌≡◌, refl, sym, ap, ◌∙◌, Bool, true, false, not, ◌&&◌, ◌||◌, Option,
  none, some, List, [], ◌∷◌, ◌++◌, length, get_elem?, if◌then◌else◌, Text, text, text_eq,
  text_eq_iff, text_eq_refl, Bool-cases, Option-cases, inl, inr, arith,
}
use file_sec.Tree.{EntryKind, file, dir, TreeStore}
use file_sec.Blobs.{EntryV2, ManifestV2, dir_entry, find_path}

-- The hash map from paths to positions: the latest insertion of a path counts.
abbrev pub Index : Type 0
Index = List (Text × ℕ)

unfoldable pub lookup : Text → Index → Option ℕ
lookup path [] = none
lookup path ((p, i) ∷ index) =
    let rest = lookup path index in if text_eq p path then some i else rest

-- The batch without the reader that it borrows.
pub record VaultBatch : Type 0 where
  pub manifest : ManifestV2
  pub index : Index
  pub staged : List Text
  pub superseded : List Text
  pub changed : Bool
  pub ops : ℕ  -- usize
  pub limit : Option ℕ

abbrev index_from : List EntryV2 → ℕ → Index → Index
index_from [] i index = index
index_from (e ∷ es) i index = index_from es (suc i) ((e.path, i) ∷ index)

unfoldable pub index_entries : ManifestV2 → Index
index_entries manifest = index_from manifest.entries 0 []

unfoldable pub new_batch : ManifestV2 → Option ℕ → VaultBatch
unfolding index_entries
new_batch manifest limit = record {
  manifest = manifest;
  index = index_entries manifest;
  staged = [];
  superseded = [];
  changed = false;
  ops = 0;
  limit = limit;
}

unfoldable pub reindex : VaultBatch → VaultBatch
unfolding index_entries
reindex b = record b { index = index_entries b.manifest }

-- The entry that the index names.
unfoldable pub entry_at : VaultBatch → Text → Option EntryV2
unfolding lookup
entry_at b path = elim (lookup path b.index) [
  | none ↦ none
  | some i ↦ get_elem? b.manifest.entries i
]

-- `self.index.insert(path, entries.len()); entries.push(entry)`
unfoldable pub push_at : Text → EntryV2 → VaultBatch → VaultBatch
push_at path entry b = record b {
  index = (path, length b.manifest.entries) ∷ b.index;
  manifest = record b.manifest { entries = b.manifest.entries ++ entry ∷ [] };
}

-- No two entries have one path.
abbrev pub IsUnique : List EntryV2 → Type 0
IsUnique [] = Unit
IsUnique (e ∷ es) = (find_path e.path es ≡ none) × IsUnique es

abbrev pub position : Text → List EntryV2 → Option ℕ
position path [] = none
position path (e ∷ es) =
    let rest = position path es in
    if text_eq e.path path then some 0 else elim rest [ none ↦ none | some i ↦ some (suc i) ]

-- Paths are unique, and the index has the position of each.
pub record IsIndexed (b : VaultBatch) : Type 0 where
  pub unique : IsUnique b.manifest.entries
  pub indexed : (p : Text) → lookup p b.index ≡ position p b.manifest.entries

abbrev pub nth_of : List EntryV2 → Option ℕ → Option EntryV2
nth_of es none = none
nth_of es (some i) = get_elem? es i

nth_of-position : (p : Text) (es : List EntryV2) → nth_of es (position p es) ≡ find_path p es
unfolding find_path
nth_of-position p [] = refl
nth_of-position p (e ∷ es) = elim (Bool-cases (text_eq e.path p)) [
  | inl same ↦ rw same
  | inr other ↦ rw other (ground (arith, nth_of-position p es))
]

pub entry_at-find_path :
    (b : VaultBatch) (p : Text) → IsIndexed b → entry_at b p ≡ find_path p b.manifest.entries
unfolding entry_at
entry_at-find_path b p v = ground (arith, v.indexed p, nth_of-position p b.manifest.entries)

position-none : (p : Text) (es : List EntryV2) → find_path p es ≡ none → position p es ≡ none
unfolding find_path
position-none p [] h = refl
position-none p (e ∷ es) h = ground (arith, position-none p es)

pub find_path-append :
    (q : Text) (es : List EntryV2) (e : EntryV2)
    → find_path q (es ++ e ∷ []) ≡ (elim (find_path q es) [
      | some x ↦ some x
      | none ↦ if text_eq e.path q then some e else none
    ])
unfolding find_path
find_path-append q [] e = refl
find_path-append q (x ∷ es) e = ground (arith, find_path-append q es e)

position-append :
    (q : Text) (es : List EntryV2) (e : EntryV2)
    → position q (es ++ e ∷ []) ≡ (elim (position q es) [
      | some i ↦ some i
      | none ↦ if text_eq e.path q then some (length es) else none
    ])
position-append q [] e = refl
position-append q (x ∷ es) e = ground (arith, position-append q es e)

IsUnique-append :
    (es : List EntryV2) (e : EntryV2)
    → IsUnique es
    → find_path e.path es ≡ none
    → IsUnique (es ++ e ∷ [])
unfolding find_path
IsUnique-append [] e u h = (refl, tt)
IsUnique-append (x ∷ es) e u h = (
  ground
      (arith, find_path-append x.path es e, text_eq_iff x.path e.path, text_eq_iff e.path x.path),
  IsUnique-append es e u.1 (ground arith),
)

-- Pushing an entry at a free path.
pub push_at-IsIndexed :
    (e : EntryV2) (b : VaultBatch)
    → IsIndexed b
    → entry_at b e.path ≡ none
    → IsIndexed (push_at e.path e b)
unfolding push_at lookup
push_at-IsIndexed e b v h =
    let free : find_path e.path b.manifest.entries ≡ none =
      sym (entry_at-find_path b e.path v) ∙ h in
    record {
      unique = IsUnique-append b.manifest.entries e v.unique free;
      indexed = λ q. ground (
        arith,
        v.indexed q,
        position-append q b.manifest.entries e,
        position-none e.path b.manifest.entries free,
        text_eq_iff e.path q,
      );
    }

pub entry_at-push_at :
    (e : EntryV2) (q : Text) (b : VaultBatch)
    → IsIndexed b
    → entry_at b e.path ≡ none
    → entry_at (push_at e.path e b) q ≡ (if text_eq e.path q then some e else entry_at b q)
entry_at-push_at e q b v h =
    let free : find_path e.path b.manifest.entries ≡ none =
      sym (entry_at-find_path b e.path v) ∙ h in
    entry_at-find_path (push_at e.path e b) q (push_at-IsIndexed e b v h)
    ∙ unfold push_at in
      ground (
        arith,
        entry_at-find_path b q v,
        find_path-append q b.manifest.entries e,
        text_eq_iff e.path q,
      )

pub dir_push-IsIndexed :
    (p : Text) (b : VaultBatch)
    → IsIndexed b
    → entry_at b p ≡ none
    → IsIndexed (push_at p (dir_entry p) b)
unfolding dir_entry
dir_push-IsIndexed p b v h = push_at-IsIndexed (dir_entry p) b v h

pub entry_at-dir_push :
    (p q : Text) (b : VaultBatch)
    → IsIndexed b
    → entry_at b p ≡ none
    → entry_at (push_at p (dir_entry p) b) q
      ≡ (if text_eq p q then some (dir_entry p) else entry_at b q)
unfolding dir_entry
entry_at-dir_push p q b v h = entry_at-push_at (dir_entry p) q b v h

pub kind-dir_entry : (p : Text) → (dir_entry p).kind ≡ dir
unfolding dir_entry
kind-dir_entry p = refl

-- The batch as a tree of entries.
abbrev pub batch_store : TreeStore
batch_store = record {
  S = VaultBatch;
  E = EntryV2;
  kind_of = λ e. e.kind;
  new_dir = dir_entry;
  kind_of-new_dir = kind-dir_entry;
  entry_at = entry_at;
  push_dir = λ p b. push_at p (dir_entry p) b;
  IsValid = IsIndexed;
  push_dir-IsValid = dir_push-IsIndexed;
  entry_at-push_dir = entry_at-dir_push;
}

index_from-position :
    (q : Text) (es : List EntryV2) (i : ℕ) (index : Index)
    → IsUnique es
    → lookup q (index_from es i index)
      ≡ (elim (position q es) [ some j ↦ some (i + j) | none ↦ lookup q index ])
unfolding lookup
index_from-position q [] i index u = refl
index_from-position q (e ∷ es) i index u = ground (
  arith,
  index_from-position q es (suc i) ((e.path, i) ∷ index) u.1,
  text_eq_iff e.path q,
  position-none e.path es u.0,
)

-- The index that is built for a manifest without duplicates is right.
pub reindex-IsIndexed : (b : VaultBatch) → IsUnique b.manifest.entries → IsIndexed (reindex b)
unfolding reindex index_entries lookup
reindex-IsIndexed b u = record {
  unique = u;
  indexed = λ p. ground (arith, index_from-position p b.manifest.entries 0 [] u);
}

pub new_batch-IsIndexed :
    (manifest : ManifestV2) (limit : Option ℕ)
    → IsUnique manifest.entries
    → IsIndexed (new_batch manifest limit)
unfolding new_batch index_entries lookup
new_batch-IsIndexed manifest limit u = record {
  unique = u;
  indexed = λ p. ground (arith, index_from-position p manifest.entries 0 [] u);
}
