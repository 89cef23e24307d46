-- ===== src/Batch/Stable.antt =====
-- What the edits of a batch keep that do not add a file (crates/filesec-core/src/format_v2.rs): whatever
-- their elementary changes keep.
use file_sec.Prelude.{
  ℕ, ℤ, ◌+◌, ◌≡◌, refl, Bool, true, not, Option, none, some, [], ◌∷◌, ◌++◌, length, map, set,
  get_elem?, ◌==◌, Bool-cases, Option-cases, inl, inr, Text, text, text_eq, starts_with, arith,
}
use file_sec.Errors.{Error, Result, ok, err, vault}
use file_sec.Paths.{slash, normalize_path, normalize_stored_path}
use file_sec.Vault.{on_path, is_within}
use file_sec.Tree.{EntryKind, file, dir}
use file_sec.Tree.Keeping.{andthen-keeps, ensure-keeps}
use file_sec.Blobs.{EntryV2, dir_entry}
use file_sec.Batch.{VaultBatch, lookup, entry_at, push_at, reindex, batch_store}
use file_sec.Batch.Ops.{
  count_op, counted, kind_of_path, ensure_dirs, make_dir, mkdir_at, mkdir, retain, removed_ids,
  remove_at, remove, move_entry, rename_at, rename, attr_at, set_attr, set_changed,
}

-- A batch after entries were removed.
abbrev pub removing : (EntryV2 → Bool) → VaultBatch → VaultBatch
removing hit b = record b {
  manifest = record b.manifest { entries = retain (λ e. not (hit e)) b.manifest.entries };
  superseded = b.superseded ++ removed_ids hit b.manifest.entries;
  changed = true;
}

abbrev pub moving : Text → Text → VaultBatch → VaultBatch
moving from to b = record b {
  manifest = record b.manifest { entries = map (move_entry from to) b.manifest.entries };
  changed = true;
}

abbrev pub touching : ℕ → EntryV2 → Option ℤ → Option ℕ → VaultBatch → VaultBatch
touching i e mtime mode b = record b {
  manifest = record b.manifest {
    entries = set b.manifest.entries i (record e { mtime = mtime; mode = mode });
  };
  changed = true;
}

pub record IsStable (P : VaultBatch → Type 0) : Type 0 where
  pub counting : (n : ℕ) (b : VaultBatch) → P b → P (record b { ops = n })
  pub pushing : (p : Text) (b : VaultBatch) → P b → P (push_at p (dir_entry p) b)
  pub flagging : (b : VaultBatch) → P b → P (set_changed b)
  pub indexing : (b : VaultBatch) → P b → P (reindex b)
  pub deleting : (hit : EntryV2 → Bool) (b : VaultBatch) → P b → P (removing hit b)
  pub renaming : (from to : Text) (b : VaultBatch) → P b → P (moving from to b)
  pub marking :
      (i : ℕ) (e : EntryV2) (mtime : Option ℤ) (mode : Option ℕ) (b : VaultBatch)
      → get_elem? b.manifest.entries i ≡ some e
      → P b
      → P (touching i e mtime mode b)

pub on_path-keeps :
    {S : Type 0} (P : S → Type 0) (r : Result Text) (next : Text → S → Result (Unit {0}) × S)
    → ((norm : Text) (s : S) → P s → P (next norm s).1)
    → (s : S) → P s
    → P (on_path r next s).1
on_path-keeps P (ok norm) next h s p = h norm s p
on_path-keeps P (err e) next h s p = p

module _ (P : VaultBatch → Type 0) (st : IsStable P) where
  pub ensure_dirs-keeps : (norm : Text) (b : VaultBatch) → P b → P (ensure_dirs norm b).1
  unfolding ensure_dirs
  ensure_dirs-keeps norm b p = ensure-keeps batch_store P st.pushing norm b p

  pub count_op-keeps : (b : VaultBatch) → P b → P (count_op b).1
  unfolding count_op
  count_op-keeps b p = st.counting (b.ops + 1) b p

  counted-keeps :
      (method : VaultBatch → Result (Unit {0}) × VaultBatch)
      → ((b : VaultBatch) → P b → P (method b).1)
      → (b : VaultBatch) → P b
      → P (counted method b).1
  counted-keeps method h b p = andthen-keeps P (count_op b) method (count_op-keeps b p) h

  make_dir-keeps : (norm : Text) (b : VaultBatch) → P b → P (make_dir norm b).1
  unfolding make_dir
  make_dir-keeps norm b p =
      andthen-keeps P (ensure_dirs norm b)
        (λ c. (ok tt, set_changed (push_at norm (dir_entry norm) c))) (ensure_dirs-keeps norm b p)
        (λ c q. st.flagging (push_at norm (dir_entry norm) c) (st.pushing norm c q))

  mkdir_at-keeps :
      (k : Option EntryKind) (e : Error) (norm : Text) (b : VaultBatch)
      → P b
      → P (mkdir_at k e norm b).1
  mkdir_at-keeps none e norm b p = make_dir-keeps norm b p
  mkdir_at-keeps (some file) e norm b p = p
  mkdir_at-keeps (some dir) e norm b p = p

  remove_at-keeps : (norm : Text) (b : VaultBatch) → P b → P (remove_at norm b).1
  unfolding remove_at
  remove_at-keeps norm b p =
      elim (Bool-cases (
        length (retain (λ e. not (is_within norm e.path)) b.manifest.entries)
        == length b.manifest.entries)) [
          | inl same ↦ rw same p
          | inr fewer ↦ rw fewer (
              st.indexing (removing (λ e. is_within norm e.path) b)
                (st.deleting (λ e. is_within norm e.path) b p))
        ]

  rename_at-keeps : (from to : Text) (b : VaultBatch) → P b → P (rename_at from to b).1
  unfolding rename_at
  rename_at-keeps from to b p = elim (Bool-cases (text_eq from to)) [
    | inl a ↦ rw a p
    | inr a ↦ rw a (elim (Bool-cases (starts_with (from ++ slash ∷ []) to)) [
      | inl c ↦ rw c p
      | inr c ↦ rw c (elim (Option-cases (lookup from b.index)) [
        | inl d ↦ rw d p
        | inr (i, d) ↦ rw d (elim (Option-cases (lookup to b.index)) [
          | inl f ↦ rw f (
              andthen-keeps P (ensure_dirs to b) (λ c. (ok tt, reindex (moving from to c)))
                (ensure_dirs-keeps to b p)
                (λ c q. st.indexing (moving from to c) (st.renaming from to c q)))
          | inr (j, f) ↦ rw f p
        ])
      ])
    ])
  ]

  attr_at-keeps :
      (l : Option ℕ) (o : Option EntryV2) (norm : Text) (mtime : Option ℤ) (mode : Option ℕ)
      (b : VaultBatch)
      → ((i : ℕ) (e : EntryV2) → l ≡ some i → o ≡ some e → get_elem? b.manifest.entries i ≡ some e)
      → P b
      → P (attr_at l o mtime mode norm b).1
  attr_at-keeps (some i) (some e) norm mtime mode b at p =
      st.marking i e mtime mode b (at i e refl refl) p
  attr_at-keeps (some i) none norm mtime mode b at p = p
  attr_at-keeps none (some e) norm mtime mode b at p = p
  attr_at-keeps none none norm mtime mode b at p = p

  entry_at-position :
      (norm : Text) (b : VaultBatch) (i : ℕ) (e : EntryV2)
      → lookup norm b.index ≡ some i
      → entry_at b norm ≡ some e
      → get_elem? b.manifest.entries i ≡ some e
  unfolding entry_at
  entry_at-position norm b i e h k = ground arith

  module _ (to_upper : ℕ → Text) where
    pub mkdir-keeps : (path : Text) (b : VaultBatch) → P b → P (mkdir to_upper path b).1
    unfolding mkdir
    mkdir-keeps path =
        counted-keeps
          (on_path (normalize_path to_upper path) (λ norm b.
            mkdir_at (kind_of_path b norm) (vault (text "a file exists at " ++ norm)) norm b))
          (on_path-keeps P (normalize_path to_upper path)
            (λ norm b.
              mkdir_at (kind_of_path b norm) (vault (text "a file exists at " ++ norm)) norm b)
            (λ norm b p.
              mkdir_at-keeps (kind_of_path b norm) (vault (text "a file exists at " ++ norm)) norm b
                p))

    pub remove-keeps : (path : Text) (b : VaultBatch) → P b → P (remove to_upper path b).1
    unfolding remove
    remove-keeps path =
        counted-keeps (on_path (normalize_stored_path to_upper path) remove_at)
          (on_path-keeps P (normalize_stored_path to_upper path) remove_at remove_at-keeps)

    pub rename-keeps : (from to : Text) (b : VaultBatch) → P b → P (rename to_upper from to b).1
    unfolding rename
    rename-keeps from to =
        counted-keeps
          (on_path (normalize_stored_path to_upper from)
            (λ old. on_path (normalize_path to_upper to) (λ new. rename_at old new)))
          (on_path-keeps P (normalize_stored_path to_upper from)
            (λ old. on_path (normalize_path to_upper to) (λ new. rename_at old new))
            (λ old.
              on_path-keeps P (normalize_path to_upper to) (λ new. rename_at old new)
                (λ new. rename_at-keeps old new)))

    pub set_attr-keeps :
        (path : Text) (mtime : Option ℤ) (mode : Option ℕ) (b : VaultBatch)
        → P b
        → P (set_attr to_upper path mtime mode b).1
    unfolding set_attr
    set_attr-keeps path mtime mode =
        counted-keeps
          (on_path (normalize_stored_path to_upper path)
            (λ norm b. attr_at (lookup norm b.index) (entry_at b norm) mtime mode norm b))
          (on_path-keeps P (normalize_stored_path to_upper path)
            (λ norm b. attr_at (lookup norm b.index) (entry_at b norm) mtime mode norm b)
            (λ norm b p.
              attr_at-keeps (lookup norm b.index) (entry_at b norm) norm mtime mode b
                (entry_at-position norm b) p))
