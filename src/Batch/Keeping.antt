-- ===== src/Batch/Keeping.antt =====
-- The blob ids that a batch moves around (crates/filesec-core/src/format_v2.rs): each id is either in
-- the manifest or among those that are superseded, and is counted at most once.
use file_sec.Prelude.{
  ℕ, ◌+◌, ◌≤◌, ◌≡◌, refl, subst, Bool, true, Option, none, some, List, [], ◌∷◌, ◌++◌, get_elem?,
  Bool-cases, Option-cases, inl, inr, Text, text_eq, text_eq_iff, arith,
}
use file_sec.Errors.{ok}
use file_sec.Tree.Keeping.{andthen-reaches}
use file_sec.Blobs.{EntryV2, dir_entry}
use file_sec.Batch.{VaultBatch, lookup, entry_at, push_at, reindex}
use file_sec.Batch.Ops.{
  StagedBlob, FileInfo, ensure_dirs, place, placed, replace_at, set_changed, removed_ids, extend,
}
use file_sec.Errors.{ok}
use file_sec.Tree.Keeping.{andthen-reaches}
use file_sec.Batch.Stable.{ensure_dirs-keeps, IsStable, ensure_dirs-keeps}
use file_sec.Batch.Counting.{
  count, count-append, names, uses, uses-push, uses-set, uses-set_missing, uses-retain, uses-map,
  names-dir_entry,
}

module _ (other : Text → ℕ) (on_disk : Text → Bool) where
  -- Every id is used, superseded or reserved at most once, and the used ones are on disk.
  pub record IsBacked (b : VaultBatch) : Type 0 where
    pub once : (id : Text) → uses id b.manifest.entries + count id b.superseded + other id ≤ 1
    pub backed : (id : Text) → 1 ≤ uses id b.manifest.entries → on_disk id ≡ true

  pub IsBacked-IsStable : IsStable IsBacked
  unfolding push_at reindex
  IsBacked-IsStable = record {
    counting = λ n b h. record { once = h.once; backed = h.backed };
    pushing = λ p b h. record {
      once = λ id.
          omega
            (arith, h.once id, uses-push id b.manifest.entries (dir_entry p), names-dir_entry id p);
      backed = λ id u.
          h.backed id
            (omega (arith, uses-push id b.manifest.entries (dir_entry p), names-dir_entry id p));
    };
    flagging = λ b h. record { once = h.once; backed = h.backed };
    indexing = λ b h. record { once = h.once; backed = h.backed };
    deleting = λ hit b h. record {
      once = λ id. omega (
        arith,
        h.once id,
        uses-retain id hit b.manifest.entries,
        count-append id b.superseded (removed_ids hit b.manifest.entries),
      );
      backed = λ id u. h.backed id (omega (arith, uses-retain id hit b.manifest.entries));
    };
    renaming = λ from to b h. record {
      once = λ id. omega (arith, h.once id, uses-map id from to b.manifest.entries);
      backed = λ id u. h.backed id (omega (arith, uses-map id from to b.manifest.entries));
    };
    marking = λ i e mtime mode b at h. record {
      once = λ id. omega (
        arith,
        h.once id,
        uses-set id b.manifest.entries i e (record e { mtime = mtime; mode = mode }) at,
      );
      backed = λ id u. h.backed id (
          omega (
            arith,
            uses-set id b.manifest.entries i e (record e { mtime = mtime; mode = mode }) at,
          ));
    };
  }

pub count-extend :
    (id : Text) (ids : List Text) (o : Option Text)
    → count id (extend ids o) ≡ count id ids + count id (extend [] o)
count-extend id ids none = omega arith
count-extend id ids (some x) = count-append id ids (x ∷ [])

entry_at-lookup :
    (norm : Text) (b : VaultBatch) (i : ℕ)
    → lookup norm b.index ≡ some i
    → get_elem? b.manifest.entries i ≡ entry_at b norm
unfolding entry_at
entry_at-lookup norm b i h = ground arith

-- A blob id that is written takes the place that was reserved for it.
module _ (fresh : StagedBlob) (other : Text → ℕ) (on_disk now : Text → Bool)
    (stays : (id : Text) → on_disk id ≡ true → now id ≡ true) (is_new : now fresh.file_id ≡ true)
    (norm : Text) (info : FileInfo) where
  abbrev reserved : Text → ℕ
  reserved id = count id (fresh.file_id ∷ []) + other id

  names-placed : (id : Text) → names id (placed norm fresh info) ≡ count id (fresh.file_id ∷ [])
  unfolding placed
  names-placed id = refl

  used_now :
      (id : Text) (m n : ℕ)
      → (1 ≤ m → on_disk id ≡ true)
      → n ≤ m + count id (fresh.file_id ∷ [])
      → 1 ≤ n
      → now id ≡ true
  used_now id m n h bound u = elim (Bool-cases (text_eq fresh.file_id id)) [
    | inl same ↦ subst (λ x. now x ≡ true) ((text_eq_iff fresh.file_id id).0 same) is_new
    | inr differs ↦ stays id (h (ground arith))
  ]

  pushed-IsBacked :
      (b : VaultBatch)
      → IsBacked reserved on_disk b
      → IsBacked other now (set_changed (push_at norm (placed norm fresh info) b))
  unfolding push_at
  pushed-IsBacked b h = record {
    once = λ id. omega (
      arith,
      h.once id,
      uses-push id b.manifest.entries (placed norm fresh info),
      names-placed id,
    );
    backed = λ id u.
        used_now id (uses id b.manifest.entries) _ (h.backed id)
          (omega (arith, uses-push id b.manifest.entries (placed norm fresh info), names-placed id))
          u;
  }

  replaced-IsBacked :
      (i : ℕ) (o : Option EntryV2) (b : VaultBatch)
      → get_elem? b.manifest.entries i ≡ o
      → IsBacked reserved on_disk b
      → IsBacked other now (replace_at i (placed norm fresh info) o b)
  replaced-IsBacked i none b at h = record {
    once = λ id.
        omega
          (arith, h.once id, uses-set_missing id b.manifest.entries i (placed norm fresh info) at);
    backed = λ id u.
        used_now id (uses id b.manifest.entries) _ (h.backed id)
          (omega (arith, uses-set_missing id b.manifest.entries i (placed norm fresh info) at)) u;
  }
  replaced-IsBacked i (some e) b at h = record {
    once = λ id. omega (
      arith,
      h.once id,
      uses-set id b.manifest.entries i e (placed norm fresh info) at,
      names-placed id,
      count-extend id b.superseded e.file_id,
    );
    backed = λ id u.
        used_now id (uses id b.manifest.entries) _ (h.backed id)
          (omega (
            arith,
            uses-set id b.manifest.entries i e (placed norm fresh info) at,
            names-placed id,
          ))
          u;
  }

  pub place-IsBacked :
      (b : VaultBatch)
      → IsBacked reserved on_disk b
      → (place norm fresh info b).0 ≡ ok tt
      → IsBacked other now (place norm fresh info b).1
  unfolding place
  place-IsBacked b h done =
      let staged : VaultBatch = record b { staged = b.staged ++ fresh.file_id ∷ [] } in
      let start : IsBacked reserved on_disk staged = record { once = h.once; backed = h.backed } in
      elim (Option-cases (lookup norm b.index)) [
        | inl free ↦
            rw (free, place)
              (andthen-reaches (IsBacked reserved on_disk) (IsBacked other now)
                (ensure_dirs norm staged)
                (λ c. (ok tt, set_changed (push_at norm (placed norm fresh info) c)))
                (λ ensured.
                  ensure_dirs-keeps (IsBacked reserved on_disk) (IsBacked-IsStable reserved on_disk)
                    norm staged start)
                (λ c backed succeeds. pushed-IsBacked c backed) (rw (free, place) at done))
        | inr (i, taken) ↦
            rw (taken, place)
              (replaced-IsBacked i (entry_at b norm) staged (entry_at-lookup norm b i taken) start)
      ]
