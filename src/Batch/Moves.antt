-- ===== src/Batch/Moves.antt =====
-- A rename that succeeds (crates/filesec-core/src/format_v2.rs).
use file_sec.Prelude.{
  ◌+◌, ℕ, ◌≡◌, sym, ap, ◌∙◌, true, false, none, some, List, [], ◌∷◌, ◌++◌, All, if◌then◌else◌,
  Bool-cases, Option-cases, inl, inr, Text, text_eq, text_eq_refl, starts_with, arith, ◌≢◌,
  ne-text_eq, Option, text_eq_iff,
}
use mathlib.Core.List.{append-nil}
use file_sec.Errors.{ok}
use file_sec.Paths.{slash, normalize_path, normalize_stored_path}
use file_sec.Paths.Split.{IsRelative}
use file_sec.Vault.{is_within, on_path}
use file_sec.Tree.{dir}
use file_sec.Tree.Parents.{parents, IsBelow-parents}
use file_sec.Tree.Visit.{kind_at, with_dirs, IsClosed, Made, member-All}
use file_sec.Tree.Ensure.{Made-IsClosed, ensure-Made}
use file_sec.Tree.Add.{Made-missing}
use file_sec.Tree.Keeping.{andthen-reaches}
use file_sec.Blobs.{EntryV2, dir_entry, find_path}
use file_sec.Batch.{
  VaultBatch, lookup, entry_at, reindex, batch_store, IsIndexed, IsUnique, entry_at-find_path,
  reindex-IsIndexed,
}
use file_sec.Paths.Idempotent.{normalize_path-IsRelative}
use file_sec.Batch.Ops.{rename, count_op, ensure_dirs, rename_at}
use file_sec.Batch.Stable.{moving}
use file_sec.Batch.MovedTree.{moved-IsClosed}
use file_sec.Batch.Renaming.{
  after_move, IsTail, within-split, origin, with_path, find_path-moved, move-IsUnique,
}

apart_from :
    (to : Text) (es : List EntryV2)
    → ((q : Text) → is_within to q ≡ true → find_path q es ≡ none)
    → All (λ e. is_within to e.path ≡ false) es
unfolding find_path
apart_from to [] h = tt
apart_from to (e ∷ es) h = (
  elim (Bool-cases (is_within to e.path)) [
    | inl inside ↦ absurd (ground (arith, h e.path inside, text_eq_refl e.path))
    | inr outside ↦ outside
  ],
  apart_from to es (λ q inside. ground (arith, h q inside)),
)

-- The batch after a rename: what stands at or below `to` has come from `from`, nothing is left there,
-- the rest is as it was once the missing ancestors of `to` were made, and the batch is a tree.
pub record IsMoved (from to : Text) (b b' : VaultBatch) : Type 0 where
  pub entries :
      (q : Text)
      → entry_at b' q ≡ (
          if is_within to q
          then with_path from to q (with_dirs batch_store (parents to) b (origin from to q))
          else if is_within from q
          then none
          else with_dirs batch_store (parents to) b q)
  pub indexed : IsIndexed b'
  pub closed : IsClosed batch_store b'

module _ (from to : Text) (b : VaultBatch) (v : IsIndexed b) (closed : IsClosed batch_store b)
    (relative : IsRelative to) (free : entry_at b to ≡ none)
    (apart_of : is_within from to ≡ false) where
  nothing_within :
      (c : VaultBatch)
      → Made batch_store (parents to) b c
      → (q : Text) → is_within to q ≡ true
      → entry_at c q ≡ none
  nothing_within c m q inside =
      let (s, e, tail) = within-split to q inside in
      let missing : entry_at c to ≡ none =
        Made-missing batch_store to (dir_entry to) b c b closed free m in
      below s e tail missing
    where
      below : (s : Text) → q ≡ to ++ s → IsTail s → entry_at c to ≡ none → entry_at c q ≡ none
      below [] e tail missing = ap (entry_at c) (e ∙ append-nil to) ∙ missing
      below (x ∷ s) e tail missing = elim (Option-cases (entry_at c q)) [
        | inl none_there ↦ none_there
        | inr (y, found) ↦
            let parent : kind_at batch_store c to ≡ some dir =
              Made-IsClosed batch_store to b c closed m to q y found
                (s, e ∙ ap (λ z. to ++ z ∷ s) tail) in
            absurd (ground (arith, parent, missing))
      ]

  -- The paths after a rename depend on the entries before it.
  same_after :
      {f g : Text → Option EntryV2}
      → ((q : Text) → f q ≡ g q)
      → (q : Text)
      → (if is_within to q
          then with_path from to q (f (origin from to q))
          else if is_within from q
          then none
          else f q)
        ≡ (if is_within to q
            then with_path from to q (g (origin from to q))
            else if is_within from q
            then none
            else g q)
  same_after {f} {g} h q =
      ap
        (λ x.
          if is_within to q then with_path from to q x else if is_within from q then none else f q)
        (h (origin from to q))
      ∙ ap
          (λ y.
            if is_within to q
            then with_path from to q (g (origin from to q))
            else if is_within from q
            then none
            else y)
          (h q)

  moving-IsMoved :
      (c : VaultBatch)
      → Made batch_store (parents to) b c
      → IsMoved from to b (reindex (moving from to c))
  moving-IsMoved c m =
      let unique : IsUnique c.manifest.entries = m.valid.unique in
      let found : (q : Text)
          → find_path q c.manifest.entries ≡ with_dirs batch_store (parents to) b q =
        λ q. sym (entry_at-find_path c q m.valid) ∙ m.entries q in
      let apart : All (λ e. is_within to e.path ≡ false) c.manifest.entries =
        apart_from to c.manifest.entries
          (λ q inside. sym (entry_at-find_path c q m.valid) ∙ nothing_within c m q inside) in
      let valid : IsIndexed (reindex (moving from to c)) =
        reindex-IsIndexed (moving from to c)
          (move-IsUnique from to c.manifest.entries apart unique) in
      let moved_entries : (q : Text)
          → entry_at (reindex (moving from to c)) q ≡ after_move from to c.manifest.entries q =
        λ q.
          entry_at-find_path (reindex (moving from to c)) q valid
          ∙ unfold reindex in find_path-moved from to q c.manifest.entries apart in
      record {
        indexed = valid;
        closed =
            moved-IsClosed from to c (reindex (moving from to c)) apart_of
              (Made-IsClosed batch_store to b c closed m)
              (λ p below.
                member-All (λ u. kind_at batch_store c u ≡ some dir) p (parents to) m.dirs
                  (IsBelow-parents p to below))
              (λ q. moved_entries q ∙ same_after (λ p. sym (entry_at-find_path c p m.valid)) q);
        entries = λ q. moved_entries q ∙ same_after found q;
      }

lookup-none : (p : Text) (b : VaultBatch) → lookup p b.index ≡ none → entry_at b p ≡ none
unfolding entry_at
lookup-none p b h = ground arith

rename_at-IsMoved :
    (from to : Text) (b : VaultBatch)
    → IsIndexed b
    → IsClosed batch_store b
    → IsRelative to
    → text_eq from to ≡ false
    → (rename_at from to b).0 ≡ ok tt
    → IsMoved from to b (rename_at from to b).1
unfolding rename_at ensure_dirs
rename_at-IsMoved from to b v closed relative differ done =
    elim (Bool-cases (starts_with (from ++ slash ∷ []) to)) [
      | inl into ↦ absurd (ground arith)
      | inr outside ↦ elim (Option-cases (lookup from b.index)) [
        | inl missing ↦ absurd (ground arith)
        | inr (i, there) ↦ elim (Option-cases (lookup to b.index)) [
          | inr (j, taken) ↦ absurd (ground arith)
          | inl free ↦
              rw (differ, outside, there, free, rename_at)
                (andthen-reaches (Made batch_store (parents to) b) (IsMoved from to b)
                  (ensure_dirs to b) (λ c. (ok tt, reindex (moving from to c)))
                  (λ ensured. ensure-Made batch_store to b v relative ensured)
                  (λ c m succeeds.
                    moving-IsMoved from to b v closed relative (lookup-none to b free)
                      (ground (arith, text_eq_iff from to, text_eq_iff to from)) c m)
                  (rw (differ, outside, there, free, rename_at) at done))
        ]
      ]
    ]

-- A batch is a tree of entries: the index is right, no path stands twice, and whatever contains an entry
-- is a directory.
pub record IsTree (b : VaultBatch) : Type 0 where
  pub indexed : IsIndexed b
  pub closed : IsClosed batch_store b

-- The number of operations plays no part in the tree.
IsMoved-ops :
    (from to : Text) (b b' : VaultBatch) (n : ℕ)
    → IsMoved from to (record b { ops = n }) b'
    → IsMoved from to b b'
unfolding entry_at
IsMoved-ops from to b b' n m = ground arith

IsTree-ops : (b : VaultBatch) (n : ℕ) → IsTree b → IsTree (record b { ops = n })
unfolding entry_at
IsTree-ops b n t = record {
  indexed = record { unique = t.indexed.unique; indexed = t.indexed.indexed };
  closed = t.closed;
}

module _ (to_upper : ℕ → Text) where
  -- A rename that succeeds moves what stands at the old path, and below it, to the new one with nothing
  -- but the path changed, after it has made the missing ancestors of the new path; every other entry is
  -- as it was, no path stands twice, the index is right, and whatever contains an entry is a directory.
  pub rename-IsMoved :
      (from to old new : Text) (b : VaultBatch)
      → IsTree b
      → normalize_stored_path to_upper from ≡ ok old
      → normalize_path to_upper to ≡ ok new
      → old ≢ new
      → (rename to_upper from to b).0 ≡ ok tt
      → IsMoved old new b (rename to_upper from to b).1
  unfolding rename count_op
  rename-IsMoved from to old new b tree n m differ done =
      andthen-reaches
        (λ c. IsTree c × ((c' : VaultBatch) → IsMoved old new c c' → IsMoved old new b c'))
        (IsMoved old new b) (count_op b)
        (on_path (normalize_stored_path to_upper from)
          (λ f. on_path (normalize_path to_upper to) (λ t. rename_at f t)))
        (λ counted.
          (IsTree-ops b (b.ops + 1) tree, λ c' moved. IsMoved-ops old new b c' (b.ops + 1) moved))
        (λ c (counted, back) succeeds.
          rw (n, m)
            (back (rename_at old new c).1 (
              rename_at-IsMoved old new c counted.indexed counted.closed
                (normalize_path-IsRelative to_upper to new m) (ne-text_eq old new differ)
                (rw (n, m) at succeeds))))
        done
