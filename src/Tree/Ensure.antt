-- ===== src/Tree/Ensure.antt =====
-- What making the missing ancestors of a path does to a tree (vault.rs, format_v2.rs), for every
-- implementation of the interface.
use file_sec.Prelude.{◌≡◌, ◌≢◌, some, All-map, Option-cases, inl, inr, Text, arith}
use file_sec.Errors.{Error, ok, err}
use file_sec.Paths.Split.{IsRelative}
use file_sec.Tree.{file, dir, TreeStore, ensure_one, ensure}
use file_sec.Tree.Parents.{
  parents, IsBelow, walk-parents, IsBelow-parents, parents-IsChain, parents-IsBelow,
}
use file_sec.Tree.Visit.{
  IsBelow-trans, member-All, kind_at, IsClosed, Made, visit-Made, visit_unchanged, visit_ok,
}

module _ (t : TreeStore) where
  open t use {
    S, E, kind_of, new_dir, kind_of-new_dir, entry_at, push_dir, IsValid, push_dir-IsValid,
    entry_at-push_dir,
  }

  -- The ancestors can be made when none of them is a file.
  pub ensure_ok :
      (path : Text) (s : S)
      → IsValid s
      → IsRelative path
      → ((q : Text) → IsBelow q path → kind_at t s q ≢ some file)
      → (ensure t path s).0 ≡ ok tt
  unfolding ensure
  ensure_ok path s v r free = rw (walk-parents (ensure_one t) path r) (
      visit_ok t (parents path) s v (
        All-map (λ q. IsBelow q path) (λ q. kind_at t s q ≢ some file) free (parents path)
          (parents-IsBelow path)))

  pub Made-IsClosed :
      (path : Text) (s s' : S) → IsClosed t s → Made t (parents path) s s' → IsClosed t s'
  Made-IsClosed path s s' closed m p q e found below = elim (Option-cases (entry_at s q)) [
    | inl missing ↦
        -- `q` is one of the new ancestors, so `p` is an ancestor too
        member-All (λ u. kind_at t s' u ≡ some dir) p (parents path) m.dirs
          (IsBelow-parents p path (
            IsBelow-trans p q path below (
              member-All (λ u. IsBelow u path) q (parents path) (parents-IsBelow path)
                (ground (arith, m.entries q)))))
    | inr (old, there) ↦
        let was : kind_at t s p ≡ some dir = closed p q old there below in
        ground (arith, was, m.entries p)
  ]

  -- On a valid tree, when the ancestors of a relative path could be made: the tree is valid, every
  -- ancestor is a directory, and no other entry has changed.
  pub ensure-Made :
      (path : Text) (s : S)
      → IsValid s
      → IsRelative path
      → (ensure t path s).0 ≡ ok tt
      → Made t (parents path) s (ensure t path s).1
  unfolding ensure
  ensure-Made path s v r h =
      rw (walk-parents (ensure_one t) path r)
        (visit-Made t (parents path) s v (rw (walk-parents (ensure_one t) path r) at h))

  -- On a closed tree, when an ancestor is a file, the call fails and the tree is as it was.
  pub ensure_unchanged :
      (path : Text) (s : S) (e : Error)
      → IsValid s
      → IsClosed t s
      → IsRelative path
      → (ensure t path s).0 ≡ err e
      → (ensure t path s).1 ≡ s
  unfolding ensure
  ensure_unchanged path s e v closed r h = rw (walk-parents (ensure_one t) path r) (
      visit_unchanged t (parents path) s e v closed (parents-IsChain path)
        (rw (walk-parents (ensure_one t) path r) at h))
