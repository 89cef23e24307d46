-- ===== src/Vault/Adding.antt =====
-- Adding entries to a vault (vault.rs): what becomes of every path, the invariant, and failures.
use file_sec.Prelude.{
  ℕ, ℤ, ◌≡◌, ◌≢◌, refl, sym, ap, subst, ◌∙◌, false, Option, none, some, List, [], ◌∷◌, ◌++◌, any,
  if◌then◌else◌, Bool-cases, inl, inr, Text, text, text_eq, text_eq_iff, text_eq_refl, arith,
}
use file_sec.Errors.{Error, Result, ok, err, Result-cases, vault}
use file_sec.Paths.{normalize_path}
use file_sec.Paths.Split.{IsRelative}
use file_sec.Paths.Idempotent.{normalize_path-IsRelative}
use file_sec.Tree.{EntryKind, file, dir, is_file, andthen}
use file_sec.Tree.Parents.{parents, IsBelow}
use file_sec.Tree.Visit.{with_dirs, IsClosed, Made, kind_at}
use file_sec.Tree.Ensure.{ensure-Made, ensure_unchanged, ensure_ok}
use file_sec.Tree.Add.{Made-missing, IsAdded-IsClosed}
use file_sec.Vault.{
  VaultEntry, Vault, find_entry, contains, push_entry, dir_entry, file_entry, IsUnique, vault_store,
  ensure_parents, push-IsUnique, find_entry-push, add_file, add_dir, add_dir_at, kind-dir_entry,
}

-- Paths are unique, and whatever contains an entry is a directory.
pub record IsTree (v : Vault) : Type 0 where
  pub unique : IsUnique v.entries
  pub closed : IsClosed vault_store v

contains_none :
    (q : Text) (es : List VaultEntry)
    → any (λ e. text_eq e.path q) es ≡ false
    → find_entry q es ≡ none
unfolding find_entry
contains_none q [] h = refl
contains_none q (e ∷ es) h = ground (arith, contains_none q es)

contains-find_entry : (q : Text) (v : Vault) → contains q v ≡ false → find_entry q v.entries ≡ none
unfolding contains
contains-find_entry q v h = contains_none q v.entries h

-- The entries after `entry` was added at `norm`: there it stands, its missing ancestors are new
-- directories, and nothing else has changed.
abbrev pub after_adding : Text → VaultEntry → Vault → Text → Option VaultEntry
after_adding norm entry v q =
    if text_eq norm q then some entry else with_dirs vault_store (parents norm) v q

-- What adding at a free path does: either everything, or nothing.
record Added (norm : Text) (entry : VaultEntry) (v v' : Vault) : Type 0 where
  entries : (q : Text) → find_entry q v'.entries ≡ after_adding norm entry v q
  tree : IsTree v'

data AddResult (norm : Text) (entry : VaultEntry) (v : Vault)
    : Result (Unit {0}) × Vault → Type 0 where
  added : (v' : Vault) → Added norm entry v v' → AddResult norm entry v (ok tt, v')
  refused : (e : Error) → AddResult norm entry v (err e, v)

module _ (norm : Text) (entry : VaultEntry) (at : entry.path ≡ norm) (v : Vault) (tree : IsTree v)
    (relative : IsRelative norm) (free : find_entry norm v.entries ≡ none) where
  pushed :
      (w : Vault) → Made vault_store (parents norm) v w → Added norm entry v (push_entry entry w)
  pushed w m =
      let missing : find_entry norm w.entries ≡ none =
        Made-missing vault_store norm entry v w (push_entry entry w) tree.closed free m in
      let missing' : find_entry entry.path w.entries ≡ none = rw at missing in
      let new : (q : Text)
          → find_entry q (push_entry entry w).entries
            ≡ (if text_eq norm q then some entry else find_entry q w.entries) =
        λ q.
          subst
            (λ p.
              find_entry q (push_entry entry w).entries
              ≡ (if text_eq p q then some entry else find_entry q w.entries))
            at (find_entry-push entry q w missing') in
      record {
        entries = λ q. new q ∙ ap (λ r. if text_eq norm q then some entry else r) (m.entries q);
        tree = record {
          unique = push-IsUnique entry w m.valid missing';
          closed =
              IsAdded-IsClosed vault_store norm entry v w (push_entry entry w) tree.closed free m
                new;
        };
      }

  ensured :
      (r : Result (Unit {0})) (w : Vault)
      → ensure_parents norm v ≡ (r, w)
      → AddResult norm entry v (andthen (r, w) (λ u. (ok tt, push_entry entry u)))
  unfolding ensure_parents
  ensured (ok done) w e = added (push_entry entry w) (
      pushed w (
        subst (Made vault_store (parents norm) v) (ap (λ x. x.1) e)
          (ensure-Made vault_store norm v tree.unique relative (ap (λ x. x.0) e))))
  ensured (err x) w e =
      subst (λ u. AddResult norm entry v (err x, u))
        (sym (
          sym (ap (λ y. y.1) e)
          ∙ ensure_unchanged vault_store norm v x tree.unique tree.closed relative
              (ap (λ y. y.0) e)))
        (refused x)

  add_free :
      AddResult norm entry v (andthen (ensure_parents norm v) (λ u. (ok tt, push_entry entry u)))
  add_free = ensured (ensure_parents norm v).0 (ensure_parents norm v).1 refl

module _ (norm : Text) (entry : VaultEntry) (v : Vault) where
  AddResult-Added :
      (r : Result (Unit {0}) × Vault)
      → AddResult norm entry v r
      → r.0 ≡ ok tt
      → Added norm entry v r.1
  AddResult-Added r (added w a) h = a
  AddResult-Added r (refused e) h = absurd (cc)

  AddResult-refused :
      (r : Result (Unit {0}) × Vault) (e : Error) → AddResult norm entry v r → r.0 ≡ err e → r.1 ≡ v
  AddResult-refused r e (added w a) h = absurd (cc)
  AddResult-refused r e (refused x) h = refl

module _ (to_upper : ℕ → Text) (path : Text) (content : List ℕ) (mtime : Option ℤ) (mode : Option ℕ)
    (v : Vault) where
  add_file-AddResult :
      (norm : Text)
      → IsTree v
      → normalize_path to_upper path ≡ ok norm
      → AddResult norm
          (file_entry norm content mtime mode)
          v
          (add_file to_upper path content mtime mode v)
  unfolding add_file
  add_file-AddResult norm tree e = rw e (elim (Bool-cases (contains norm v)) [
    | inl there ↦ rw there (refused _)
    | inr free ↦ rw free (
        add_free norm (file_entry norm content mtime mode) (unfold file_entry in refl) v tree
          (normalize_path-IsRelative to_upper path norm e) (contains-find_entry norm v free))
  ])

  -- A file that was added stands at the normalized path, its missing ancestors are new directories,
  -- every other path has the entry that it had, and the vault is a tree again.
  pub add_file_lem :
      (norm : Text)
      → IsTree v
      → normalize_path to_upper path ≡ ok norm
      → (add_file to_upper path content mtime mode v).0 ≡ ok tt
      → ((q : Text)
          → find_entry q (add_file to_upper path content mtime mode v).1.entries
            ≡ after_adding norm (file_entry norm content mtime mode) v q)
        × IsTree (add_file to_upper path content mtime mode v).1
  add_file_lem norm tree e h =
      let a =
        AddResult-Added norm (file_entry norm content mtime mode) v
          (add_file to_upper path content mtime mode v) (add_file-AddResult norm tree e) h in
      (a.entries, a.tree)

  -- Adding a file to a tree fails without leaving a trace: whatever the error, the vault is as it was.
  pub add_file_unchanged :
      (e : Error)
      → IsTree v
      → (add_file to_upper path content mtime mode v).0 ≡ err e
      → (add_file to_upper path content mtime mode v).1 ≡ v
  add_file_unchanged e tree h = elim (Result-cases (normalize_path to_upper path)) [
    | inl (norm, n) ↦
        AddResult-refused norm (file_entry norm content mtime mode) v
          (add_file to_upper path content mtime mode v) e (add_file-AddResult norm tree n) h
    | inr (x, n) ↦ unfold add_file in rw n
  ]

  -- A file can be added where nothing stands, if no ancestor of the path is a file.
  pub add_file_ok :
      (norm : Text)
      → IsTree v
      → normalize_path to_upper path ≡ ok norm
      → contains norm v ≡ false
      → ((q : Text) → IsBelow q norm → kind_at vault_store v q ≢ some file)
      → (add_file to_upper path content mtime mode v).0 ≡ ok tt
  unfolding add_file ensure_parents
  add_file_ok norm tree e free no_file =
      rw (e, free)
        (ground (
          arith,
          ensure_ok vault_store norm v tree.unique (normalize_path-IsRelative to_upper path norm e)
              no_file,
        ))

-- What adding a directory promises.
pub record DirResult (norm : Text) (v : Vault) (r : Result (Unit {0}) × Vault) : Type 0 where
  pub stands : r.0 ≡ ok tt → kind_at vault_store r.1 norm ≡ some dir
  pub keeps :
      (q : Text) (x : VaultEntry)
      → find_entry q v.entries ≡ some x
      → find_entry q r.1.entries ≡ some x
  pub unchanged : (e : Error) → r.0 ≡ err e → r.1 ≡ v
  pub tree : IsTree r.1

module _ (norm : Text) (v : Vault) (tree : IsTree v) where
  DirResult-refused : (e : Error) → DirResult norm v (err e, v)
  DirResult-refused e = record {
    stands = λ h. absurd (cc);
    keeps = λ q x h. h;
    unchanged = λ e h. refl;
    tree = tree;
  }

  DirResult-AddResult :
      (r : Result (Unit {0}) × Vault)
      → find_entry norm v.entries ≡ none
      → AddResult norm (dir_entry norm) v r
      → DirResult norm v r
  DirResult-AddResult r free (refused e) = DirResult-refused e
  DirResult-AddResult r free (added w a) = record {
    stands = λ h. ground (arith, a.entries norm, text_eq_refl norm, kind-dir_entry norm);
    keeps = λ q x h. ground (arith, a.entries q, text_eq_iff norm q);
    unchanged = λ e h. absurd (cc);
    tree = a.tree;
  }

  DirResult-found :
      (x : VaultEntry)
      → find_entry norm v.entries ≡ some x
      → (k : EntryKind) → x.kind ≡ k
      → DirResult norm v
          (if is_file k then (err (vault (text "a file exists at " ++ norm)), v) else (ok tt, v))
  DirResult-found x found file e = DirResult-refused _
  DirResult-found x found dir e = record {
    stands = λ h. ground arith;
    keeps = λ q y h. h;
    unchanged = λ e h. refl;
    tree = tree;
  }

  DirResult-at :
      (found : Option VaultEntry)
      → find_entry norm v.entries ≡ found
      → IsRelative norm
      → DirResult norm v (add_dir_at found norm v)
  DirResult-at none e r =
      DirResult-AddResult _ e (add_free norm (dir_entry norm) (unfold dir_entry in refl) v tree r e)
  DirResult-at (some x) e r = DirResult-found x e x.kind refl

module _ (to_upper : ℕ → Text) (path : Text) (v : Vault) where
  -- Adding a directory to a tree: on success the normalized path is a directory; every path that was
  -- taken keeps its entry; on failure the vault is as it was; either way it is a tree.
  pub add_dir-DirResult :
      (norm : Text)
      → IsTree v
      → normalize_path to_upper path ≡ ok norm
      → DirResult norm v (add_dir to_upper path v)
  unfolding add_dir
  add_dir-DirResult norm tree n = rw n (
      DirResult-at norm v tree (find_entry norm v.entries) refl
        (normalize_path-IsRelative to_upper path norm n))
