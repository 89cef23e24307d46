-- ===== src/Vault/Removing.antt =====
-- Removing an entry with all that it contains (vault.rs).
use mathlib.Core.List.{append_assoc}
use file_sec.Prelude.{
  ℕ, ◌+◌, ◌-◌, ◌≤◌, ◌≡◌, sym, ap, subst, ◌∙◌, Bool, true, not, none, some, List, [], ◌∷◌, ◌++◌,
  length, if◌then◌else◌, Bool-cases, inl, inr, Text, text_eq, text_eq_iff, starts_with,
  starts_with-split, starts_with-append, arith,
}
use file_sec.Errors.{ok}
use file_sec.Paths.{slash, normalize_path}
use file_sec.Tree.{dir}
use file_sec.Tree.Parents.{IsBelow}
use file_sec.Tree.Visit.{kind_at}
use file_sec.Vault.{VaultEntry, Vault, find_entry, IsUnique, vault_store, is_within, retain, remove}
use file_sec.Vault.Adding.{IsTree}

-- The removal looks only at the path of an entry.
module _ (drop : Text → Bool) where
  abbrev kept : List VaultEntry → List VaultEntry
  kept = retain (λ e. not (drop e.path))

  find_entry-kept :
      (q : Text) (es : List VaultEntry)
      → find_entry q (kept es) ≡ (if drop q then none else find_entry q es)
  unfolding find_entry retain
  find_entry-kept q [] = ground arith
  find_entry-kept q (e ∷ es) = ground (arith, find_entry-kept q es, text_eq_iff e.path q)

  kept-IsUnique : (es : List VaultEntry) → IsUnique es → IsUnique (kept es)
  unfolding retain
  kept-IsUnique [] u = tt
  kept-IsUnique (e ∷ es) u = elim (Bool-cases (drop e.path)) [
    | inl gone ↦ rw gone (kept-IsUnique es u.1)
    | inr stays ↦ rw stays (find_entry-kept e.path es ∙ rw stays u.0, kept-IsUnique es u.1)
  ]

  length-kept : (es : List VaultEntry) → length (kept es) ≤ length es
  unfolding retain
  length-kept [] = omega arith
  length-kept (e ∷ es) = ground (arith, length-kept es)

-- What stands below a path that is removed is removed.
pub is_within-IsBelow :
    (norm p q : Text) → is_within norm p ≡ true → IsBelow p q → is_within norm q ≡ true
is_within-IsBelow norm p q h (rest, e) = elim (Bool-cases (text_eq p norm)) [
  | inl same ↦
      let below : starts_with (norm ++ slash ∷ []) q ≡ true =
        subst (λ s. starts_with (norm ++ slash ∷ []) s ≡ true)
          (append_assoc norm (slash ∷ []) rest
            ∙ ap (λ s. s ++ slash ∷ rest) (sym ((text_eq_iff p norm).0 same))
            ∙ sym e)
          (starts_with-append (norm ++ slash ∷ []) rest) in
      ground arith
  | inr other ↦
      let (tail, f) = starts_with-split (norm ++ slash ∷ []) p (ground arith) in
      let below : starts_with (norm ++ slash ∷ []) q ≡ true =
        subst (λ s. starts_with (norm ++ slash ∷ []) s ≡ true)
          (sym (append_assoc (norm ++ slash ∷ []) tail (slash ∷ rest))
            ∙ ap (λ s. s ++ slash ∷ rest) (sym f)
            ∙ sym e)
          (starts_with-append (norm ++ slash ∷ []) (tail ++ slash ∷ rest)) in
      ground arith
]

module _ (to_upper : ℕ → Text) (path norm : Text) (v : Vault)
    (n : normalize_path to_upper path ≡ ok norm) where
  remove_lem : remove to_upper path v ≡ (
    length v.entries - length (kept (is_within norm) v.entries),
    record v { entries = kept (is_within norm) v.entries },
  )
  unfolding remove
  remove_lem = rw (n, remove)

  -- After the removal of a path, that path and everything below it are gone, and every other path has
  -- the entry that it had.
  pub find_entry-remove :
      (q : Text)
      → find_entry q (remove to_upper path v).1.entries
        ≡ (if is_within norm q then none else find_entry q v.entries)
  find_entry-remove q = rw remove_lem (find_entry-kept (is_within norm) q v.entries)

  -- The number that the removal returns is the number of entries that the vault has lost.
  pub length-remove :
      length (remove to_upper path v).1.entries + (remove to_upper path v).0 ≡ length v.entries
  length-remove = rw remove_lem (omega (arith, length-kept (is_within norm) v.entries))

  -- The removal of a path keeps a tree a tree: no entry is left without the directory above it.
  pub remove-IsTree : IsTree v → IsTree (remove to_upper path v).1
  remove-IsTree tree = record {
    unique = rw (remove_lem, IsUnique) (kept-IsUnique (is_within norm) v.entries tree.unique);
    closed = λ p q x found below. elim (Bool-cases (is_within norm p)) [
      | inl gone ↦
          absurd (ground (arith, find_entry-remove q, is_within-IsBelow norm p q gone below))
      | inr stays ↦
          let parent : kind_at vault_store v p ≡ some dir =
            tree.closed p q x (ground (arith, find_entry-remove q)) below in
          ground (arith, find_entry-remove p, parent)
    ];
  }
