-- ===== src/Tree.antt =====
-- The walk over the ancestors of a path, which crates/filesec-core/src/vault.rs (`ensure_parents`)
-- and crates/filesec-core/src/format_v2.rs (`ensure_dirs`) both make before they add an entry, over
-- an interface that both trees implement.
pub mod Parents
pub mod Visit
pub mod Ensure
pub mod Add
pub mod Keeping
use file_sec.Prelude.{
  ℕ, ◌-◌, ◌≡◌, Bool, true, false, Option, none, some, List, [], ◌∷◌, ◌++◌, any, length, take,
  is_empty, if◌then◌else◌, ◌==◌, Text, text, text_eq,
}
use file_sec.Errors.{Error, Result, ok, err, vault}
use file_sec.Paths.{slash, split}

pub data EntryKind : Type 0 where
  file dir : EntryKind

abbrev pub is_file : EntryKind → Bool
is_file file = true
is_file dir = false

-- A tree of entries that are found by path. A new directory is pushed only where nothing stands.
pub record TreeStore : Type 1 where
  pub S : Type 0
  pub E : Type 0
  pub kind_of : E → EntryKind
  pub new_dir : Text → E
  pub kind_of-new_dir : (p : Text) → kind_of (new_dir p) ≡ dir
  pub entry_at : S → Text → Option E
  pub push_dir : Text → S → S
  pub IsValid : S → Type 0
  pub push_dir-IsValid :
      (p : Text) (s : S) → IsValid s → entry_at s p ≡ none → IsValid (push_dir p s)
  pub entry_at-push_dir :
      (p q : Text) (s : S)
      → IsValid s
      → entry_at s p ≡ none
      → entry_at (push_dir p s) q ≡ (if text_eq p q then some (new_dir p) else entry_at s q)

-- A method that may fail returns its state beside its result.
abbrev pub andthen {ℓ} :
    {S : Type ℓ} → Result (Unit {0}) × S → (S → Result (Unit {0}) × S) → Result (Unit {0}) × S
andthen (ok done, s) next = next s
andthen (err e, s) next = (err e, s)

-- The path that the loop has accumulated when it comes to one more component.
abbrev pub next_acc : Text → Text → Text
next_acc acc comp = (if is_empty acc then [] else acc ++ slash ∷ []) ++ comp

unfoldable pub walk :
    {S : Type 0} → (Text → S → Result (Unit {0}) × S) → Text → List Text → S → Result (Unit {0}) × S
walk step acc [] s = (ok tt, s)
walk step acc (comp ∷ comps) s =
    let rest = walk step (next_acc acc comp) comps in andthen (step (next_acc acc comp) s) rest

-- `take(comps.len().saturating_sub(1))`
unfoldable pub init : List Text → List Text
init comps = take (length comps - 1) comps

abbrev pub file_exists : Text → Error
file_exists acc =
    vault (text "a file exists at " ++ (acc ++ text "; it cannot contain other entries"))

module _ (t : TreeStore) where
  open t use {S, E, kind_of, entry_at, push_dir}

  abbrev pub existing : EntryKind → Text → S → Result (Unit {0}) × S
  existing dir acc s = (ok tt, s)
  existing file acc s = (err (file_exists acc), s)

  -- One ancestor: it may be a directory, it may not be a file, and it is made if it is missing.
  unfoldable pub ensure_one : Text → S → Result (Unit {0}) × S
  ensure_one acc s = elim (entry_at s acc) [
    | none ↦ (ok tt, push_dir acc s)
    | some e ↦ existing (kind_of e) acc s
  ]

  unfoldable pub ensure : Text → S → Result (Unit {0}) × S
  unfolding ensure_one walk init
  ensure path s = walk ensure_one [] (init (split slash path)) s
