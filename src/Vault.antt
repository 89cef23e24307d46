-- ===== src/Vault.antt =====
-- crates/filesec-core/src/vault.rs, the vault in memory: a name and the entries in order. Methods
-- that mutate the vault return it beside their result. `char::to_uppercase` is a parameter, as it is
-- for the paths.
pub mod Adding
pub mod Removing
pub mod Shape
mod Tests
use file_sec.Prelude.{
  ℕ, ℤ, ◌+◌, ◌-◌, ◌≡◌, refl, Bool, true, false, not, ◌&&◌, ◌||◌, Option, none, some, List, [], ◌∷◌,
  ◌++◌, any, length, is_empty, if◌then◌else◌, ◌==◌, Text, text, text_eq, text_eq_iff, text_eq_refl,
  starts_with, arith,
}
use file_sec.Errors.{Error, Result, ok, err, vault}
use file_sec.Paths.{slash, normalize_path}
use file_sec.Tree.{EntryKind, file, dir, is_file, TreeStore, andthen, ensure}

pub record VaultEntry : Type 0 where
  pub path : Text
  pub kind : EntryKind
  pub mtime : Option ℤ  -- i64
  pub mode : Option ℕ  -- u32
  pub content : List ℕ

pub record Vault : Type 0 where
  pub name : Text
  pub created_at : ℤ  -- i64
  pub entries : List VaultEntry

unfoldable pub size : VaultEntry → ℕ
size e = length e.content

unfoldable pub new : Text → ℤ → Vault
new name created_at = record { name = name; created_at = created_at; entries = [] }

abbrev count_files : List VaultEntry → ℕ
count_files [] = 0
count_files (e ∷ es) = if is_file e.kind then 1 + count_files es else count_files es

unfoldable pub file_count : Vault → ℕ
file_count v = count_files v.entries

abbrev sum_sizes : List VaultEntry → ℕ
sum_sizes [] = 0
sum_sizes (e ∷ es) = size e + sum_sizes es

unfoldable pub total_size : Vault → ℕ
unfolding size
total_size v = sum_sizes v.entries

-- `iter().find(|e| e.path == path)`
unfoldable pub find_entry : Text → List VaultEntry → Option VaultEntry
find_entry path [] = none
find_entry path (e ∷ es) = if text_eq e.path path then some e else find_entry path es

unfoldable pub contains : Text → Vault → Bool
contains path v = any (λ e. text_eq e.path path) v.entries

unfoldable pub push_entry : VaultEntry → Vault → Vault
push_entry entry v = record v { entries = v.entries ++ entry ∷ [] }

-- The directory entry that `add_dir` and `ensure_parents` push.
unfoldable pub dir_entry : Text → VaultEntry
dir_entry path = record { path = path; kind = dir; mtime = none; mode = none; content = [] }

unfoldable pub file_entry : Text → List ℕ → Option ℤ → Option ℕ → VaultEntry
file_entry path content mtime mode = record {
  path = path;
  kind = file;
  mtime = mtime;
  mode = mode;
  content = content;
}

-- No two entries have one path.
abbrev pub IsUnique : List VaultEntry → Type 0
IsUnique [] = Unit
IsUnique (e ∷ es) = (find_entry e.path es ≡ none) × IsUnique es

find_entry-append :
    (q : Text) (es : List VaultEntry) (e : VaultEntry)
    → find_entry q (es ++ e ∷ []) ≡ (elim (find_entry q es) [
      | some x ↦ some x
      | none ↦ if text_eq e.path q then some e else none
    ])
unfolding find_entry
find_entry-append q [] e = refl
find_entry-append q (x ∷ es) e = ground (arith, find_entry-append q es e)

IsUnique-append :
    (es : List VaultEntry) (e : VaultEntry)
    → IsUnique es
    → find_entry e.path es ≡ none
    → IsUnique (es ++ e ∷ [])
unfolding find_entry
IsUnique-append [] e u h = (refl, tt)
IsUnique-append (x ∷ es) e u h = (
  ground
      (arith, find_entry-append x.path es e, text_eq_iff x.path e.path, text_eq_iff e.path x.path),
  IsUnique-append es e u.1 (ground arith),
)

pub push-IsUnique :
    (e : VaultEntry) (v : Vault)
    → IsUnique v.entries
    → find_entry e.path v.entries ≡ none
    → IsUnique (push_entry e v).entries
unfolding push_entry
push-IsUnique e v = IsUnique-append v.entries e

pub find_entry-push :
    (e : VaultEntry) (q : Text) (v : Vault)
    → find_entry e.path v.entries ≡ none
    → find_entry q (push_entry e v).entries
      ≡ (if text_eq e.path q then some e else find_entry q v.entries)
unfolding push_entry
find_entry-push e q v h = ground (arith, find_entry-append q v.entries e, text_eq_iff e.path q)

pub dir_push-IsUnique :
    (p : Text) (v : Vault)
    → IsUnique v.entries
    → find_entry p v.entries ≡ none
    → IsUnique (push_entry (dir_entry p) v).entries
unfolding dir_entry
dir_push-IsUnique p v u h = push-IsUnique (dir_entry p) v u h

pub find_entry-dir_push :
    (p q : Text) (v : Vault)
    → IsUnique v.entries
    → find_entry p v.entries ≡ none
    → find_entry q (push_entry (dir_entry p) v).entries
      ≡ (if text_eq p q then some (dir_entry p) else find_entry q v.entries)
unfolding dir_entry
find_entry-dir_push p q v u h = find_entry-push (dir_entry p) q v h

pub kind-dir_entry : (p : Text) → (dir_entry p).kind ≡ dir
unfolding dir_entry
kind-dir_entry p = refl

-- The vault as a tree of entries.
abbrev pub vault_store : TreeStore
vault_store = record {
  S = Vault;
  E = VaultEntry;
  kind_of = λ e. e.kind;
  new_dir = dir_entry;
  kind_of-new_dir = kind-dir_entry;
  entry_at = λ v p. find_entry p v.entries;
  push_dir = λ p v. push_entry (dir_entry p) v;
  IsValid = λ v. IsUnique v.entries;
  push_dir-IsValid = dir_push-IsUnique;
  entry_at-push_dir = find_entry-dir_push;
}

unfoldable pub ensure_parents : Text → Vault → Result (Unit {0}) × Vault
unfolding ensure push_entry dir_entry find_entry
ensure_parents path v = ensure vault_store path v

-- `let norm = normalize(..)?` in a method.
abbrev pub on_path {ℓ} :
    {S : Type ℓ} → Result Text → (Text → S → Result (Unit {0}) × S) → S → Result (Unit {0}) × S
on_path (ok norm) next s = next norm s
on_path (err e) next s = (err e, s)

abbrev add_dir_at : Option VaultEntry → Text → Vault → Result (Unit {0}) × Vault
add_dir_at none norm v =
    andthen (ensure_parents norm v) (λ w. (ok tt, push_entry (dir_entry norm) w))
add_dir_at (some e) norm v =
    if is_file e.kind then (err (vault (text "a file exists at " ++ norm)), v) else (ok tt, v)

-- The entry is `norm` itself or stands below it.
abbrev pub is_within : Text → Text → Bool
is_within norm path = text_eq path norm || starts_with (norm ++ slash ∷ []) path

unfoldable pub retain : (VaultEntry → Bool) → List VaultEntry → List VaultEntry
retain keep [] = []
retain keep (e ∷ es) = let rest = retain keep es in if keep e then e ∷ rest else rest

module _ (to_upper : ℕ → Text) where
  unfoldable pub get : Text → Vault → Option VaultEntry
  get path v = elim (normalize_path to_upper path) [
    | ok norm ↦ find_entry norm v.entries
    | err e ↦ none
  ]

  unfoldable pub add_file : Text → List ℕ → Option ℤ → Option ℕ → Vault → Result (Unit {0}) × Vault
  add_file path content mtime mode = on_path (normalize_path to_upper path) λ norm v.
      if contains norm v
      then (err (vault (text "path already exists: " ++ norm)), v)
      else andthen (ensure_parents norm v)
          (λ w. (ok tt, push_entry (file_entry norm content mtime mode) w))

  unfoldable pub add_dir : Text → Vault → Result (Unit {0}) × Vault
  add_dir path =
      on_path (normalize_path to_upper path) λ norm v. add_dir_at (find_entry norm v.entries) norm v

  -- Returns the number of removed entries and the vault.
  unfoldable pub remove : Text → Vault → ℕ × Vault
  unfolding retain
  remove path v = elim (normalize_path to_upper path) [
    | err e ↦ (0, v)
    | ok norm ↦ (
      length v.entries - length (retain (λ e. not (is_within norm e.path)) v.entries),
      record v { entries = retain (λ e. not (is_within norm e.path)) v.entries },
    )
  ]
