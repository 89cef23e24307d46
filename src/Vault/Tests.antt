-- ===== src/Vault/Tests.antt =====
-- Witnesses and tests for the vault in memory.
use file_sec.Prelude.{
  ℕ, pos, ◌-◌, ◌≡◌, ◌↔◌, refl, none, List, [], ◌∷◌, All, leb, ◌&&◌, if◌then◌else◌, Text, text,
  text_eq, starts_with, utf8_len,
}
use file_sec.Errors.{ok, err, vault}
use file_sec.Paths.{
  split_from, join, has_drive, ends_badly, is_device, to_uppercase, check_component, collect,
  normalize_stored_path, normalize_path, is_spoofing_format_char,
}
use file_sec.Tree.{EntryKind, file}
use file_sec.Vault.{
  Vault, ensure_parents, push_entry, find_entry, contains, file_entry, dir_entry, add_file,
}
use file_sec.Vault.Adding.{IsTree, after_adding, add_file_lem, add_file_ok}
use file_sec.Vault.Shape.{check_tree_shape, files_of, IsClear, check_tree_shape_iff}

ascii_upper : ℕ → Text
ascii_upper c = (if leb b'a' c && leb c b'z' then c - 32 else c) ∷ []

abbrev empty : Vault
empty = record { name = []; created_at = pos 0; entries = [] }

abbrev a_b : Text
a_b = b'a' ∷ b'/' ∷ b'b' ∷ []

abbrev a_b_c : Text
a_b_c = b'a' ∷ b'/' ∷ b'b' ∷ b'/' ∷ b'c' ∷ []

normalize : normalize_path ascii_upper a_b ≡ ok a_b
unfolding normalize_path normalize_stored_path collect split_from check_component join has_drive
    ends_badly is_device to_uppercase ascii_upper text_eq text starts_with utf8_len
    is_spoofing_format_char
normalize = refl

normalize_deeper : normalize_path ascii_upper a_b_c ≡ ok a_b_c
unfolding normalize_path normalize_stored_path collect split_from check_component join has_drive
    ends_badly is_device to_uppercase ascii_upper text_eq text starts_with utf8_len
    is_spoofing_format_char
normalize_deeper = refl

empty-IsTree : IsTree empty
unfolding find_entry
empty-IsTree = record { unique = tt; closed = λ p q e found below. absurd (cc) }

abbrev with_file : Vault
with_file = (add_file ascii_upper a_b (7 ∷ []) none none empty).1

added_ok : (add_file ascii_upper a_b (7 ∷ []) none none empty).0 ≡ ok tt
added_ok =
    add_file_ok ascii_upper a_b (7 ∷ []) none none empty a_b empty-IsTree normalize
      (unfold contains in refl) (λ q below e. unfold find_entry in cc)

add_file_lem_example :
    ((q : Text)
      → find_entry q with_file.entries
        ≡ after_adding a_b (file_entry a_b (7 ∷ []) none none) empty q)
    × IsTree with_file
add_file_lem_example =
    add_file_lem ascii_upper a_b (7 ∷ []) none none empty a_b empty-IsTree normalize added_ok

-- The parent directory was made, and stands in front of the file.
with_file_entries :
    with_file.entries ≡ dir_entry (b'a' ∷ []) ∷ file_entry a_b (7 ∷ []) none none ∷ []
unfolding add_file normalize_path normalize_stored_path collect split_from check_component join
    has_drive ends_badly is_device to_uppercase ascii_upper text_eq text starts_with utf8_len
    is_spoofing_format_char contains ensure_parents push_entry file_entry dir_entry find_entry
with_file_entries = refl

-- A file cannot contain another entry.
below_file_fails :
    (add_file ascii_upper a_b_c [] none none with_file).0
    ≡ err (vault (text "a file exists at a/b; it cannot contain other entries"))
unfolding add_file normalize_path normalize_stored_path collect split_from check_component join
    has_drive ends_badly is_device to_uppercase ascii_upper text_eq text starts_with utf8_len
    is_spoofing_format_char contains ensure_parents push_entry file_entry dir_entry find_entry
below_file_fails = refl

abbrev overlapping : List (Text × EntryKind)
overlapping = (a_b, file) ∷ (a_b_c, file) ∷ []

check_tree_shape_iff_example :
    (check_tree_shape overlapping ≡ ok tt)
    ↔ All {A = Text × EntryKind} (λ e. IsClear (files_of overlapping) e.0) overlapping
check_tree_shape_iff_example = check_tree_shape_iff overlapping
