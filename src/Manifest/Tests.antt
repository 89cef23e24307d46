-- ===== src/Manifest/Tests.antt =====
-- Witnesses and tests for the manifests of an export.
use file_sec.Prelude.{
  ℕ, pos, ◌-◌, ◌≡◌, refl, none, [], ◌∷◌, leb, ◌&&◌, if◌then◌else◌, Text, text, text_eq, starts_with,
  utf8_len,
}
use file_sec.Errors.{ok, err, format}
use file_sec.Paths.{
  split_from, join, has_drive, ends_badly, is_device, to_uppercase, check_component, collect,
  normalize_stored_path, normalize_path, is_spoofing_format_char,
}
use file_sec.Tree.{file, dir}
use file_sec.Vault.Shape.{files_of, climb, rsplit, check_tree_shape}
use file_sec.Manifest.{Entry, Manifest, num_chunks, layout_loop, validate_manifest_layout}
use file_sec.Manifest.Layout.{IsLayout, validate_manifest_layout-IsLayout}

ascii_upper : ℕ → Text
ascii_upper c = (if leb b'a' c && leb c b'z' then c - 32 else c) ∷ []

abbrev entry_a : Entry
entry_a = record {
  path = b'a' ∷ [];
  kind = dir;
  size = 0;
  mtime = none;
  mode = none;
  blake3 = [];
  data_offset = 0;
}

abbrev entry_b : Entry
entry_b = record {
  path = b'a' ∷ b'/' ∷ b'b' ∷ [];
  kind = file;
  size = 10;
  mtime = none;
  mode = none;
  blake3 = [];
  data_offset = 0;
}

abbrev entry_c : Entry
entry_c = record {
  path = b'c' ∷ [];
  kind = file;
  size = 5;
  mtime = none;
  mode = none;
  blake3 = [];
  data_offset = 10;
}

abbrev three : Manifest
three = record { vault_name = []; created_at = pos 0; entries = entry_a ∷ entry_b ∷ entry_c ∷ [] }

-- 15 bytes in chunks of 8 are two chunks, each with a tag.
three_passes : validate_manifest_layout ascii_upper three 8 47 ≡ ok (15, 2)
unfolding validate_manifest_layout layout_loop num_chunks normalize_path normalize_stored_path
    collect split_from check_component join has_drive ends_badly is_device to_uppercase ascii_upper
    text_eq text starts_with utf8_len is_spoofing_format_char check_tree_shape files_of climb rsplit
three_passes = refl

-- A data section that is one byte short.
short_fails : validate_manifest_layout ascii_upper three 8 46 ≡ err (format "data length mismatch")
unfolding validate_manifest_layout layout_loop num_chunks normalize_path normalize_stored_path
    collect split_from check_component join has_drive ends_badly is_device to_uppercase ascii_upper
    text_eq text starts_with utf8_len is_spoofing_format_char check_tree_shape files_of climb rsplit
short_fails = refl

validate_manifest_layout-IsLayout_example : IsLayout ascii_upper three 8 47 15 2
validate_manifest_layout-IsLayout_example =
    validate_manifest_layout-IsLayout ascii_upper three 8 47 (15, 2) three_passes
