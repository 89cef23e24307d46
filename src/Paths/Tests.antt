-- ===== src/Paths/Tests.antt =====
-- Witnesses and tests for the paths, with the ASCII table for the uppercase letters.
use file_sec.Prelude.{
  ℕ, ◌-◌, ◌≡◌, refl, [], ◌∷◌, leb, ◌&&◌, if◌then◌else◌, Text, text, text_eq, starts_with, utf8_len,
}
use file_sec.Errors.{ok, err, vault}
use file_sec.Paths.{
  split_from, join, has_drive, ends_badly, is_device, to_uppercase, check_component, collect,
  normalize_stored_path, normalize_path, is_spoofing_format_char,
}
use file_sec.Paths.Normal.{IsNormal, normalize_stored_path-IsNormal}

ascii_upper : ℕ → Text
ascii_upper c = (if leb b'a' c && leb c b'z' then c - 32 else c) ∷ []

abbrev messy : Text
messy = b'a' ∷ b'/' ∷ b'/' ∷ b'.' ∷ 92 ∷ b'b' ∷ []

abbrev tidy : Text
tidy = b'a' ∷ b'/' ∷ b'b' ∷ []

messy_normalizes : normalize_stored_path ascii_upper messy ≡ ok tidy
unfolding normalize_stored_path collect split_from check_component join has_drive ends_badly
    is_device to_uppercase ascii_upper text_eq text starts_with utf8_len
messy_normalizes = refl

messy_normalizes_strictly : normalize_path ascii_upper messy ≡ ok tidy
unfolding normalize_path normalize_stored_path collect split_from check_component join has_drive
    ends_badly is_device to_uppercase ascii_upper text_eq text starts_with utf8_len
    is_spoofing_format_char
messy_normalizes_strictly = refl

-- Inputs of the repository's own tests.
rejects_devices :
    (normalize_path ascii_upper (text "a/COM1") ≡ err (vault (text "reserved device name in path")))
    × (normalize_path ascii_upper (text "con") ≡ err (vault (text "reserved device name in path")))
    × (normalize_path ascii_upper (text "a/file.")
        ≡ err (vault (text "non-portable path component")))
    × (normalize_path ascii_upper (text "a/../b")
        ≡ err (vault (text "path traversal ('..') is not allowed")))
    × (normalize_path ascii_upper (text "C:foo")
        ≡ err (vault (text "drive-letter paths are not allowed")))
unfolding normalize_path normalize_stored_path collect split_from check_component join has_drive
    ends_badly is_device to_uppercase ascii_upper text_eq text starts_with utf8_len
    is_spoofing_format_char
rejects_devices = (refl, refl, refl, refl, refl)

normalize_stored_path-IsNormal_example : IsNormal ascii_upper tidy
normalize_stored_path-IsNormal_example =
    normalize_stored_path-IsNormal ascii_upper messy tidy messy_normalizes
