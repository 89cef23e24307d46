-- ===== src/Contacts/Tests.antt =====
-- Runs of the sanitizing of display names in crates/filesec-core/src/identity.rs.
use file_sec.Prelude.{◌≡◌, refl, [], ◌∷◌, ◌++◌, replicate, Text}
use file_sec.Paths.{is_spoofing_format_char}
use file_sec.Contacts.{is_whitespace, is_control, sanitize_loop, sanitize_display_name}

-- `a`, an override, two spaces, `b`, a space.
abbrev hostile : Text
hostile = b'a' ∷ 8238 ∷ b' ' ∷ b' ' ∷ b'b' ∷ b' ' ∷ []

hostile_sanitized : sanitize_display_name hostile ≡ b'a' ∷ b' ' ∷ b'b' ∷ []
unfolding sanitize_display_name sanitize_loop is_spoofing_format_char is_whitespace is_control
hostile_sanitized = refl

-- A name that is cut off right behind a space keeps that space, and the next round drops it.
cut_off_keeps_space :
    (sanitize_display_name (replicate 95 b'a' ++ b' ' ∷ b'b' ∷ []) ≡ replicate 95 b'a' ++ b' ' ∷ [])
    × (sanitize_display_name (replicate 95 b'a' ++ b' ' ∷ []) ≡ replicate 95 b'a')
unfolding sanitize_display_name sanitize_loop is_spoofing_format_char is_whitespace is_control
cut_off_keeps_space = (refl, refl)
