-- ===== src/Paths.antt =====
-- crates/filesec-core/src/vault.rs, the untrusted relative paths, and the format characters of
-- crates/filesec-core/src/util.rs. A path is its list of code points. `char::to_uppercase` is a table
-- of Unicode, and so a parameter.
pub mod Split
pub mod Normal
pub mod Idempotent
mod Tests
use file_sec.Prelude.{
  ℕ, suc, ◌+◌, ◌<◌, ◌≤◌, ◌≡◌, Bool, true, false, not, ◌&&◌, ◌||◌, Option, none, some, List, [], ◌∷◌,
  ◌++◌, map, any, length, is_empty, leb, ltb, ◌==◌, if◌then◌else◌, Text, text, text_eq, starts_with,
  utf8_len,
}
use file_sec.Errors.{Error, Result, ok, err, ◌>>=◌, ◌>>◌, fail_if, vault}

abbrev pub max_path_depth : ℕ
max_path_depth = 64

abbrev pub max_path_len : ℕ
max_path_len = 4096

abbrev pub slash : ℕ
slash = b'/'

abbrev pub backslash : ℕ
backslash = 92

abbrev between : ℕ → ℕ → ℕ → Bool
between lo hi c = leb lo c && leb c hi

unfoldable pub is_spoofing_format_char : ℕ → Bool
is_spoofing_format_char c =
    c == 0xAD
    || c == 0x61C
    || c == 0x180E
    || between 0x200B 0x200F c
    || between 0x202A 0x202E c
    || between 0x2060 0x2064 c
    || between 0x2066 0x206F c
    || c == 0xFEFF
    || between 0xFFF9 0xFFFB c
    || c == 0xE0001
    || between 0xE0020 0xE007F c

-- `str::split` at one character: the word read so far, and the rest.
unfoldable pub split_from : ℕ → Text → Text → List Text
split_from sep word [] = word ∷ []
split_from sep word (x ∷ rest) =
    let next = split_from sep [] rest in
    let more = split_from sep (word ++ x ∷ []) rest in if x == sep then word ∷ next else more

abbrev pub split : ℕ → Text → List Text
split sep s = split_from sep [] s

-- `join("/")`
unfoldable pub join : List Text → Text
join [] = []
join (w ∷ []) = w
join (w ∷ v ∷ ws) = w ++ slash ∷ join (v ∷ ws)

abbrev pub unify : ℕ → ℕ
unify c = if c == backslash then slash else c

abbrev is_ascii_alphabetic : ℕ → Bool
is_ascii_alphabetic c = between b'a' b'z' c || between b'A' b'Z' c

-- A drive prefix: the first two bytes are a letter and a colon.
unfoldable pub has_drive : Text → Bool
has_drive (a ∷ b ∷ rest) = is_ascii_alphabetic a && b == b':'
has_drive _ = false

abbrev pub is_control_byte : ℕ → Bool
is_control_byte b = ltb b 0x20 || b == 0x7f

abbrev pub is_non_portable : ℕ → Bool
is_non_portable c =
    c == b':' || c == b'<' || c == b'>' || c == 34 || c == b'|' || c == b'?' || c == b'*'

-- `ends_with(['.', ' '])`
unfoldable pub ends_badly : Text → Bool
ends_badly [] = false
ends_badly (c ∷ []) = c == b'.' || c == 32
ends_badly (c ∷ d ∷ rest) = ends_badly (d ∷ rest)

abbrev head_or : Text → List Text → Text
head_or d [] = d
head_or d (w ∷ ws) = w

unfoldable pub strip_prefix : Text → Text → Option Text
strip_prefix [] s = some s
strip_prefix (p ∷ ps) [] = none
strip_prefix (p ∷ ps) (x ∷ xs) = if p == x then strip_prefix ps xs else none

-- One of the digits 1 to 9, or a superscript 1, 2 or 3.
abbrev is_port_number : Text → Bool
is_port_number (n ∷ []) = between b'1' b'9' n || n == 0xB9 || n == 0xB2 || n == 0xB3
is_port_number _ = false

abbrev is_port : Text → Text → Bool
is_port stem prefix = elim (strip_prefix prefix stem) [ none ↦ false | some n ↦ is_port_number n ]

unfoldable pub is_device : Text → Bool
unfolding strip_prefix
is_device stem =
    text_eq stem (text "CON")
    || text_eq stem (text "PRN")
    || text_eq stem (text "AUX")
    || text_eq stem (text "NUL")
    || is_port stem (text "COM")
    || is_port stem (text "LPT")

module _ (to_upper : ℕ → Text) where
  unfoldable pub to_uppercase : Text → Text
  to_uppercase [] = []
  to_uppercase (c ∷ s) = to_upper c ++ to_uppercase s

  abbrev pub stem : Text → Text
  stem comp = to_uppercase (head_or comp (split b'.' comp))

  unfoldable pub check_component : Text → Result (Unit {0})
  check_component comp = do
    fail_if (any is_control_byte comp) (vault (text "control characters in path"))
    fail_if (any is_non_portable comp || ends_badly comp)
        (vault (text "non-portable path component"))
    fail_if (is_device (stem comp)) (vault (text "reserved device name in path"))
    ok tt

  -- The loop over the components, which skips empty ones and `.`.
  unfoldable pub collect : List Text → Result (List Text)
  collect [] = ok []
  collect (comp ∷ comps) =
      let more = collect comps in
      if is_empty comp || text_eq comp (b'.' ∷ [])
      then more
      else if text_eq comp (b'.' ∷ b'.' ∷ [])
      then err (vault (text "path traversal ('..') is not allowed"))
      else do check_component comp; rest ← more; ok (comp ∷ rest)

  unfoldable pub normalize_stored_path : Text → Result Text
  normalize_stored_path path = do
    fail_if (is_empty path || ltb max_path_len (utf8_len path)) (vault (text "invalid path length"))
    let unified = map unify path
    fail_if (starts_with (slash ∷ []) unified) (vault (text "absolute paths are not allowed"))
    fail_if (has_drive unified) (vault (text "drive-letter paths are not allowed"))
    components ← collect (split slash unified)
    fail_if (is_empty components) (vault (text "path resolves to nothing"))
    fail_if (ltb max_path_depth (length components)) (vault (text "path is too deep"))
    ok (join components)

  unfoldable pub normalize_path : Text → Result Text
  normalize_path path = do
    norm ← normalize_stored_path path
    fail_if (any is_spoofing_format_char norm)
        (vault (text "invisible or bidirectional formatting characters in path"))
    ok norm
