-- ===== src/Armor.antt =====
-- The text around keys and backups that crates/filesec-core/src/identity.rs and
-- crates/filesec-core/src/keystore.rs share: base64 in lines between two lines of dashes. The package for
-- base64 is a parameter.
pub mod Reading
pub mod Standard
use file_sec.Prelude.{
  ℕ, zero, suc, ◌+◌, ◌*◌, ◌/◌, ◌≡◌, Bool, true, false, not, ◌&&◌, ◌||◌, Option, none, some, List,
  [], ◌∷◌, ◌++◌, length, take, drop, is_empty, all, if◌then◌else◌, ltb, leb, ◌==◌, text, text_eq,
  Text, starts_with, String,
}
use file_sec.Errors.{Result, ok, err, format}
use file_sec.State.{Bytes}
use file_sec.Contacts.{is_whitespace}

-- `data_encoding`: the encoding with padding, and the two ways to decode.
pub record Base64 : Type 0 where
  pub encode : Bytes → Text
  pub decode : Text → Option Bytes
  pub decode_nopad : Text → Option Bytes

-- The characters of base64, with the padding.
unfoldable pub is_base64 : ℕ → Bool
is_base64 c =
    (leb b'A' c && leb c b'Z')
    || (leb b'a' c && leb c b'z')
    || (leb b'0' c && leb c b'9')
    || c == b'+'
    || c == b'/'
    || c == b'='

abbrev pub are_bytes : Bytes → Bool
are_bytes bytes = all (λ b. ltb b 256) bytes

-- What RFC 4648 says of the encoding of bytes.
pub record IsBase64 (base64 : Base64) : Type 0 where
  pub printed :
      (bytes : Bytes) → are_bytes bytes ≡ true → all is_base64 (base64.encode bytes) ≡ true
  pub padded :
      (bytes : Bytes)
      → are_bytes bytes ≡ true
      → length (base64.encode bytes) ≡ 4 * ((length bytes + 2) / 3)
  pub decoded :
      (bytes : Bytes) → are_bytes bytes ≡ true → base64.decode (base64.encode bytes) ≡ some bytes

abbrev pub newline : ℕ
newline = 10

-- `slice::chunks`; as much fuel as there are elements is enough.
unfoldable pub chunks : ℕ → ℕ → Text → List Text
chunks zero size s = []
chunks (suc n) size [] = []
chunks (suc n) size (c ∷ s) = take size (c ∷ s) ∷ chunks n size (drop size (c ∷ s))

-- The loop that pushes each line with its newline.
unfoldable pub push_lines : List Text → Text
push_lines [] = []
push_lines (line ∷ lines) = line ++ newline ∷ push_lines lines

-- A text between two lines.
unfoldable pub armor : Text → Text → Text → Text
unfolding chunks push_lines
armor first last b64 =
    first ++ newline ∷ (push_lines (chunks (length b64) 64 b64) ++ (last ++ newline ∷ []))

abbrev on_first : ℕ → List Text → List Text
on_first c [] = (c ∷ []) ∷ []
on_first c (line ∷ lines) = (c ∷ line) ∷ lines

-- `str::lines`: a line ends in a newline, or in a carriage return and a newline.
unfoldable pub lines : Text → List Text
unfolding starts_with
lines [] = []
lines (c ∷ s) =
    let behind = lines s in
    if c == newline
    then [] ∷ behind
    else if c == 13 && starts_with (newline ∷ []) s
    then behind
    else on_first c behind

unfoldable pub trim_start : Text → Text
unfolding is_whitespace
trim_start [] = []
trim_start (c ∷ s) = let behind = trim_start s in if is_whitespace c then behind else c ∷ s

unfoldable pub trim_end : Text → Text
unfolding is_whitespace
trim_end [] = []
trim_end (c ∷ s) =
    let behind = trim_end s in if is_whitespace c && is_empty behind then [] else c ∷ behind

-- `str::trim`
unfoldable pub trim : Text → Text
unfolding trim_start trim_end
trim s = trim_end (trim_start s)

-- The loop over the lines, with `in_block`.
module _ (first last : Text) where
  unfoldable pub block : Bool → List Text → Text
  unfolding trim text_eq
  block in_block [] = []
  block in_block (line ∷ lines) =
      let behind = block in_block lines in
      let begun = block true lines in
      let trimmed = trim line in
      if text_eq trimmed first
      then begun
      else if text_eq trimmed last
      then []
      else if in_block
      then trimmed ++ behind
      else behind

-- Where the armor lines were stripped.
unfoldable pub unarmored : List Text → Text
unfolding trim starts_with
unarmored [] = []
unarmored (line ∷ lines) =
    let behind = unarmored lines in
    let trimmed = trim line in
    if not (is_empty trimmed) && not (starts_with (text "-----") trimmed)
    then trimmed ++ behind
    else behind

-- `decode` of the text with padding, or of one without it.
abbrev pub decode_either : Base64 → Text → Option Bytes
decode_either base64 body = elim (base64.decode body) [
  | some bytes ↦ some bytes
  | none ↦ base64.decode_nopad body
]

-- `map_err`
abbrev pub or_format : String → Option Bytes → Result Bytes
or_format why (some bytes) = ok bytes
or_format why none = err (format why)
