-- ===== src/Armor/Standard.antt =====
-- Base64 as RFC 4648 has it: what is assumed of the package can be met.
use file_sec.Prelude.{
  ℕ, ◌+◌, ◌-◌, ◌*◌, ◌/◌, ◌%◌, ◌≡◌, ◌<◌, refl, true, false, Option, none, some, [], ◌∷◌, all,
  if◌then◌else◌, ltb, ◌==◌, Text, arith, length,
}
use file_sec.State.{Bytes}
use file_sec.Armor.{Base64, IsBase64, is_base64, are_bytes}

-- The character of six bits, and back.
abbrev char_of : ℕ → ℕ
char_of v =
    if ltb v 26
    then v + 65
    else if ltb v 52
    then v + 71
    else if ltb v 62
    then v - 4
    else if v == 62
    then b'+'
    else b'/'

abbrev bits_of : ℕ → ℕ
bits_of c =
    if c == b'+'
    then 62
    else if c == b'/'
    then 63
    else if ltb c 58
    then c + 4
    else if ltb c 91
    then c - 65
    else c - 71

unfoldable pub encode : Bytes → Text
encode [] = []
encode (a ∷ []) = char_of (a / 4) ∷ char_of (a % 4 * 16) ∷ b'=' ∷ b'=' ∷ []
encode (a ∷ b ∷ []) =
    char_of (a / 4) ∷ char_of (a % 4 * 16 + b / 16) ∷ char_of (b % 16 * 4) ∷ b'=' ∷ []
encode (a ∷ b ∷ c ∷ bytes) =
    char_of (a / 4)
    ∷ char_of (a % 4 * 16 + b / 16)
    ∷ char_of (b % 16 * 4 + c / 64)
    ∷ char_of (c % 64)
    ∷ encode bytes

abbrev three : ℕ → ℕ → ℕ → ℕ → Bytes → Bytes
three w x y z bytes = (w * 4 + x / 16) ∷ (x % 16 * 16 + y / 4) ∷ (y % 4 * 64 + z) ∷ bytes

unfoldable pub decode : Text → Option Bytes
decode (w ∷ x ∷ y ∷ z ∷ s) =
    let behind = decode s in
    if y == b'='
    then some ((bits_of w * 4 + bits_of x / 16) ∷ [])
    else if z == b'='
    then some ((bits_of w * 4 + bits_of x / 16) ∷ (bits_of x % 16 * 16 + bits_of y / 4) ∷ [])
    else elim behind [
      | none ↦ none
      | some bytes ↦ some (three (bits_of w) (bits_of x) (bits_of y) (bits_of z) bytes)
    ]
decode [] = some []
decode _ = none

abbrev pub rfc4648 : Base64
rfc4648 = record { encode = encode; decode = decode; decode_nopad = (λ s. none) }

module _ (v : ℕ) (h : v < 64) where
  bits_of-char_of : bits_of (char_of v) ≡ v
  bits_of-char_of = ground arith

  char_of-base64 : is_base64 (char_of v) ≡ true
  unfolding is_base64
  char_of-base64 = ground arith

  char_of-unpadded : (char_of v == b'=') ≡ false
  char_of-unpadded = ground arith

is_base64-padding : is_base64 b'=' ≡ true
unfolding is_base64
is_base64-padding = refl

encode-printed : (bytes : Bytes) → are_bytes bytes ≡ true → all is_base64 (encode bytes) ≡ true
unfolding encode
encode-printed [] h = refl
encode-printed (a ∷ []) h =
    let ha : a < 256 = ground arith in
    rw
      (
        char_of-base64 (a / 4) (omega arith),
        char_of-base64 (a % 4 * 16) (omega arith),
        is_base64-padding,
      )
      refl
encode-printed (a ∷ b ∷ []) h =
    let (ha, hb) : (a < 256) × (b < 256) = (ground arith, ground arith) in
    rw
      (
        char_of-base64 (a / 4) (omega arith),
        char_of-base64 (a % 4 * 16 + b / 16) (omega arith),
        char_of-base64 (b % 16 * 4) (omega arith),
        is_base64-padding,
      )
      refl
encode-printed (a ∷ b ∷ c ∷ bytes) h =
    let (ha, hb, hc, rest) : (a < 256) × (b < 256) × (c < 256) × (are_bytes bytes ≡ true) =
      (ground arith, ground arith, ground arith, ground arith) in
    rw
      (
        char_of-base64 (a / 4) (omega arith),
        char_of-base64 (a % 4 * 16 + b / 16) (omega arith),
        char_of-base64 (b % 16 * 4 + c / 64) (omega arith),
        char_of-base64 (c % 64) (omega arith),
        encode-printed bytes rest,
      )
      refl

length-encode : (bytes : Bytes) → length (encode bytes) ≡ 4 * ((length bytes + 2) / 3)
unfolding encode
length-encode [] = refl
length-encode (a ∷ []) = refl
length-encode (a ∷ b ∷ []) = refl
length-encode (a ∷ b ∷ c ∷ bytes) = omega (arith, length-encode bytes)

decode-encode : (bytes : Bytes) → are_bytes bytes ≡ true → decode (encode bytes) ≡ some bytes
unfolding encode decode
decode-encode [] h = refl
decode-encode (a ∷ []) h =
    let ha : a < 256 = ground arith in
    let first : a / 4 * 4 + a % 4 * 16 / 16 ≡ a = omega arith in
    rw (bits_of-char_of (a / 4) (omega arith), bits_of-char_of (a % 4 * 16) (omega arith), first)
      refl
decode-encode (a ∷ b ∷ []) h =
    let (ha, hb) : (a < 256) × (b < 256) = (ground arith, ground arith) in
    let first : a / 4 * 4 + (a % 4 * 16 + b / 16) / 16 ≡ a = omega arith in
    let second : (a % 4 * 16 + b / 16) % 16 * 16 + b % 16 * 4 / 4 ≡ b = omega arith in
    rw
      (
        char_of-unpadded (b % 16 * 4) (omega arith),
        bits_of-char_of (a / 4) (omega arith),
        bits_of-char_of (a % 4 * 16 + b / 16) (omega arith),
        bits_of-char_of (b % 16 * 4) (omega arith),
        first,
        second,
      )
      refl
decode-encode (a ∷ b ∷ c ∷ bytes) h =
    let (ha, hb, hc, rest) : (a < 256) × (b < 256) × (c < 256) × (are_bytes bytes ≡ true) =
      (ground arith, ground arith, ground arith, ground arith) in
    let first : a / 4 * 4 + (a % 4 * 16 + b / 16) / 16 ≡ a = omega arith in
    let second : (a % 4 * 16 + b / 16) % 16 * 16 + (b % 16 * 4 + c / 64) / 4 ≡ b = omega arith in
    let third : (b % 16 * 4 + c / 64) % 4 * 64 + c % 64 ≡ c = omega arith in
    rw
      (
        char_of-unpadded (b % 16 * 4 + c / 64) (omega arith),
        char_of-unpadded (c % 64) (omega arith),
        decode-encode bytes rest,
        bits_of-char_of (a / 4) (omega arith),
        bits_of-char_of (a % 4 * 16 + b / 16) (omega arith),
        bits_of-char_of (b % 16 * 4 + c / 64) (omega arith),
        bits_of-char_of (c % 64) (omega arith),
        first,
        second,
        third,
      )
      refl

pub rfc4648-IsBase64 : IsBase64 rfc4648
rfc4648-IsBase64 = record {
  printed = encode-printed;
  padded = (λ bytes h. length-encode bytes);
  decoded = decode-encode;
}
