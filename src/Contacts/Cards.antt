-- ===== src/Contacts/Cards.antt =====
-- crates/filesec-core/src/identity.rs, with the texts of crates/filesec-core/src/util.rs: how a public
-- identity is shown, compared, written and pasted; and the bytes of the book of
-- crates/filesec-core/src/contacts.rs. CBOR and the packages for base32, base64 and hexadecimal text are
-- parameters.
pub mod Pasting
pub mod Comparing
mod Tests
use file_sec.Prelude.{
  ℕ, zero, suc, ◌+◌, ◌-◌, ◌*◌, ◌%◌, Bool, true, false, not, ◌&&◌, ◌||◌, Option, none, some, List,
  [], ◌∷◌, ◌++◌, is_empty, map, if◌then◌else◌, ltb, leb, ◌==◌, text, text_eq, Text, utf8_len,
}
use file_sec.Errors.{Result, ok, err, ◌>>=◌, ◌>>◌, fail_if, format}
use file_sec.State.{Bytes}
use file_sec.Codec.{Cbor, to_vec, from_slice}
use file_sec.Armor.{Base64, armor, lines, block, unarmored, or_format, decode_either}
use file_sec.Contacts.{PublicIdentity, Contact, fingerprint, named, sanitize_display_name}

unfoldable display_name : PublicIdentity → Text
unfolding sanitize_display_name
display_name i =
    let safe = sanitize_display_name i.name in if is_empty safe then text "(unnamed)" else safe

-- The loop over the characters of the base32 text, from a given index.
unfoldable pub grouped : ℕ → Text → Text
grouped i [] = []
grouped i (c ∷ s) =
    let behind = c ∷ grouped (suc i) s in if ltb 0 i && i % 4 == 0 then b'-' ∷ behind else behind

-- `char::is_ascii_alphanumeric` and `char::to_ascii_uppercase`
abbrev pub is_ascii_alphanumeric : ℕ → Bool
is_ascii_alphanumeric c =
    (leb b'A' c && leb c b'Z') || (leb b'a' c && leb c b'z') || (leb b'0' c && leb c b'9')

abbrev pub to_ascii_uppercase : ℕ → ℕ
to_ascii_uppercase c = if leb b'a' c && leb c b'z' then c - 32 else c

unfoldable pub normalize_safety_number : Text → Text
normalize_safety_number [] = []
normalize_safety_number (c ∷ s) =
    let behind = normalize_safety_number s in
    if is_ascii_alphanumeric c then to_ascii_uppercase c ∷ behind else behind

unfoldable fingerprint_hex : (Bytes → Bytes) → (Bytes → Text) → PublicIdentity → Text
fingerprint_hex blake3 hexlower i = hexlower (fingerprint blake3 i)

module _ (blake3 : Bytes → Bytes) (base32_nopad : Bytes → Text) where
  unfoldable pub safety_number : PublicIdentity → Text
  unfolding grouped
  safety_number i = grouped 0 (base32_nopad (fingerprint blake3 i))

  unfoldable pub safety_number_matches : PublicIdentity → Text → Bool
  unfolding normalize_safety_number safety_number
  safety_number_matches i candidate =
      let got = normalize_safety_number candidate in
      not (is_empty got) && text_eq got (normalize_safety_number (safety_number i))

abbrev pub key_begin : Text
key_begin = text "-----BEGIN FILESEC PUBLIC KEY-----"

abbrev pub key_end : Text
key_end = text "-----END FILESEC PUBLIC KEY-----"

abbrev pub max_armored_text_len : ℕ
max_armored_text_len = 131072

-- `if let Ok(id)`
abbrev pub or_else : {A : Type 0} → Result A → Result A → Result A
or_else (ok a) other = ok a
or_else (err e) other = other

module _ (card_cbor : Cbor PublicIdentity) (base64 : Base64) where
  unfoldable pub to_armored : PublicIdentity → Result Text
  unfolding armor
  to_armored i = do bytes ← to_vec card_cbor i; ok (armor key_begin key_end (base64.encode bytes))

  unfoldable pub from_armored : Text → Result PublicIdentity
  unfolding lines block
  from_armored s = do
    fail_if (ltb max_armored_text_len (utf8_len s)) (format "armored key is too large")
    let body = block key_begin key_end false (lines s)
    fail_if (is_empty body) (format "no armored public key found")
    bytes ← or_format "invalid base64 in armored key" (base64.decode body)
    from_slice card_cbor bytes

  -- The text without its armor.
  unfoldable pub from_bare : Text → Result PublicIdentity
  unfolding lines unarmored
  from_bare s = do
    fail_if (is_empty (unarmored (lines s))) (format "no public key found")
    bytes ← or_format "not a recognizable public key" (decode_either base64 (unarmored (lines s)))
    from_slice card_cbor bytes

  unfoldable pub from_pasted : Text → Result PublicIdentity
  unfolding from_armored from_bare
  from_pasted s = do
    fail_if (ltb max_armored_text_len (utf8_len s)) (format "pasted key is too large")
    or_else (from_armored s) (from_bare s)

abbrev with_safe_name : Contact → Contact
with_safe_name c = record c {
  identity = record c.identity { name = sanitize_display_name c.identity.name };
}

-- The book as it is stored.
module _ (book_cbor : Cbor (List Contact)) where
  unfoldable book_to_bytes : List Contact → Result Bytes
  book_to_bytes contacts = to_vec book_cbor contacts

  unfoldable book_from_bytes : Bytes → Result (List Contact)
  book_from_bytes bytes = do contacts ← from_slice book_cbor bytes; ok (map with_safe_name contacts)
