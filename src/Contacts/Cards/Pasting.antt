-- ===== src/Contacts/Cards/Pasting.antt =====
-- crates/filesec-core/src/identity.rs: a public key that is armored is pasted again.
use file_sec.Prelude.{
  ◌++◌, ◌≡◌, ◌≤◌, refl, ap, ◌∙◌, sym, true, false, length, ltb, text, text_eq, Text, starts_with,
  utf8_len, arith,
}
use file_sec.Errors.{ok_injective, ok}
use file_sec.Codec.{Cbor, Travels, to_vec-Travels}
use file_sec.Contacts.{PublicIdentity, is_whitespace}
use file_sec.Armor.{
  Base64, IsBase64, are_bytes, armor, lines, block, trim, trim_start, trim_end, or_format,
  decode_either,
}
use file_sec.Armor.Reading.{IsArmor, block-armor, bare_lem, laws_lem}
use file_sec.Contacts.Cards.{
  key_begin, key_end, max_armored_text_len, to_armored, from_armored, from_bare, from_pasted,
  or_else,
}

key_ends : IsArmor key_begin key_end
unfolding text text_eq starts_with trim trim_start trim_end is_whitespace
key_ends = record {
  dashed = (refl, refl);
  inline = (refl, refl);
  trimmed = (refl, refl);
  apart = refl;
}

fits_lem :
    (s : Text) → utf8_len s ≤ max_armored_text_len → ltb max_armored_text_len (utf8_len s) ≡ false
fits_lem s h = ground arith

module _ (cbor : Cbor PublicIdentity) (base64 : Base64) (laws : IsBase64 base64)
    (i : PublicIdentity) (t : Travels cbor i) (all_bytes : are_bytes t.bytes ≡ true)
    (some_bytes : 1 ≤ length t.bytes) where
  -- A public key that was armored is read again, by the strict reader and by the one for pasted text, whatever
  -- text comes behind it; and the latter also reads the base64 alone. The texts are within the limit, and the
  -- CBOR of the key is bytes that are read again.
  pub from_pasted-to_armored :
      (s behind : Text)
      → to_armored cbor base64 i ≡ ok s
      → utf8_len (s ++ behind) ≤ max_armored_text_len
      → utf8_len (base64.encode t.bytes) ≤ max_armored_text_len
      → (from_armored cbor base64 (s ++ behind) ≡ ok i)
        × (from_pasted cbor base64 (s ++ behind) ≡ ok i)
        × (from_pasted cbor base64 (base64.encode t.bytes) ≡ ok i)
  unfolding to_armored from_armored from_bare from_pasted
  from_pasted-to_armored s behind h fits fits_bare =
      let (written, read) = to_vec-Travels cbor i t in
      let (ink, printed, decoded) = laws_lem base64 laws t.bytes all_bytes some_bytes in
      let b64 = base64.encode t.bytes in
      let same : armor key_begin key_end b64 ≡ s = ok_injective (rw (to_armored, written) at h) in
      let found : block key_begin key_end false (lines (s ++ behind)) ≡ b64 =
        ap (λ x. block key_begin key_end false (lines (x ++ behind))) (sym same)
        ∙ block-armor key_begin key_end key_ends b64 printed behind in
      let (no_block, bare) = bare_lem key_begin key_end key_ends b64 printed ink in
      let fit = fits_lem (s ++ behind) fits in
      (
        rw (from_armored, fit, found, ink, or_format, decoded, read) refl,
        rw (from_pasted, fit, or_else, found, ink, or_format, decoded, read) refl,
        rw
            (
              from_pasted,
              fits_lem b64 fits_bare,
              no_block,
              or_else,
              from_bare,
              bare,
              ink,
              or_format,
              decode_either,
              decoded,
              read,
            )
            refl,
      )
