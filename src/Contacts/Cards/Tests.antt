-- ===== src/Contacts/Cards/Tests.antt =====
-- Concrete runs of the cards of crates/filesec-core/src/identity.rs, with a base32 of one character a byte.
use file_sec.Prelude.{
  ℕ, ◌+◌, ◌%◌, ◌≡◌, ◌↔◌, refl, pos, ◌&&◌, ◌||◌, leb, true, false, none, some, List, [], ◌∷◌, ◌++◌,
  replicate, is_empty, all, map, text, Text, arith,
}
use file_sec.Errors.{ok, err, format}
use file_sec.State.{Bytes}
use file_sec.Codec.{Cbor}
use file_sec.Armor.{newline}
use file_sec.Armor.Standard.{rfc4648, rfc4648-IsBase64}
use file_sec.Contacts.{PublicIdentity, fingerprint}
use file_sec.Contacts.Cards.{
  key_begin, key_end, to_armored, from_armored, from_pasted, safety_number_matches,
}
use file_sec.Contacts.Cards.Pasting.{from_pasted-to_armored}
use file_sec.Contacts.Cards.Comparing.{is_base32, Spells, safety_number_matches_iff}

abbrev bob : PublicIdentity
bob = record {
  name = text "Bob";
  created_at = pos 7;
  sign_public = 1 ∷ 2 ∷ 3 ∷ [];
  kem_public = 4 ∷ 5 ∷ 6 ∷ [];
  mldsa_public = none;
  mlkem_public = none;
}

abbrev cbor : Cbor PublicIdentity
cbor = record {
  into_writer = (λ i. some (i.name ++ replicate 60 0));
  from_reader = (λ bytes. some (bob, []));
}

abbrev encoded : Bytes
encoded = text "Bob" ++ replicate 60 0

abbrev card : Text
card =
    key_begin
    ++ newline
      ∷ (text "Qm9iAAAAAAAAAAAAAAAAAAAAAAAAAAAAAAAAAAAAAAAAAAAAAAAAAAAAAAAAAAAA"
          ++ newline ∷ (text "AAAAAAAAAAAAAAAAAAAA" ++ newline ∷ (key_end ++ newline ∷ [])))

writes : to_armored cbor rfc4648 bob ≡ ok card
unfolding to_armored file_sec.Codec.to_vec text file_sec.Armor.Standard.encode
writes = refl

from_pasted-to_armored_example :
    (from_armored cbor rfc4648 (card ++ text "Bye") ≡ ok bob)
    × (from_pasted cbor rfc4648 (card ++ text "Bye") ≡ ok bob)
    × (from_pasted cbor rfc4648 (rfc4648.encode encoded) ≡ ok bob)
unfolding text file_sec.Prelude.utf8_len file_sec.Armor.Standard.encode
from_pasted-to_armored_example =
    from_pasted-to_armored cbor rfc4648 rfc4648-IsBase64 bob
      (record { bytes = encoded; written = refl; read = refl }) refl (omega arith) card (text "Bye")
      writes (omega arith) (omega arith)

refuses_nothing :
    from_pasted cbor rfc4648 (text " - ") ≡ err (format "not a recognizable public key")
unfolding from_pasted file_sec.Prelude.utf8_len text file_sec.Armor.Standard.decode
refuses_nothing = refl

abbrev hash : Bytes → Bytes
hash bytes = 1 ∷ 2 ∷ 3 ∷ 4 ∷ 5 ∷ []

abbrev letter : ℕ → ℕ
letter b = b % 26 + 65

abbrev letters : Bytes → Text
letters bytes = map letter bytes

letter-base32 : (b : ℕ) → is_base32 (letter b) ≡ true
letter-base32 b = ground arith

letters-base32 : (bytes : Bytes) → all is_base32 (letters bytes) ≡ true
letters-base32 [] = refl
letters-base32 (b ∷ bytes) = rw (letter-base32 b) (letters-base32 bytes)

-- The number is BCDE-F.
matches_loosely : safety_number_matches hash letters bob (text " bcd e-F") ≡ true
unfolding safety_number_matches text file_sec.Prelude.text_eq fingerprint
matches_loosely = refl

safety_number_matches_iff_example :
    (safety_number_matches hash letters bob (text "bcde-f") ≡ true) ↔ (
      Spells (text "bcde-f") (letters (fingerprint hash bob))
      × (is_empty (letters (fingerprint hash bob)) ≡ false))
safety_number_matches_iff_example =
    safety_number_matches_iff hash letters letters-base32 bob (text "bcde-f")
