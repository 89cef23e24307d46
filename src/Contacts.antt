-- ===== src/Contacts.antt =====
-- crates/filesec-core/src/contacts.rs, and from crates/filesec-core/src/identity.rs the public half of
-- an identity: display names, fingerprints, and the contact book. BLAKE3 is a parameter.
pub mod Names
pub mod Book
pub mod Cards
mod Tests
use file_sec.Prelude.{
  ℕ, ℤ, ◌+◌, ◌-◌, ◌≡◌, Bool, true, false, not, ◌&&◌, ◌||◌, Option, none, some, List, [], ◌∷◌, ◌++◌,
  length, is_empty, if◌then◌else◌, ltb, leb, ◌==◌, Text, text, text_eq,
}
use file_sec.Paths.{is_spoofing_format_char}
use file_sec.State.{Bytes}

abbrev pub max_display_name_len : ℕ
max_display_name_len = 96

-- `char::is_whitespace`: the characters with the property White_Space.
unfoldable pub is_whitespace : ℕ → Bool
is_whitespace c =
    (leb 9 c && leb c 13)
    || c == 32
    || c == 133
    || c == 160
    || c == 5760
    || (leb 8192 c && leb c 8202)
    || c == 8232
    || c == 8233
    || c == 8239
    || c == 8287
    || c == 12288

-- `char::is_control`: the category Cc.
unfoldable pub is_control : ℕ → Bool
is_control c = ltb c 32 || (leb 127 c && leb c 159)

-- The loop over the characters: how many were emitted, and whether a space is due.
unfoldable pub sanitize_loop : Text → ℕ → Bool → Text
unfolding is_spoofing_format_char is_whitespace is_control
sanitize_loop [] count pending_space = []
sanitize_loop (c ∷ s) count pending_space =
    let skip = sanitize_loop s count in
    let with_space = sanitize_loop s (count + 2) false in
    let without = sanitize_loop s (count + 1) false in
    if leb max_display_name_len count
    then []
    else if is_spoofing_format_char c
    then skip pending_space
    else if is_whitespace c
    then skip true
    else if is_control c
    then skip pending_space
    else if pending_space && not (count == 0)
    then (if leb max_display_name_len (count + 1) then b' ' ∷ [] else b' ' ∷ c ∷ with_space)
    else c ∷ without

unfoldable pub sanitize_display_name : Text → Text
unfolding sanitize_loop
sanitize_display_name raw = sanitize_loop raw 0 false

pub record PublicIdentity : Type 0 where
  pub name : Text
  pub created_at : ℤ
  pub sign_public : Bytes
  pub kem_public : Bytes
  pub mldsa_public : Option Bytes
  pub mlkem_public : Option Bytes

abbrev pub is_present {ℓ} : {A : Type ℓ} → Option A → Bool
is_present none = false
is_present (some a) = true

unfoldable pub is_hybrid_capable : PublicIdentity → Bool
is_hybrid_capable i = is_present i.mldsa_public && is_present i.mlkem_public

abbrev pub folded : Text → Option Bytes → Bytes
folded label none = []
folded label (some key) = label ++ key

-- What the fingerprint is the hash of.
unfoldable pub fingerprint_input : PublicIdentity → Bytes
fingerprint_input i =
    text "FileSec identity fingerprint v1"
    ++ (i.sign_public
        ++ (i.kem_public
            ++ (folded (text "ml-dsa-65") i.mldsa_public
                ++ folded (text "ml-kem-768") i.mlkem_public)))

pub data Trust : Type 0 where
  unverified verified : Trust

abbrev pub is_verified : Trust → Bool
is_verified verified = true
is_verified unverified = false

pub record Contact : Type 0 where
  pub identity : PublicIdentity
  pub trust : Trust
  pub added_at : ℤ
  pub verified_at : Option ℤ

pub data UpsertOutcome : Type 0 where
  added unchanged : UpsertOutcome
  renamed : Text → Text → Bool → UpsertOutcome

module _ (blake3 : Bytes → Bytes) where
  unfoldable pub fingerprint : PublicIdentity → Bytes
  unfolding fingerprint_input
  fingerprint i = blake3 (fingerprint_input i)

  -- `iter().find(|c| c.fingerprint() == fpr)`
  unfoldable pub find : Bytes → List Contact → Option Contact
  unfolding fingerprint
  find fpr [] = none
  find fpr (c ∷ cs) =
      let rest = find fpr cs in if text_eq (fingerprint c.identity) fpr then some c else rest

  -- A change of the first contact that `iter_mut().find(..)` gives.
  unfoldable pub update : Bytes → (Contact → Contact) → List Contact → List Contact
  unfolding fingerprint
  update fpr change [] = []
  update fpr change (c ∷ cs) =
      let rest = update fpr change cs in
      if text_eq (fingerprint c.identity) fpr then change c ∷ cs else c ∷ rest

  abbrev pub outcome : Text → Contact → UpsertOutcome
  outcome new existing =
      if text_eq existing.identity.name new
      then unchanged
      else renamed existing.identity.name new (is_verified existing.trust)

  abbrev pub named : PublicIdentity → PublicIdentity
  named identity = record identity { name = sanitize_display_name identity.name }

  unfoldable pub upsert : PublicIdentity → ℤ → List Contact → UpsertOutcome × List Contact
  unfolding find update sanitize_display_name fingerprint
  upsert raw now contacts =
      let identity = named raw in
      let fpr = fingerprint identity in
      elim (find fpr contacts) [
        | some existing ↦ (
          outcome identity.name existing,
          update fpr (λ c. record c { identity = identity }) contacts,
        )
        | none ↦ (
          added,
          contacts
              ++ record {
                identity = identity;
                trust = unverified;
                added_at = now;
                verified_at = none;
              }
                ∷ [],
        )
      ]

  abbrev pub verified_time : Trust → ℤ → Option ℤ
  verified_time verified now = some now
  verified_time unverified now = none

  unfoldable pub set_trust : Bytes → Trust → ℤ → List Contact → Bool × List Contact
  unfolding find update
  set_trust fpr trust now contacts = elim (find fpr contacts) [
    | some c ↦ (
      true,
      update fpr (λ c. record c { trust = trust; verified_at = verified_time trust now }) contacts,
    )
    | none ↦ (false, contacts)
  ]

  unfoldable pub without : Bytes → List Contact → List Contact
  unfolding fingerprint
  without fpr [] = []
  without fpr (c ∷ cs) =
      let rest = without fpr cs in if text_eq (fingerprint c.identity) fpr then rest else c ∷ rest

  unfoldable pub remove : Bytes → List Contact → Bool × List Contact
  unfolding without
  remove fpr contacts =
      (not (length (without fpr contacts) == length contacts), without fpr contacts)
