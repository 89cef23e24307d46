-- ===== src/Contacts/Cards/Comparing.antt =====
-- crates/filesec-core/src/identity.rs and crates/filesec-core/src/util.rs: comparing safety numbers.
use file_sec.Prelude.{
  ◌⊎◌, ◌≤◌, ◌+◌, sym, subst, text_eq_refl, ℕ, suc, ◌%◌, ◌≡◌, ◌↔◌, refl, Bool, true, false, ◌&&◌,
  ◌||◌, inl, inr, [], ◌∷◌, is_empty, all, leb, ltb, ◌==◌, text_eq_iff, Text, Bool-cases, arith,
}
use file_sec.State.{Bytes}
use file_sec.Contacts.{PublicIdentity, fingerprint}
use file_sec.Contacts.Cards.{
  grouped, is_ascii_alphanumeric, to_ascii_uppercase, normalize_safety_number, safety_number,
  safety_number_matches,
}

-- The characters of base32.
abbrev pub is_base32 : ℕ → Bool
is_base32 c = (leb b'A' c && leb c b'Z') || (leb b'2' c && leb c b'7')

-- The groups are joined again.
normalize-grouped :
    (i : ℕ) (s : Text) → all is_base32 s ≡ true → normalize_safety_number (grouped i s) ≡ s
unfolding normalize_safety_number grouped
normalize-grouped i [] h = refl
normalize-grouped i (c ∷ s) h =
    let rest = normalize-grouped (suc i) s (ground arith) in
    let kept : is_ascii_alphanumeric c ≡ true = ground arith in
    let same : to_ascii_uppercase c ≡ c = ground arith in
    elim (Bool-cases (ltb 0 i && i % 4 == 0)) [
      | inl due ↦ rw (due, kept, same, rest) refl
      | inr not_due ↦ rw (not_due, kept, same, rest) refl
    ]

-- The ASCII letters and digits.
abbrev pub IsAlphanumeric : ℕ → Type 0
IsAlphanumeric c = ((48 ≤ c) × (c ≤ 57)) ⊎ (((65 ≤ c) × (c ≤ 90)) ⊎ ((97 ≤ c) × (c ≤ 122)))

-- A character and a character of a number: the same, or the small letter of a capital one.
abbrev pub IsLetterOf : ℕ → ℕ → Type 0
IsLetterOf c d = (c ≡ d) ⊎ ((65 ≤ d) × (d ≤ 90) × (c ≡ d + 32))

-- A text that spells a number: its letters and digits are those of the number in turn, small or capital, and
-- any other characters stand between them.
abbrev pub Spells : Text → Text → Type 0
Spells [] number = number ≡ []
Spells (c ∷ s) number =
    ((IsAlphanumeric c → ⊥) × Spells s number)
    ⊎ ((d : ℕ) × (rest : Text) × (number ≡ d ∷ rest) × IsLetterOf c d × Spells s rest)

module _ (c : ℕ) where
  kept_lem : is_ascii_alphanumeric c ≡ true → IsLetterOf c (to_ascii_uppercase c)
  kept_lem h = elim (Bool-cases (leb b'a' c && leb c b'z')) [
    | inl small ↦
        let (low, high) : (97 ≤ c) × (c ≤ 122) = (ground arith, ground arith) in
        rw small (inr (omega arith, omega arith, omega arith))
    | inr other ↦ rw other (inl refl)
  ]

  dropped_lem : is_ascii_alphanumeric c ≡ false → IsAlphanumeric c → ⊥
  dropped_lem h (inl (a, b)) = ground arith
  dropped_lem h (inr (inl (a, b))) = ground arith
  dropped_lem h (inr (inr (a, b))) = ground arith

  other_lem : (IsAlphanumeric c → ⊥) → is_ascii_alphanumeric c ≡ false
  other_lem h = elim (Bool-cases (is_ascii_alphanumeric c)) [
    | inr e ↦ e
    | inl e ↦ absurd (h (alphanumeric e))
  ]
    where
      alphanumeric : is_ascii_alphanumeric c ≡ true → IsAlphanumeric c
      alphanumeric e = elim (Bool-cases (leb 48 c && leb c 57)) [
        | inl digit ↦ inl (ground arith, ground arith)
        | inr no_digit ↦ elim (Bool-cases (leb 65 c && leb c 90)) [
          | inl capital ↦ inr (inl (ground arith, ground arith))
          | inr no_capital ↦ inr (inr (ground arith, ground arith))
        ]
      ]

  letter_lem :
      (d : ℕ)
      → is_base32 d ≡ true
      → IsLetterOf c d
      → (is_ascii_alphanumeric c ≡ true) × (to_ascii_uppercase c ≡ d)
  letter_lem d h (inl same) = (ground arith, ground arith)
  letter_lem d h (inr (low, high, small)) = (ground arith, ground arith)

normalize-Spells : (s : Text) → Spells s (normalize_safety_number s)
unfolding normalize_safety_number
normalize-Spells [] = refl
normalize-Spells (c ∷ s) = elim (Bool-cases (is_ascii_alphanumeric c)) [
  | inl kept ↦ rw kept (
      inr (
        to_ascii_uppercase c,
        normalize_safety_number s,
        refl,
        kept_lem c kept,
        normalize-Spells s,
      ))
  | inr dropped ↦ rw dropped (inl (dropped_lem c dropped, normalize-Spells s))
]

Spells-normalize :
    (s number : Text)
    → all is_base32 number ≡ true
    → Spells s number
    → normalize_safety_number s ≡ number
unfolding normalize_safety_number
Spells-normalize [] number h e = sym e
Spells-normalize (c ∷ s) number h (inl (other, spelled)) =
    rw (other_lem c other) (Spells-normalize s number h spelled)
Spells-normalize (c ∷ s) number h (inr (d, rest, e, letter, spelled)) =
    let both : (is_base32 d ≡ true) × (all is_base32 rest ≡ true) =
      (ground (arith, rw e at h), ground (arith, rw e at h)) in
    let (kept, upper) = letter_lem c d both.0 letter in
    rw (kept, upper, Spells-normalize s rest both.1 spelled) (sym e)

module _ (blake3 : Bytes → Bytes) (base32_nopad : Bytes → Text)
    (printed : (hash : Bytes) → all is_base32 (base32_nopad hash) ≡ true) where
  -- A text that someone typed matches the safety number of an identity if and only if it spells the base32 of
  -- the fingerprint, and this is not empty: letter case does not matter, every character that is not an ASCII
  -- letter or digit is passed over, and all others must be there in turn.
  pub safety_number_matches_iff :
      (i : PublicIdentity) (candidate : Text)
      → (safety_number_matches blake3 base32_nopad i candidate ≡ true) ↔ (
          Spells candidate (base32_nopad (fingerprint blake3 i))
          × (is_empty (base32_nopad (fingerprint blake3 i)) ≡ false))
  unfolding safety_number_matches safety_number
  safety_number_matches_iff i candidate =
      let number = base32_nopad (fingerprint blake3 i) in
      let got = normalize_safety_number candidate in
      let inked = printed (fingerprint blake3 i) in
      let joined = normalize-grouped 0 number inked in
      rw (safety_number_matches, joined)
        (
          (λ h.
              let same : got ≡ number = (text_eq_iff got number).0 (ground arith) in
              let some_got : is_empty got ≡ false = ground arith in
              (
                subst (Spells candidate) same (normalize-Spells candidate),
                subst (λ x. is_empty x ≡ false) same some_got,
              )),
          (λ h.
              let same = Spells-normalize candidate number inked h.0 in
              rw (same, h.1) (text_eq_refl number)),
        )
