-- ===== src/Armor/Reading.antt =====
-- What crates/filesec-core/src/identity.rs and crates/filesec-core/src/keystore.rs put between two lines of
-- dashes is taken out again.
use file_sec.Prelude.{
  some, ℕ, zero, suc, ◌≡◌, ◌≤◌, refl, ap, ◌∙◌, Bool, true, false, not, ◌&&◌, List, [], ◌∷◌, ◌++◌,
  length, take, drop, is_empty, all, ◌==◌, Text, length-drop, take-append-drop, ++-assoc, ++-[],
  starts_with, text, text_eq, text_eq_refl, true, arith,
}
use file_sec.Contacts.{is_whitespace}
use file_sec.State.{Bytes}
use file_sec.Armor.{
  Base64, IsBase64, are_bytes, is_base64, newline, chunks, push_lines, armor, lines, unarmored,
  trim_start, trim_end, trim, block, unarmored,
}

abbrev is_inline : ℕ → Bool
is_inline c = not (c == newline) && not (c == 13)

module _ (c : ℕ) (h : is_base64 c ≡ true) where
  base64_inline : is_inline c ≡ true
  unfolding is_base64
  base64_inline = ground arith

  base64_ink : is_whitespace c ≡ false
  unfolding is_base64 is_whitespace
  base64_ink = ground arith

  base64_no_dash : (c == b'-') ≡ false
  unfolding is_base64
  base64_no_dash = ground arith

all_imp :
    (p q : ℕ → Bool) (f : (c : ℕ) → p c ≡ true → q c ≡ true) (s : Text)
    → all p s ≡ true
    → all q s ≡ true
all_imp p q f [] h = refl
all_imp p q f (c ∷ s) h = ground (arith, f c, all_imp p q f s)

all-take : (p : ℕ → Bool) (n : ℕ) (s : Text) → all p s ≡ true → all p (take n s) ≡ true
all-take p zero s h = refl
all-take p (suc n) [] h = refl
all-take p (suc n) (c ∷ s) h = ground (arith, all-take p n s)

all-drop : (p : ℕ → Bool) (n : ℕ) (s : Text) → all p s ≡ true → all p (drop n s) ≡ true
all-drop p zero s h = h
all-drop p (suc n) [] h = refl
all-drop p (suc n) (c ∷ s) h = all-drop p n s (ground arith)

-- A line, and the lines behind it.
lines-line :
    (line s : Text) → all is_inline line ≡ true → lines (line ++ newline ∷ s) ≡ line ∷ lines s
unfolding lines
lines-line [] s h = refl
lines-line (c ∷ line) s h =
    let (here, carriage) : ((c == newline) ≡ false) × ((c == 13) ≡ false) =
      (ground arith, ground arith) in
    rw (here, carriage, lines-line line s (ground arith)) refl

lines-alone :
    (line : Text) → all is_inline line ≡ true → is_empty line ≡ false → lines line ≡ line ∷ []
unfolding lines
lines-alone [] h ink = absurd (ground arith)
lines-alone (c ∷ []) h ink = ground arith
lines-alone (c ∷ d ∷ line) h ink =
    let (here, carriage) : ((c == newline) ≡ false) × ((c == 13) ≡ false) =
      (ground arith, ground arith) in
    rw (here, carriage, lines-alone (d ∷ line) (ground arith) refl) refl

not_dashes : (s : Text) → all is_base64 s ≡ true → starts_with (text "-----") s ≡ false
unfolding starts_with text
not_dashes [] h = refl
not_dashes (c ∷ s) h = ground (arith, base64_no_dash c)

trim_end-ink : (s : Text) → all is_base64 s ≡ true → trim_end s ≡ s
unfolding trim_end
trim_end-ink [] h = refl
trim_end-ink (c ∷ s) h = rw (base64_ink c (ground arith), trim_end-ink s (ground arith)) refl

trim-ink : (s : Text) → all is_base64 s ≡ true → trim s ≡ s
unfolding trim trim_start
trim-ink [] h = trim_end-ink [] h
trim-ink (c ∷ s) h = rw (base64_ink c (ground arith)) (trim_end-ink (c ∷ s) h)

-- A list of lines that are base64, and their text.
abbrev all_base64 : List Text → Bool
all_base64 ls = all (λ line. all is_base64 line) ls

unfoldable joined : List Text → Text
joined [] = []
joined (line ∷ ls) = line ++ joined ls

lines-push_lines :
    (ls : List Text) (s : Text) → all_base64 ls ≡ true → lines (push_lines ls ++ s) ≡ ls ++ lines s
unfolding push_lines
lines-push_lines [] s h = refl
lines-push_lines (line ∷ ls) s h =
    rw
      (
        ++-assoc line (newline ∷ push_lines ls) s,
        lines-line line (push_lines ls ++ s)
            (all_imp is_base64 is_inline base64_inline line (ground arith)),
        lines-push_lines ls s (ground arith),
      )
      refl

chunks-base64 :
    (n size : ℕ) (s : Text) → all is_base64 s ≡ true → all_base64 (chunks n size s) ≡ true
unfolding chunks
chunks-base64 zero size s h = refl
chunks-base64 (suc n) size [] h = refl
chunks-base64 (suc n) size (c ∷ s) h =
    rw
      (
        all-take is_base64 size (c ∷ s) h,
        chunks-base64 n size (drop size (c ∷ s)) (all-drop is_base64 size (c ∷ s) h),
      )
      refl

joined-chunks : (n size : ℕ) (s : Text) → length s ≤ n → joined (chunks n (suc size) s) ≡ s
unfolding chunks joined
joined-chunks zero size [] h = refl
joined-chunks zero size (c ∷ s) h = absurd (omega arith)
joined-chunks (suc n) size [] h = refl
joined-chunks (suc n) size (c ∷ s) h =
    rw (joined-chunks n size (drop size s) (omega (arith, length-drop size s)))
      (take-append-drop (suc size) (c ∷ s))

not_dashed :
    (line s : Text)
    → starts_with (b'-' ∷ []) line ≡ true
    → all is_base64 s ≡ true
    → text_eq s line ≡ false
unfolding text_eq starts_with
not_dashed [] s h k = absurd (ground arith)
not_dashed (d ∷ line) [] h k = refl
not_dashed (d ∷ line) (c ∷ s) h k = ground (arith, base64_no_dash c)

-- What two lines are like that can stand around base64.
pub record IsArmor (first last : Text) : Type 0 where
  pub dashed : (starts_with (b'-' ∷ []) first ≡ true) × (starts_with (b'-' ∷ []) last ≡ true)
  pub inline : (all is_inline first ≡ true) × (all is_inline last ≡ true)
  pub trimmed : (trim first ≡ first) × (trim last ≡ last)
  pub apart : text_eq last first ≡ false

module _ (first last : Text) (ends : IsArmor first last) where
  block-joined :
      (ls behind : List Text)
      → all_base64 ls ≡ true
      → block first last true (ls ++ last ∷ behind) ≡ joined ls
  unfolding block joined
  block-joined [] behind h = rw (ends.trimmed.1, ends.apart, text_eq_refl last) refl
  block-joined (line ∷ ls) behind h =
      let inked : all is_base64 line ≡ true = ground arith in
      rw
        (
          trim-ink line inked,
          not_dashed first line ends.dashed.0 inked,
          not_dashed last line ends.dashed.1 inked,
          block-joined ls behind (ground arith),
        )
        refl

  module _ (b64 : Text) (inked : all is_base64 b64 ≡ true) where
    lines-armor :
        (s : Text)
        → lines (armor first last b64 ++ s) ≡ first ∷ (chunks (length b64) 64 b64 ++ last ∷ lines s)
    unfolding armor lines
    lines-armor s =
        let ls = chunks (length b64) 64 b64 in
        let split : armor first last b64 ++ s
            ≡ first ++ newline ∷ (push_lines ls ++ (last ++ newline ∷ s)) =
          rw
            (
              ++-assoc first (newline ∷ (push_lines ls ++ (last ++ newline ∷ []))) s,
              ++-assoc (push_lines ls) (last ++ newline ∷ []) s,
              ++-assoc last (newline ∷ []) s,
            )
            refl in
        ap lines split
        ∙ lines-line first (push_lines ls ++ (last ++ newline ∷ s)) ends.inline.0
        ∙ ap (λ r. first ∷ r)
            (lines-push_lines ls (last ++ newline ∷ s) (chunks-base64 (length b64) 64 b64 inked)
              ∙ ap (λ r. ls ++ r) (lines-line last s ends.inline.1))

    -- The block of an armored text is what was armored, whatever comes behind it.
    pub block-armor : (s : Text) → block first last false (lines (armor first last b64 ++ s)) ≡ b64
    unfolding block
    block-armor s =
        let ls = chunks (length b64) 64 b64 in
        let found : block first last false (first ∷ (ls ++ last ∷ lines s)) ≡ b64 =
          rw (ends.trimmed.0, text_eq_refl first)
            (block-joined ls (lines s) (chunks-base64 (length b64) 64 b64 inked)
              ∙ joined-chunks (length b64) 63 b64 (omega arith)) in
        ap (block first last false) (lines-armor s) ∙ found

    -- Without the two lines there is no block, and what is left is the text itself.
    pub bare_lem :
        is_empty b64 ≡ false
        → (block first last false (lines b64) ≡ []) × (unarmored (lines b64) ≡ b64)
    unfolding block unarmored
    bare_lem ink =
        let alone = lines-alone b64 (all_imp is_base64 is_inline base64_inline b64 inked) ink in
        let here = trim-ink b64 inked in
        (
          rw
              (
                alone,
                here,
                not_dashed first b64 ends.dashed.0 inked,
                not_dashed last b64 ends.dashed.1 inked,
              )
              refl,
          rw (alone, here, ink, not_dashes b64 inked) (++-[] b64),
        )

is_empty-length : (s : Text) → 1 ≤ length s → is_empty s ≡ false
is_empty-length [] h = absurd (omega arith)
is_empty-length (c ∷ s) h = refl

-- The encoding of some bytes, none of which is lost.
pub laws_lem :
    (base64 : Base64) (laws : IsBase64 base64) (bytes : Bytes)
    → are_bytes bytes ≡ true
    → 1 ≤ length bytes
    → (is_empty (base64.encode bytes) ≡ false)
      × (all is_base64 (base64.encode bytes) ≡ true)
      × (base64.decode (base64.encode bytes) ≡ some bytes)
laws_lem base64 laws bytes h some_bytes =
    let size : 1 ≤ length (base64.encode bytes) = omega (arith, laws.padded bytes h) in
    (is_empty-length (base64.encode bytes) size, laws.printed bytes h, laws.decoded bytes h)
