-- ===== src/Paths/Split.antt =====
-- Splitting at a separator and joining again (vault.rs).
use mathlib.Core.List.{append_assoc, append-nil}
use file_sec.Prelude.{
  ℕ, ◌+◌, ◌≡◌, ◌≢◌, refl, sym, ap, ◌∙◌, List, [], ◌∷◌, ◌++◌, All, All-append, Text, utf8_len,
  utf8_len-append, ◌==◌, Bool-cases, inl, inr, ==_iff, arith,
}
use file_sec.Paths.{slash, split_from, split, join}

-- What holds of every character but the separators holds in every word.
pub split_from-All :
    (P : ℕ → Type 0) (sep : ℕ) (word s : Text)
    → All P word
    → All (λ x. x ≢ sep → P x) s
    → All (All P) (split_from sep word s)
unfolding split_from
split_from-All P sep word [] w h = (w, tt)
split_from-All P sep word (x ∷ s) w h = elim (Bool-cases (x == sep)) [
  | inl same ↦ rw same (w, split_from-All P sep [] s tt h.1)
  | inr other ↦ rw other (
      split_from-All P sep (word ++ x ∷ []) s
        (All-append P word (x ∷ []) w (h.0 (ground arith), tt)) h.1)
]

abbrev pub IsNotNil : List Text → Type 0
IsNotNil [] = ⊥
IsNotNil (w ∷ ws) = Unit

split_from-IsNotNil : (sep : ℕ) (word s : Text) → IsNotNil (split_from sep word s)
unfolding split_from
split_from-IsNotNil sep word [] = tt
split_from-IsNotNil sep word (x ∷ s) = elim (Bool-cases (x == sep)) [
  | inl same ↦ rw same tt
  | inr other ↦ rw other (split_from-IsNotNil sep (word ++ x ∷ []) s)
]

join-cons : (w : Text) (ws : List Text) → IsNotNil ws → join (w ∷ ws) ≡ w ++ slash ∷ join ws
unfolding join
join-cons w [] h = absurd h
join-cons w (v ∷ ws) h = refl

-- Joining what was split at the slash gives the text back.
pub join-split_from : (word s : Text) → join (split_from slash word s) ≡ word ++ s
unfolding split_from join
join-split_from word [] = sym (append-nil word)
join-split_from word (x ∷ s) = elim (Bool-cases (x == slash)) [
  | inl same ↦ rw same (
      join-cons word (split_from slash [] s) (split_from-IsNotNil slash [] s)
      ∙ ap (λ t. word ++ slash ∷ t) (join-split_from [] s)
      ∙ ap (λ c. word ++ c ∷ s) (sym ((==_iff x slash).0 same)))
  | inr other ↦ rw other (join-split_from (word ++ x ∷ []) s ∙ append_assoc word (x ∷ []) s)
]

abbrev pub Slashless : Text → Type 0
Slashless = All (λ c. c ≢ slash)

split_from-word : (word s : Text) → Slashless s → split_from slash word s ≡ (word ++ s) ∷ []
unfolding split_from
split_from-word word [] h = ap (λ t. t ∷ []) (sym (append-nil word))
split_from-word word (x ∷ s) h = elim (Bool-cases (x == slash)) [
  | inl same ↦ absurd (h.0 ((==_iff x slash).0 same))
  | inr other ↦
      rw other
        (split_from-word (word ++ x ∷ []) s h.1 ∙ ap (λ t. t ∷ []) (append_assoc word (x ∷ []) s))
]

split_from-slash :
    (word s rest : Text)
    → Slashless s
    → split_from slash word (s ++ slash ∷ rest) ≡ (word ++ s) ∷ split_from slash [] rest
unfolding split_from
split_from-slash word [] rest h = ap (λ t. t ∷ split_from slash [] rest) (sym (append-nil word))
split_from-slash word (x ∷ s) rest h = elim (Bool-cases (x == slash)) [
  | inl same ↦ absurd (h.0 ((==_iff x slash).0 same))
  | inr other ↦ rw other (
      split_from-slash (word ++ x ∷ []) s rest h.1
      ∙ ap (λ t. t ∷ split_from slash [] rest) (append_assoc word (x ∷ []) s))
]

-- Splitting what was joined from words without slashes gives the words back.
pub split-join : (ws : List Text) → IsNotNil ws → All Slashless ws → split slash (join ws) ≡ ws
unfolding join
split-join [] h a = absurd h
split-join (w ∷ []) h a = split_from-word [] w a.0
split-join (w ∷ v ∷ ws) h a =
    split_from-slash [] w (join (v ∷ ws)) a.0 ∙ ap (λ t. w ∷ t) (split-join (v ∷ ws) tt a.1)

-- The bytes of the words, each with the slash behind it.
abbrev pub weight : List Text → ℕ
weight [] = 0
weight (w ∷ ws) = utf8_len w + 1 + weight ws

pub utf8_len-join : (ws : List Text) → IsNotNil ws → utf8_len (join ws) + 1 ≡ weight ws
unfolding join utf8_len
utf8_len-join [] h = absurd h
utf8_len-join (w ∷ []) h = omega arith
utf8_len-join (w ∷ v ∷ ws) h =
    omega (arith, utf8_len-append w (slash ∷ join (v ∷ ws)), utf8_len-join (v ∷ ws) tt)

pub weight-split : (s : Text) → weight (split slash s) ≡ utf8_len s + 1
weight-split s =
    sym (utf8_len-join (split slash s) (split_from-IsNotNil slash [] s))
    ∙ ap (λ t. utf8_len t + 1) (join-split_from [] s)

-- A path that does not begin with the separator.
abbrev pub IsRelative : Text → Type 0
IsRelative [] = ⊥
IsRelative (c ∷ s) = c ≢ slash
