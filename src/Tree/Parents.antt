-- ===== src/Tree/Parents.antt =====
-- The proper ancestors of a path, from the root down, and that the walk visits them.
use mathlib.Core.List.{append_assoc, append-nil}
use file_sec.Prelude.{
  ℕ, suc, ◌-◌, ◌≡◌, ◌≢◌, refl, sym, ap, subst, ◌∙◌, Bool, true, List, [], ◌∷◌, ◌++◌, All, All-map,
  any, length, take, if◌then◌else◌, ◌==◌, ==_iff, Bool-cases, inl, inr, Text, text_eq, text_eq_refl,
  arith,
}
use file_sec.Errors.{Result, ok}
use file_sec.Paths.{slash, split_from, split}
use file_sec.Paths.Split.{IsRelative}
use file_sec.Tree.{next_acc, init, walk, andthen}

-- The prefixes of `acc ++ s` that end before a slash of `s`.
pub parents_from : Text → Text → List Text
parents_from acc [] = []
parents_from acc (x ∷ s) =
    let rest = parents_from (acc ++ x ∷ []) s in if x == slash then acc ∷ rest else rest

abbrev pub parents : Text → List Text
parents path = parents_from [] path

abbrev pub is_member : Text → List Text → Bool
is_member q = any (text_eq q)

-- The loop over a list of paths.
unfoldable pub visit :
    {S : Type 0} → (Text → S → Result (Unit {0}) × S) → List Text → S → Result (Unit {0}) × S
visit step [] s = (ok tt, s)
visit step (p ∷ ps) s = let rest = visit step ps in andthen (step p s) rest

accumulate : Text → List Text → List Text
accumulate acc [] = []
accumulate acc (comp ∷ comps) = next_acc acc comp ∷ accumulate (next_acc acc comp) comps

walk-visit :
    {S : Type 0} (step : Text → S → Result (Unit {0}) × S) (acc : Text) (comps : List Text)
    → walk step acc comps ≡ visit step (accumulate acc comps)
unfolding walk visit accumulate
walk-visit step acc [] = refl
walk-visit step acc (comp ∷ comps) =
    ap (λ k s. andthen (step (next_acc acc comp) s) k) (walk-visit step (next_acc acc comp) comps)

abbrev IsSome : List Text → Type 0
IsSome [] = ⊥
IsSome (w ∷ ws) = Unit

init-cons : (w : Text) (ws : List Text) → IsSome ws → init (w ∷ ws) ≡ w ∷ init ws
unfolding init
init-cons w [] h = absurd h
init-cons w (v ∷ ws) h =
    ap (λ k. take k (w ∷ v ∷ ws)) (two_less (length ws))
    ∙ ap (λ k. w ∷ take k (v ∷ ws)) (sym (one_less (length ws)))
  where
    two_less : (n : ℕ) → suc (suc n) - 1 ≡ suc n
    two_less n = omega arith

    one_less : (n : ℕ) → suc n - 1 ≡ n
    one_less n = omega arith

split-IsSome : (word s : Text) → IsSome (split_from slash word s)
unfolding split_from
split-IsSome word [] = tt
split-IsSome word (x ∷ s) = elim (Bool-cases (x == slash)) [
  | inl same ↦ rw same tt
  | inr other ↦ rw other (split-IsSome (word ++ x ∷ []) s)
]

next_acc-nonempty : (acc comp : Text) → acc ≢ [] → next_acc acc comp ≡ acc ++ slash ∷ comp
next_acc-nonempty [] comp h = absurd (h refl)
next_acc-nonempty (c ∷ acc) comp h = append_assoc (c ∷ acc) (slash ∷ []) comp

append-ne-nil : (s t : Text) (c : ℕ) → s ++ c ∷ t ≢ []
append-ne-nil [] t c e = cc
append-ne-nil (x ∷ s) t c e = cc

accumulate-parents :
    (acc word s : Text)
    → acc ≢ []
    → accumulate acc (init (split_from slash word s)) ≡ parents_from (acc ++ slash ∷ word) s
unfolding accumulate parents_from split_from
accumulate-parents acc word [] h = unfold init in refl
accumulate-parents acc word (x ∷ s) h = elim (Bool-cases (x == slash)) [
  | inl same ↦ rw same (
      ap (accumulate acc) (init-cons word (split_from slash [] s) (split-IsSome [] s))
      ∙ ap (λ a. a ∷ accumulate a (init (split_from slash [] s))) (next_acc-nonempty acc word h)
      ∙ ap (λ l. (acc ++ slash ∷ word) ∷ l)
          (accumulate-parents (acc ++ slash ∷ word) [] s (append-ne-nil acc word slash))
      ∙ ap (λ c. (acc ++ slash ∷ word) ∷ parents_from ((acc ++ slash ∷ word) ++ c ∷ []) s)
          (sym ((==_iff x slash).0 same)))
  | inr other ↦ rw other (
      accumulate-parents acc (word ++ x ∷ []) s h
      ∙ ap (λ a. parents_from a s) (sym (append_assoc acc (slash ∷ word) (x ∷ []))))
]

accumulate-first :
    (word s : Text)
    → word ≢ []
    → accumulate [] (init (split_from slash word s)) ≡ parents_from word s
unfolding accumulate parents_from split_from
accumulate-first word [] h = unfold init in refl
accumulate-first word (x ∷ s) h = elim (Bool-cases (x == slash)) [
  | inl same ↦ rw same (
      ap (accumulate []) (init-cons word (split_from slash [] s) (split-IsSome [] s))
      ∙ ap (λ l. word ∷ l) (accumulate-parents word [] s h)
      ∙ ap (λ c. word ∷ parents_from (word ++ c ∷ []) s) (sym ((==_iff x slash).0 same)))
  | inr other ↦ rw other (accumulate-first (word ++ x ∷ []) s (append-ne-nil word [] x))
]

-- The walk over a relative path visits its proper ancestors, from the root down.
pub walk-parents :
    {S : Type 0} (step : Text → S → Result (Unit {0}) × S) (path : Text)
    → IsRelative path
    → walk step [] (init (split slash path)) ≡ visit step (parents path)
unfolding split_from parents_from
walk-parents step [] h = absurd h
walk-parents step (c ∷ s) h =
    walk-visit step [] (init (split slash (c ∷ s))) ∙ elim (Bool-cases (c == slash)) [
      | inl same ↦ absurd (h ((==_iff c slash).0 same))
      | inr other ↦ ap (visit step) (rw other (accumulate-first (c ∷ []) s (λ e. cc)))
    ]

-- `p` is a proper ancestor of `q`.
abbrev pub IsBelow : Text → Text → Type 0
IsBelow p q = (rest : Text) × (q ≡ p ++ slash ∷ rest)

parents_from-prefix :
    (acc p rest : Text) → is_member (acc ++ p) (parents_from acc (p ++ slash ∷ rest)) ≡ true
unfolding parents_from
parents_from-prefix acc [] rest = rw (append-nil acc, text_eq_refl acc)
parents_from-prefix acc (x ∷ p) rest =
    let deeper : is_member (acc ++ x ∷ p) (parents_from (acc ++ x ∷ []) (p ++ slash ∷ rest))
        ≡ true =
      subst (λ a. is_member a (parents_from (acc ++ x ∷ []) (p ++ slash ∷ rest)) ≡ true)
        (append_assoc acc (x ∷ []) p) (parents_from-prefix (acc ++ x ∷ []) p rest) in
    elim (Bool-cases (x == slash)) [
      | inl same ↦ rw same (ground arith)
      | inr other ↦ rw other deeper
    ]

-- A proper ancestor of a path is one of those that are visited.
pub IsBelow-parents : (p path : Text) → IsBelow p path → is_member p (parents path) ≡ true
IsBelow-parents p path (rest, e) =
    subst (λ q. is_member p (parents q) ≡ true) (sym e) (parents_from-prefix [] p rest)

-- A member of `parents_from acc s` is `acc` with a part of `s` that a slash follows.
abbrev IsPart : Text → Text → Text → Type 0
IsPart acc s q = (p : Text) × (rest : Text) × (q ≡ acc ++ p) × (s ≡ p ++ slash ∷ rest)

parents_from-IsPart : (acc s : Text) → All (IsPart acc s) (parents_from acc s)
unfolding parents_from
parents_from-IsPart acc [] = tt
parents_from-IsPart acc (x ∷ s) =
    let deeper : All (IsPart acc (x ∷ s)) (parents_from (acc ++ x ∷ []) s) =
      All-map (IsPart (acc ++ x ∷ []) s) (IsPart acc (x ∷ s))
        (λ q (p, rest, e, f). (x ∷ p, rest, e ∙ append_assoc acc (x ∷ []) p, ap (λ t. x ∷ t) f))
        (parents_from (acc ++ x ∷ []) s) (parents_from-IsPart (acc ++ x ∷ []) s) in
    elim (Bool-cases (x == slash)) [
      | inl same ↦
          rw same (([], s, sym (append-nil acc), ap (λ c. c ∷ s) ((==_iff x slash).0 same)), deeper)
      | inr other ↦ rw other deeper
    ]

-- Each path of the list is a proper ancestor of those behind it.
abbrev pub IsChain : List Text → Type 0
IsChain [] = Unit
IsChain (p ∷ ps) = All (IsBelow p) ps × IsChain ps

parents_from-IsChain : (acc s : Text) → IsChain (parents_from acc s)
unfolding parents_from
parents_from-IsChain acc [] = tt
parents_from-IsChain acc (x ∷ s) = elim (Bool-cases (x == slash)) [
  | inl same ↦ rw same (
    All-map (IsPart (acc ++ x ∷ []) s) (IsBelow acc)
        (λ q (p, rest, e, f).
          (p, e ∙ append_assoc acc (x ∷ []) p ∙ ap (λ c. acc ++ c ∷ p) ((==_iff x slash).0 same)))
        (parents_from (acc ++ x ∷ []) s) (parents_from-IsPart (acc ++ x ∷ []) s),
    parents_from-IsChain (acc ++ x ∷ []) s,
  )
  | inr other ↦ rw other (parents_from-IsChain (acc ++ x ∷ []) s)
]

pub parents-IsChain : (path : Text) → IsChain (parents path)
parents-IsChain path = parents_from-IsChain [] path

pub parents-IsBelow : (path : Text) → All (λ q. IsBelow q path) (parents path)
parents-IsBelow path =
    All-map (IsPart [] path) (λ q. IsBelow q path)
      (λ q (p, rest, e, f). (rest, f ∙ ap (λ t. t ++ slash ∷ rest) (sym e))) (parents path)
      (parents_from-IsPart [] path)
