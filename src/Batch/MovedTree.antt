-- ===== src/Batch/MovedTree.antt =====
-- That the entries form a tree after a rename (crates/filesec-core/src/format_v2.rs).
use mathlib.Core.List.{append_assoc, append-nil}
use file_sec.Prelude.{
  ◌≡◌, ◌⊎◌, refl, sym, ap, ◌∙◌, true, false, none, some, [], ◌∷◌, ◌++◌, drop-append, append-cancel,
  if◌then◌else◌, Bool-cases, Option-cases, inl, inr, Text, arith,
}
use file_sec.Paths.{slash}
use file_sec.Vault.{is_within}
use file_sec.Vault.Removing.{is_within-IsBelow}
use file_sec.Tree.{dir}
use file_sec.Tree.Parents.{IsBelow}
use file_sec.Tree.Visit.{kind_at, IsClosed}
use file_sec.Blobs.{EntryV2}
use file_sec.Batch.{VaultBatch, entry_at, batch_store}
use file_sec.Batch.Renaming.{IsTail, within-split, within-tail, origin, with_path}

-- Of two beginnings of one text, one is a beginning of the other.
compare_prefix :
    (p t x s : Text)
    → p ++ x ≡ t ++ s
    → ((u : Text) × (p ≡ t ++ u) × (u ++ x ≡ s)) ⊎ ((u : Text) × (t ≡ p ++ u) × (x ≡ u ++ s))
compare_prefix p [] x s e = inl (p, refl, e)
compare_prefix [] (c ∷ t) x s e = inr (c ∷ t, refl, e)
compare_prefix (d ∷ p) (c ∷ t) x s e =
    let same : d ≡ c = ground arith in
    elim (compare_prefix p t x s (ground arith)) [
      | inl (u, f, g) ↦ inl (u, ap (λ w. d ∷ w) f ∙ ap (λ y. y ∷ (t ++ u)) same, g)
      | inr (u, f, g) ↦ inr (u, ap (λ w. c ∷ w) f ∙ ap (λ y. y ∷ (p ++ u)) (sym same), g)
    ]

-- An ancestor of something at or below `t` is at or below `t` itself, or it is an ancestor of `t`.
ancestor-IsBelow :
    (t p s rest : Text)
    → IsTail s
    → t ++ s ≡ p ++ slash ∷ rest
    → is_within t p ≡ false
    → IsBelow p t
ancestor-IsBelow t p s rest tail e away = elim (compare_prefix p t (slash ∷ rest) s (sym e)) [
  | inl (u, f, g) ↦
      let inside : is_within t p ≡ true = ap (is_within t) f ∙ within-tail t u (tail_of u g) in
      absurd (ground arith)
  | inr (u, f, g) ↦ proper u f g
]
  where
    tail_of : (u : Text) → u ++ slash ∷ rest ≡ s → IsTail u
    tail_of [] g = tt
    tail_of (c ∷ u) g = first s tail g
      where
        first : (v : Text) → IsTail v → (c ∷ u) ++ slash ∷ rest ≡ v → c ≡ slash
        first [] h g = absurd (cc)
        first (d ∷ v) h g = ground arith

    proper : (u : Text) → t ≡ p ++ u → slash ∷ rest ≡ u ++ s → IsBelow p t
    proper [] f g =
        let inside : is_within t p ≡ true =
          ap (λ w. is_within w p) (f ∙ append-nil p)
          ∙ ap (is_within p) (sym (append-nil p))
          ∙ within-tail p [] tt in
        absurd (ground arith)
    proper (c ∷ u) f g = let same : c ≡ slash = ground arith in (u, f ∙ ap (λ y. p ++ y ∷ u) same)

module _ (from to : Text) (c b' : VaultBatch) (apart : is_within from to ≡ false)
    (closed : IsClosed batch_store c)
    (dirs : (p : Text) → IsBelow p to → kind_at batch_store c p ≡ some dir)
    (entries : (q : Text)
      → entry_at b' q ≡ (
          if is_within to q
          then with_path from to q (entry_at c (origin from to q))
          else if is_within from q
          then none
          else entry_at c q)) where
  -- An ancestor that is neither at the old path nor at the new one.
  stays_dir :
      (p : Text)
      → is_within to p ≡ false
      → is_within from p ≡ false
      → kind_at batch_store c p ≡ some dir
      → kind_at batch_store b' p ≡ some dir
  stays_dir p away outside h = ground (arith, entries p, h)

  origin-tail : (s : Text) → origin from to (to ++ s) ≡ from ++ s
  origin-tail s = ap (λ t. from ++ t) (drop-append to s)

  below_new :
      (p q s rest : Text) (e : EntryV2)
      → IsTail s
      → q ≡ to ++ s
      → q ≡ p ++ slash ∷ rest
      → entry_at b' q ≡ some e
      → kind_at batch_store b' p ≡ some dir
  below_new p q s rest e tail f below found = elim (Bool-cases (is_within to p)) [
    | inl inside ↦
        let (u, g, t) = within-split to p inside in
        let tails : s ≡ u ++ slash ∷ rest =
          (append-cancel to to s (u ++ slash ∷ rest) refl
            (sym f ∙ below ∙ ap (λ w. w ++ slash ∷ rest) g ∙ append_assoc to u (slash ∷ rest))).1 in
        let came : (x : EntryV2)
            → entry_at c (from ++ s) ≡ some x
            → kind_at batch_store c (from ++ u) ≡ some dir =
          λ x there.
            closed (from ++ u) (from ++ s) x there
              (rest, ap (λ w. from ++ w) tails ∙ sym (append_assoc from u (slash ∷ rest))) in
        elim (Option-cases (entry_at c (from ++ s))) [
          | inl missing ↦ absurd (
              ground (
                arith,
                entries q,
                found,
                ap (is_within to) f,
                within-tail to s tail,
                ap (λ w. entry_at c (origin from to w)) f,
                ap (entry_at c) (origin-tail s),
                missing,
              ))
          | inr (x, there) ↦ ground (
            arith,
            entries p,
            inside,
            came x there,
            ap (λ w. entry_at c (origin from to w)) g,
            ap (entry_at c) (origin-tail u),
          )
        ]
    | inr away ↦
        let proper : IsBelow p to = ancestor-IsBelow to p s rest tail (sym f ∙ below) away in
        elim (Bool-cases (is_within from p)) [
          | inl inside ↦ absurd (ground (arith, is_within-IsBelow from p to inside proper, apart))
          | inr outside ↦ stays_dir p away outside (dirs p proper)
        ]
  ]

  pub moved-IsClosed : IsClosed batch_store b'
  moved-IsClosed p q e found (rest, below) = elim (Bool-cases (is_within to q)) [
    | inl there ↦
        let (s, f, tail) = within-split to q there in below_new p q s rest e tail f below found
    | inr away ↦ elim (Bool-cases (is_within from q)) [
      | inl old ↦ absurd (ground (arith, entries q, found))
      | inr outside ↦
          stays_dir p
            (elim (Bool-cases (is_within to p)) [
              | inl inside ↦ absurd (ground (arith, is_within-IsBelow to p q inside (rest, below)))
              | inr fine ↦ fine
            ])
            (elim (Bool-cases (is_within from p)) [
              | inl inside ↦
                  absurd (ground (arith, is_within-IsBelow from p q inside (rest, below)))
              | inr fine ↦ fine
            ])
            (closed p q e (ground (arith, entries q, found)) (rest, below))
    ]
  ]
