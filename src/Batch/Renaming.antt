-- ===== src/Batch/Renaming.antt =====
-- Moves inside a vault directory (crates/filesec-core/src/format_v2.rs): the paths of the entries after
-- a rename.
use mathlib.Core.List.{append_assoc, append-nil}
use file_sec.Prelude.{
  ◌≡◌, refl, sym, ap, ◌∙◌, subst, Bool, true, false, Option, none, some, List, [], ◌∷◌, ◌++◌, map,
  drop, length, drop-append, All, if◌then◌else◌, Bool-cases, inl, inr, Text, text_eq, text_eq_iff,
  text_eq_refl, starts_with, starts_with-split, starts_with-append, arith,
}
use file_sec.Paths.{slash}
use file_sec.Vault.{is_within}
use file_sec.Blobs.{EntryV2, find_path}
use file_sec.Batch.{IsUnique}
use file_sec.Batch.Ops.{moved, move_entry}

-- What may follow a path in one that is at or below it.
abbrev pub IsTail : Text → Type 0
IsTail [] = Unit
IsTail (c ∷ s) = c ≡ slash

pub within-split : (a p : Text) → is_within a p ≡ true → (s : Text) × (p ≡ a ++ s) × IsTail s
within-split a p h = elim (Bool-cases (text_eq p a)) [
  | inl same ↦ ([], (text_eq_iff p a).0 same ∙ sym (append-nil a), tt)
  | inr other ↦
      let (s, e) = starts_with-split (a ++ slash ∷ []) p (ground arith) in
      (slash ∷ s, e ∙ append_assoc a (slash ∷ []) s, refl)
]

pub within-tail : (a s : Text) → IsTail s → is_within a (a ++ s) ≡ true
within-tail a [] h = rw (append-nil a, text_eq_refl a)
within-tail a (c ∷ s) h =
    let below : starts_with (a ++ slash ∷ []) (a ++ c ∷ s) ≡ true =
      subst (λ t. starts_with (a ++ slash ∷ []) t ≡ true)
        (append_assoc a (slash ∷ []) s ∙ ap (λ x. a ++ x ∷ s) (sym h))
        (starts_with-append (a ++ slash ∷ []) s) in
    ground arith

text_eq-append : (a x y : Text) → text_eq (a ++ x) (a ++ y) ≡ text_eq x y
unfolding text_eq
text_eq-append [] x y = refl
text_eq-append (c ∷ a) x y = ground (arith, text_eq-append a x y)

within-eq : (a p q : Text) → is_within a p ≡ true → is_within a q ≡ false → text_eq p q ≡ false
within-eq a p q h k = ground (arith, text_eq_iff p q, ap (is_within a) {x = p} {y = q})

eq-within : (a p q : Text) → is_within a p ≡ false → is_within a q ≡ true → text_eq p q ≡ false
eq-within a p q h k = ground (arith, text_eq_iff p q, ap (is_within a) {x = p} {y = q})

module _ (from to : Text) where
  -- The path that an entry at `q`, which stands at or below `to`, has come from.
  abbrev pub origin : Text → Text
  origin q = from ++ drop (length to) q

  moved-below : (s : Text) → moved from to (from ++ slash ∷ s) ≡ to ++ slash ∷ s
  unfolding moved
  moved-below s =
      let apart : text_eq (from ++ slash ∷ s) from ≡ false =
        subst (λ t. text_eq (from ++ slash ∷ s) t ≡ false) (append-nil from)
          (text_eq-append from (slash ∷ s) [] ∙ unfold text_eq in refl) in
      let below : starts_with (from ++ slash ∷ []) (from ++ slash ∷ s) ≡ true =
        subst (λ t. starts_with (from ++ slash ∷ []) t ≡ true) (append_assoc from (slash ∷ []) s)
          (starts_with-append (from ++ slash ∷ []) s) in
      let rest : drop (length (from ++ slash ∷ [])) (from ++ slash ∷ s) ≡ s =
        subst (λ t. drop (length (from ++ slash ∷ [])) t ≡ s) (append_assoc from (slash ∷ []) s)
          (drop-append (from ++ slash ∷ []) s) in
      rw (apart, below, rest, moved)

  moved-tail : (s : Text) → IsTail s → moved from to (from ++ s) ≡ to ++ s
  unfolding moved
  moved-tail [] h = rw (append-nil from, text_eq_refl from) (sym (append-nil to))
  moved-tail (c ∷ s) h =
      subst (λ x. moved from to (from ++ x ∷ s) ≡ to ++ x ∷ s) (sym h) (moved-below s)

  moved-other : (p : Text) → is_within from p ≡ false → moved from to p ≡ p
  unfolding moved
  moved-other p h = ground arith

  -- Where the moved path of an entry is looked up that was not at or below `to`.
  abbrev matches : Text → Text → Bool
  matches p q =
      if is_within to q
      then text_eq p (origin q)
      else if is_within from q
      then false
      else text_eq p q

  moved-matches : (p q : Text) → is_within to p ≡ false → text_eq (moved from to p) q ≡ matches p q
  moved-matches p q free = elim (Bool-cases (is_within from p)) [
    | inl inside ↦
        let (s, e, tail) = within-split from p inside in
        let new : moved from to p ≡ to ++ s = ap (moved from to) e ∙ moved-tail s tail in
        elim (Bool-cases (is_within to q)) [
          | inl there ↦
              let (r, f, g) = within-split to q there in
              ap (λ t. text_eq t q) new
              ∙ ap (text_eq (to ++ s)) f
              ∙ text_eq-append to s r
              ∙ sym (text_eq-append from s r)
              ∙ ap (λ t. text_eq t (from ++ r)) (sym e)
              ∙ ap (λ t. text_eq p (from ++ t)) (sym (ap (drop (length to)) f ∙ drop-append to r))
              ∙ rw there
          | inr away ↦
              let not_new : text_eq (moved from to p) q ≡ false =
                ap (λ t. text_eq t q) new ∙ within-eq to (to ++ s) q (within-tail to s tail) away in
              elim (Bool-cases (is_within from q)) [
                | inl old ↦ rw (away, old) not_new
                | inr none_of ↦
                    rw (away, none_of) (not_new ∙ sym (within-eq from p q inside none_of))
              ]
        ]
    | inr outside ↦ rw (moved-other p outside) (elim (Bool-cases (is_within to q)) [
      | inl there ↦
          let (r, f, g) = within-split to q there in
          let origin_tail : origin q ≡ from ++ r =
            ap (λ t. from ++ t) (ap (drop (length to)) f ∙ drop-append to r) in
          rw there (
            eq-within to p q free there
            ∙ sym (
                eq-within from p (origin q) outside
                  (ap (is_within from) origin_tail ∙ within-tail from r g)))
      | inr away ↦ elim (Bool-cases (is_within from q)) [
        | inl old ↦ rw (away, old) (eq-within from p q outside old)
        | inr none_of ↦ rw (away, none_of)
      ]
    ])
  ]

  abbrev pub with_path : Text → Option EntryV2 → Option EntryV2
  with_path q none = none
  with_path q (some e) = some (record e { path = q })

  -- Where the entry at `q` has come from, with its path changed.
  abbrev pub after_move : List EntryV2 → Text → Option EntryV2
  after_move es q =
      if is_within to q
      then with_path q (find_path (origin q) es)
      else if is_within from q
      then none
      else find_path q es

  pub find_path-moved :
      (q : Text) (es : List EntryV2)
      → All (λ e. is_within to e.path ≡ false) es
      → find_path q (map (move_entry from to) es) ≡ after_move es q
  unfolding find_path
  find_path-moved q [] h = ground arith
  find_path-moved q (e ∷ es) h =
      let rest = find_path-moved q es h.1 in
      let here = moved-matches e.path q h.0 in
      elim (Bool-cases (is_within to q)) [
        | inl there ↦ elim (Bool-cases (text_eq (moved from to e.path) q)) [
          | inl hit ↦
              let came : text_eq e.path (origin q) ≡ true = sym (rw there at here) ∙ hit in
              rw (hit, there, came)
                (ap (λ t. some (record e { path = t }))
                  ((text_eq_iff (moved from to e.path) q).0 hit))
          | inr miss ↦
              let came : text_eq e.path (origin q) ≡ false = sym (rw there at here) ∙ miss in
              rw (miss, there, came) (rw there at rest)
        ]
        | inr away ↦ elim (Bool-cases (is_within from q)) [
          | inl old ↦
              let miss : text_eq (moved from to e.path) q ≡ false = rw (away, old) at here in
              rw (miss, away, old) (rw (away, old) at rest)
          | inr none_of ↦ elim (Bool-cases (text_eq e.path q)) [
            | inl same ↦
                let hit : text_eq (moved from to e.path) q ≡ true =
                  (rw (away, none_of) at here) ∙ same in
                rw (hit, away, none_of, same)
                  (ap (λ t. some (record e { path = t }))
                    ((text_eq_iff (moved from to e.path) q).0 hit
                      ∙ sym ((text_eq_iff e.path q).0 same)))
            | inr other ↦
                let miss : text_eq (moved from to e.path) q ≡ false =
                  (rw (away, none_of) at here) ∙ other in
                rw (miss, away, none_of, other) (rw (away, none_of) at rest)
          ]
        ]
      ]

  after_move-moved :
      (es : List EntryV2) (p : Text)
      → is_within to p ≡ false
      → find_path p es ≡ none
      → after_move es (moved from to p) ≡ none
  after_move-moved es p free missing = elim (Bool-cases (is_within from p)) [
    | inl inside ↦
        let (s, e, tail) = within-split from p inside in
        let came : find_path (origin (to ++ s)) es ≡ none =
          ap (λ t. find_path (from ++ t) es) (drop-append to s)
          ∙ ap (λ t. find_path t es) (sym e)
          ∙ missing in
        ap (after_move es) (ap (moved from to) e ∙ moved-tail s tail)
        ∙ rw (within-tail to s tail, came)
    | inr outside ↦ rw (moved-other p outside, free, outside) missing
  ]

  pub move-IsUnique :
      (es : List EntryV2)
      → All (λ e. is_within to e.path ≡ false) es
      → IsUnique es
      → IsUnique (map (move_entry from to) es)
  move-IsUnique [] h u = tt
  move-IsUnique (e ∷ es) h u = (
    find_path-moved (moved from to e.path) es h.1 ∙ after_move-moved es e.path h.0 u.0,
    move-IsUnique es h.1 u.1,
  )
