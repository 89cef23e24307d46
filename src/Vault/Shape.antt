-- ===== src/Vault/Shape.antt =====
-- `check_tree_shape` of crates/filesec-core/src/vault.rs: no file may be above another entry.
use mathlib.Core.List.{append_assoc}
use file_sec.Prelude.{
  ℕ, zero, suc, ◌<◌, ◌≡◌, ◌⊎◌, ◌↔◌, refl, sym, ap, subst, ◌∙◌, Bool, true, false, Option, none,
  some, List, [], ◌∷◌, ◌++◌, All, length, length-append, if◌then◌else◌, ◌==◌, ==_iff, Bool-cases,
  Option-cases, inl, inr, Text, arith,
}
use file_sec.Errors.{Result, ok, err, format}
use file_sec.Paths.{slash}
use file_sec.Paths.Split.{Slashless}
use file_sec.Tree.{EntryKind, is_file}
use file_sec.Tree.Parents.{IsBelow, is_member}

-- `rsplit_once('/')`, the part in front.
unfoldable pub rsplit : Text → Option Text
rsplit [] = none
rsplit (c ∷ s) = elim (rsplit s) [
  | some p ↦ some (c ∷ p)
  | none ↦ if c == slash then some [] else none
]

-- The loop up from a path: whether it meets one of the files.
unfoldable pub climb : ℕ → List Text → Text → Bool
climb zero files cur = false
climb (suc fuel) files cur = elim (rsplit cur) [
  | none ↦ false
  | some parent ↦
      let above = climb fuel files parent in if is_member parent files then true else above
]

unfoldable pub files_of : List (Text × EntryKind) → List Text
files_of [] = []
files_of ((path, kind) ∷ entries) =
    let rest = files_of entries in if is_file kind then path ∷ rest else rest

abbrev check_each : List Text → List (Text × EntryKind) → Result (Unit {0})
check_each files [] = ok tt
check_each files ((path, kind) ∷ entries) =
    let rest = check_each files entries in
    if climb (suc (length path)) files path
    then err (format "a file entry is used as a directory")
    else rest

unfoldable pub check_tree_shape : List (Text × EntryKind) → Result (Unit {0})
unfolding climb files_of rsplit
check_tree_shape entries = check_each (files_of entries) entries

rsplit-none : (s : Text) → rsplit s ≡ none → Slashless s
unfolding rsplit
rsplit-none [] h = tt
rsplit-none (c ∷ s) h = (ground arith, rsplit-none s (ground arith))

abbrev IsLast : Text → Text → Type 0
IsLast p s = (r : Text) × (s ≡ p ++ slash ∷ r) × Slashless r

rsplit-some : (s p : Text) → rsplit s ≡ some p → IsLast p s
unfolding rsplit
rsplit-some [] p h = absurd (cc)
rsplit-some (c ∷ s) p h = elim (Option-cases (rsplit s)) [
  | inl e ↦
      let same : (c == slash) ≡ true = ground arith in
      let empty : [] ≡ p = ground arith in
      subst (λ q. IsLast q (c ∷ s)) empty
        (s, ap (λ x. x ∷ s) ((==_iff c slash).0 same), rsplit-none s e)
  | inr (q, e) ↦
      let (r, f, slashless) = rsplit-some s q e in
      let longer : c ∷ q ≡ p = ground arith in
      subst (λ u. IsLast u (c ∷ s)) longer (r, ap (λ t. c ∷ t) f, slashless)
]

slash_inside : (f r : Text) → Slashless (f ++ slash ∷ r) → ⊥
slash_inside [] r h = h.0 refl
slash_inside (x ∷ f) r h = slash_inside f r h.1

-- The part in front of the last slash is the nearest ancestor.
nearest : (f p r s : Text) → f ++ slash ∷ s ≡ p ++ slash ∷ r → Slashless r → (f ≡ p) ⊎ IsBelow f p
nearest [] [] r s e h = inl refl
nearest [] (c ∷ p) r s e h = inr (p, ap (λ x. x ∷ p) (sym (cc)))
nearest (x ∷ f) [] r s e h = absurd (slash_inside f s (subst Slashless (cc) h))
nearest (x ∷ f) (c ∷ p) r s e h = elim (nearest f p r s (cc) h) [
  | inl same ↦ inl (cc)
  | inr (rest, below) ↦ inr (rest, cc)
]

abbrev IsAbove : List Text → Text → Type 0
IsAbove files path = (f : Text) × (is_member f files ≡ true) × IsBelow f path

climb-IsAbove :
    (fuel : ℕ) (files : List Text) (cur : Text) → climb fuel files cur ≡ true → IsAbove files cur
unfolding climb
climb-IsAbove zero files cur h = absurd (cc)
climb-IsAbove (suc fuel) files cur h = elim (Option-cases (rsplit cur)) [
  | inl e ↦ absurd (ground arith)
  | inr (parent, e) ↦
      let (r, f, slashless) = rsplit-some cur parent e in
      elim (Bool-cases (is_member parent files)) [
        | inl here ↦ (parent, here, (r, f))
        | inr more ↦
            let (g, member, (rest, below)) = climb-IsAbove fuel files parent (ground arith) in
            (
              g,
              member,
              (
                rest ++ slash ∷ r,
                f ∙ ap (λ t. t ++ slash ∷ r) below ∙ append_assoc g (slash ∷ rest) (slash ∷ r),
              ),
            )
      ]
]

climb_complete :
    (fuel : ℕ) (files : List Text) (cur f : Text)
    → length cur < fuel
    → is_member f files ≡ true
    → IsBelow f cur
    → climb fuel files cur ≡ true
unfolding climb
climb_complete zero files cur f h m b = absurd (omega arith)
climb_complete (suc fuel) files cur f h m (s, e) = elim (Option-cases (rsplit cur)) [
  | inl none_left ↦ absurd (slash_inside f s (subst Slashless e (rsplit-none cur none_left)))
  | inr (parent, found) ↦
      let (r, g, slashless) = rsplit-some cur parent found in
      let shorter : length parent < fuel =
        omega (arith, ap (length {A = ℕ}) g, length-append parent (slash ∷ r)) in
      elim (nearest f parent r s (sym e ∙ g) slashless) [
        | inl same ↦
            let here : is_member parent files ≡ true =
              subst (λ p. is_member p files ≡ true) same m in
            ground arith
        | inr below ↦
            let above : climb fuel files parent ≡ true =
              climb_complete fuel files parent f shorter m below in
            ground arith
      ]
]

-- No file of the list is a proper ancestor of the path.
abbrev pub IsClear : List Text → Text → Type 0
IsClear files path = (f : Text) → is_member f files ≡ true → ¬ (IsBelow f path)

check_each_iff :
    (files : List Text) (entries : List (Text × EntryKind))
    → (check_each files entries ≡ ok tt) ↔ All (λ e. IsClear files e.0) entries
check_each_iff files [] = (λ h. tt, λ h. refl)
check_each_iff files ((path, kind) ∷ entries) =
    elim (Bool-cases (climb (suc (length path)) files path)) [
      | inl blocked ↦
          let (f, member, below) = climb-IsAbove (suc (length path)) files path blocked in
          (λ h. absurd (ground arith), λ h. absurd (h.0 f member below))
      | inr free ↦
          let rest = check_each_iff files entries in
          (
            λ h. (
              λ f member below. cc (
                climb_complete (suc (length path)) files path f (omega arith) member below,
                free,
              ),
              rest.0 (ground arith),
            ),
            λ h. rw (free, check_each) (rest.1 h.1),
          )
    ]

-- The shape is accepted exactly when no file entry is a proper ancestor of any entry.
pub check_tree_shape_iff :
    (entries : List (Text × EntryKind))
    → (check_tree_shape entries ≡ ok tt) ↔ All (λ e. IsClear (files_of entries) e.0) entries
unfolding check_tree_shape
check_tree_shape_iff entries = check_each_iff (files_of entries) entries
