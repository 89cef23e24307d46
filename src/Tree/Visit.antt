-- ===== src/Tree/Visit.antt =====
-- What making some missing directories, one after the other, does to a tree
-- (crates/filesec-core/src/vault.rs, crates/filesec-core/src/format_v2.rs), for every implementation of the
-- interface.
use file_sec.Prelude.{
  ℕ, ◌≡◌, ◌≢◌, ◌⊎◌, refl, sym, ap, subst, ◌∙◌, Bool, true, false, ◌&&◌, Option, none, some, List,
  [], ◌∷◌, ◌++◌, All, All-map, length, length-append, if◌then◌else◌, Bool-cases, Option-cases, inl,
  inr, Text, text_eq, text_eq_iff, text_eq_refl, ne-text_eq, arith,
}
use mathlib.Core.List.{append_assoc}
use file_sec.Errors.{Error, ok, err}
use file_sec.Paths.{slash}
use file_sec.Tree.{EntryKind, file, dir, TreeStore, ensure_one, file_exists}
use file_sec.Tree.Parents.{visit, is_member, IsBelow, IsChain}

abbrev is_none {ℓ} : {A : Type ℓ} → Option A → Bool
is_none none = true
is_none (some a) = false

pub IsBelow-ne : (p q : Text) → IsBelow p q → p ≢ q
IsBelow-ne p q (rest, e) same =
    omega (arith, length-append p (slash ∷ rest), ap (length {A = ℕ}) (same ∙ e))

pub IsBelow-trans : (p q r : Text) → IsBelow p q → IsBelow q r → IsBelow p r
IsBelow-trans p q r (s, e) (t, f) =
    (s ++ slash ∷ t, f ∙ ap (λ u. u ++ slash ∷ t) e ∙ append_assoc p (slash ∷ s) (slash ∷ t))

pub member-All :
    (P : Text → Type 0) (q : Text) (l : List Text) → All P l → is_member q l ≡ true → P q
member-All P q [] a h = absurd (cc)
member-All P q (p ∷ l) a h = elim (Bool-cases (text_eq q p)) [
  | inl same ↦ subst P (sym ((text_eq_iff q p).0 same)) a.0
  | inr other ↦ member-All P q l a.1 (ground arith)
]

module _ (t : TreeStore) where
  open t use {
    S, E, kind_of, new_dir, kind_of-new_dir, entry_at, push_dir, IsValid, push_dir-IsValid,
    entry_at-push_dir,
  }

  abbrev pub kind_at : S → Text → Option EntryKind
  kind_at s p = elim (entry_at s p) [ none ↦ none | some e ↦ some (kind_of e) ]

  -- The entries once the ancestors in `l` exist: the missing ones are new directories, and every
  -- other path has the entry that it had.
  abbrev pub with_dirs : List Text → S → Text → Option E
  with_dirs l s q =
      if is_member q l && is_none (entry_at s q) then some (new_dir q) else entry_at s q

  -- Every proper ancestor of an entry is a directory.
  abbrev pub IsClosed : S → Type 0
  IsClosed s = (p q : Text) (e : E) → entry_at s q ≡ some e → IsBelow p q → kind_at s p ≡ some dir

  pub record Made (l : List Text) (s s' : S) : Type 0 where
    pub valid : IsValid s'
    pub entries : (q : Text) → entry_at s' q ≡ with_dirs l s q
    pub dirs : All (λ p. kind_at s' p ≡ some dir) l

  ensure_one-missing :
      (p : Text) (s : S) → entry_at s p ≡ none → ensure_one t p s ≡ (ok tt, push_dir p s)
  unfolding ensure_one
  ensure_one-missing p s h = ground arith

  ensure_one-dir : (p : Text) (s : S) → kind_at s p ≡ some dir → ensure_one t p s ≡ (ok tt, s)
  unfolding ensure_one
  ensure_one-dir p s h = ground arith

  ensure_one-file :
      (p : Text) (s : S) → kind_at s p ≡ some file → ensure_one t p s ≡ (err (file_exists p), s)
  unfolding ensure_one
  ensure_one-file p s h = ground arith

  kind_cases :
      (p : Text) (s : S)
      → (entry_at s p ≡ none) ⊎ ((kind_at s p ≡ some dir) ⊎ (kind_at s p ≡ some file))
  kind_cases p s = elim (Option-cases (entry_at s p)) [
    | inl missing ↦ inl missing
    | inr (e, found) ↦ rw (found, kind_at) (inr (by_kind (kind_of e)))
  ]
    where
      by_kind : (k : EntryKind) → (some k ≡ some dir) ⊎ (some k ≡ some file)
      by_kind file = inr refl
      by_kind dir = inl refl

  kind_at-some : (p : Text) (s : S) (e : E) → entry_at s p ≡ some e → kind_at s p ≡ some (kind_of e)
  kind_at-some p s e h = rw (h, kind_at)

  Made-push :
      (p : Text) (ps : List Text) (s s' : S)
      → IsValid s
      → entry_at s p ≡ none
      → Made ps (push_dir p s) s'
      → Made (p ∷ ps) s s'
  Made-push p ps s s' v missing m = record {
    valid = m.valid;
    entries = λ q.
        ground
          (arith, m.entries q, entry_at-push_dir p q s v missing, text_eq_iff p q, text_eq_iff q p);
    dirs = (
      kind_at-some p s' (new_dir p)
            (ground (arith, m.entries p, entry_at-push_dir p p s v missing, text_eq_refl p))
          ∙ ap (λ k. some k) (kind_of-new_dir p),
      m.dirs,
    );
  }

  Made-found :
      (p : Text) (ps : List Text) (s s' : S)
      → kind_at s p ≡ some dir
      → Made ps s s'
      → Made (p ∷ ps) s s'
  Made-found p ps s s' found m = record {
    valid = m.valid;
    entries = λ q. ground (arith, m.entries q, text_eq_iff q p);
    dirs = (ground (arith, m.entries p), m.dirs);
  }

  pub visit-Made :
      (l : List Text) (s : S)
      → IsValid s
      → (visit (ensure_one t) l s).0 ≡ ok tt
      → Made l s (visit (ensure_one t) l s).1
  unfolding visit
  visit-Made [] s v h = record { valid = v; entries = λ q. refl; dirs = tt }
  visit-Made (p ∷ ps) s v h = elim (kind_cases p s) [
    | inl missing ↦ rw (ensure_one-missing p s missing) (
        Made-push p ps s (visit (ensure_one t) ps (push_dir p s)).1 v missing (
          visit-Made ps (push_dir p s) (push_dir-IsValid p s v missing)
            (rw (ensure_one-missing p s missing) at h)))
    | inr (inl found) ↦ rw (ensure_one-dir p s found) (
        Made-found p ps s (visit (ensure_one t) ps s).1 found
          (visit-Made ps s v (rw (ensure_one-dir p s found) at h)))
    | inr (inr blocked) ↦ absurd (cc (ensure_one-file p s blocked, h))
  ]

  -- Below a path that is missing from a closed tree everything is missing.
  absent_below :
      (p q : Text) (s : S) → IsClosed s → entry_at s p ≡ none → IsBelow p q → entry_at s q ≡ none
  absent_below p q s closed missing below = elim (Option-cases (entry_at s q)) [
    | inl absent ↦ absent
    | inr (e, found) ↦ absurd (ground (arith, closed p q e found below))
  ]

  absent-push_dir :
      (p q : Text) (s : S)
      → IsValid s
      → entry_at s p ≡ none
      → entry_at s q ≡ none
      → IsBelow p q
      → entry_at (push_dir p s) q ≡ none
  absent-push_dir p q s v missing absent below =
      rw (entry_at-push_dir p q s v missing, ne-text_eq p q (IsBelow-ne p q below)) absent

  -- A chain of missing directories is made without an error.
  visit-absent :
      (l : List Text) (s : S)
      → IsValid s
      → IsChain l
      → All (λ q. entry_at s q ≡ none) l
      → (visit (ensure_one t) l s).0 ≡ ok tt
  unfolding visit
  visit-absent [] s v c a = refl
  visit-absent (p ∷ ps) s v c a =
      rw (ensure_one-missing p s a.0)
        (visit-absent ps (push_dir p s) (push_dir-IsValid p s v a.0) c.1 (All-both ps c.0 a.1))
    where
      All-both :
          (l : List Text)
          → All (IsBelow p) l
          → All (λ q. entry_at s q ≡ none) l
          → All (λ q. entry_at (push_dir p s) q ≡ none) l
      All-both [] b m = tt
      All-both (q ∷ l) b m = (absent-push_dir p q s v a.0 m.0 b.0, All-both l b.1 m.1)

  -- A visit that fails has changed nothing: the file that stopped it stands above whatever was
  -- still to be made, and all above it was there.
  pub visit_unchanged :
      (l : List Text) (s : S) (e : Error)
      → IsValid s
      → IsClosed s
      → IsChain l
      → (visit (ensure_one t) l s).0 ≡ err e
      → (visit (ensure_one t) l s).1 ≡ s
  unfolding visit
  visit_unchanged [] s e v closed c h = refl
  visit_unchanged (p ∷ ps) s e v closed c h = elim (kind_cases p s) [
    | inl missing ↦ absurd (
        cc (
          visit-absent (p ∷ ps) s v c (
            missing,
            All-map (IsBelow p) (λ q. entry_at s q ≡ none)
                (λ q b. absent_below p q s closed missing b) ps c.0,
          ),
          h,
        ))
    | inr (inl found) ↦
        rw (ensure_one-dir p s found)
          (visit_unchanged ps s e v closed c.1 (rw (ensure_one-dir p s found) at h))
    | inr (inr blocked) ↦ rw (ensure_one-file p s blocked)
  ]

  -- A visit that meets no file succeeds.
  pub visit_ok :
      (l : List Text) (s : S)
      → IsValid s
      → All (λ q. kind_at s q ≢ some file) l
      → (visit (ensure_one t) l s).0 ≡ ok tt
  unfolding visit
  visit_ok [] s v a = refl
  visit_ok (p ∷ ps) s v a = elim (kind_cases p s) [
    | inl missing ↦ rw (ensure_one-missing p s missing) (
        visit_ok ps (push_dir p s) (push_dir-IsValid p s v missing) (
          All-map (λ q. kind_at s q ≢ some file) (λ q. kind_at (push_dir p s) q ≢ some file)
            (λ q n e. n (ground (arith, e, entry_at-push_dir p q s v missing, kind_of-new_dir p)))
            ps a.1))
    | inr (inl found) ↦ rw (ensure_one-dir p s found) (visit_ok ps s v a.1)
    | inr (inr blocked) ↦ absurd (a.0 blocked)
  ]
