-- ===== src/Tree/Add.antt =====
-- An entry that is added at a path whose ancestors have been made (vault.rs, format_v2.rs).
use file_sec.Prelude.{
  ◌≡◌, refl, sym, subst, ◌∙◌, false, none, some, if◌then◌else◌, Bool-cases, inl, inr, Text, text_eq,
  text_eq_iff, arith,
}
use file_sec.Tree.{dir, TreeStore}
use file_sec.Tree.Parents.{parents, is_member, IsBelow, parents-IsBelow, IsBelow-parents}
use file_sec.Tree.Visit.{kind_at, IsClosed, Made, IsBelow-ne, member-All}
use file_sec.Tree.Ensure.{Made-IsClosed}

pub path-not_own_parent : (path : Text) → is_member path (parents path) ≡ false
path-not_own_parent path = elim (Bool-cases (is_member path (parents path))) [
  | inl inside ↦ absurd (
      IsBelow-ne path path
        (member-All (λ q. IsBelow q path) path (parents path) (parents-IsBelow path) inside) refl)
  | inr outside ↦ outside
]

module _ (t : TreeStore) where
  open t use {S, E, entry_at}

  -- The tree `s'` with one entry more.
  abbrev pub IsAdded : Text → E → S → S → Type 0
  IsAdded path e s s' =
      (q : Text) → entry_at s' q ≡ (if text_eq path q then some e else entry_at s q)

  module _ (path : Text) (e : E) (s made added : S) (closed : IsClosed t s)
      (missing : entry_at s path ≡ none) (m : Made t (parents path) s made) where
    -- The path itself is still free when its ancestors have been made.
    pub Made-missing : entry_at made path ≡ none
    Made-missing = m.entries path ∙ rw (path-not_own_parent path) missing

    pub IsAdded-IsClosed : IsAdded path e made added → IsClosed t added
    IsAdded-IsClosed new p q x found below = elim (Bool-cases (text_eq path q)) [
      | inl same ↦
          let at_path : IsBelow p path =
            subst (IsBelow p) (sym ((text_eq_iff path q).0 same)) below in
          let parent : kind_at t made p ≡ some dir =
            member-All (λ u. kind_at t made u ≡ some dir) p (parents path) m.dirs
              (IsBelow-parents p path at_path) in
          ground (arith, parent, new p, Made-missing, text_eq_iff path p)
      | inr other ↦
          let parent : kind_at t made p ≡ some dir =
            Made-IsClosed t path s made closed m p q x (ground (arith, new q)) below in
          ground (arith, parent, new p, Made-missing, text_eq_iff path p)
    ]
