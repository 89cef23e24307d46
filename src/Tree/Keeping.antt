-- ===== src/Tree/Keeping.antt =====
-- What a loop over the ancestors of a path keeps, in crates/filesec-core/src/vault.rs and
-- crates/filesec-core/src/format_v2.rs: whatever each of its steps keeps.
use file_sec.Prelude.{refl, Option-cases, inl, inr, List, [], ◌∷◌, Text, ◌≡◌}
use file_sec.Errors.{Result, ok, err}
use file_sec.Tree.{
  EntryKind, file, dir, TreeStore, andthen, next_acc, walk, ensure_one, ensure, existing,
}

module _ {S : Type 0} (P : S → Type 0) where
  pub andthen-keeps :
      (r : Result (Unit {0}) × S) (next : S → Result (Unit {0}) × S)
      → P r.1
      → ((s : S) → P s → P (next s).1)
      → P (andthen r next).1
  andthen-keeps (ok done, s) next p h = h s p
  andthen-keeps (err e, s) next p h = p

  pub walk-keeps :
      (step : Text → S → Result (Unit {0}) × S)
      → ((q : Text) (s : S) → P s → P (step q s).1)
      → (acc : Text) (comps : List Text) (s : S) → P s
      → P (walk step acc comps s).1
  unfolding walk
  walk-keeps step h acc [] s p = p
  walk-keeps step h acc (comp ∷ comps) s p =
      andthen-keeps (step (next_acc acc comp) s) (walk step (next_acc acc comp) comps)
        (h (next_acc acc comp) s p) (walk-keeps step h (next_acc acc comp) comps)

-- When a chain succeeds, each part has.
pub andthen-reaches :
    {S : Type 0} (P Q : S → Type 0) (r : Result (Unit {0}) × S) (next : S → Result (Unit {0}) × S)
    → (r.0 ≡ ok tt → P r.1)
    → ((s : S) → P s → (next s).0 ≡ ok tt → Q (next s).1)
    → (andthen r next).0 ≡ ok tt
    → Q (andthen r next).1
andthen-reaches P Q (ok done, s) next p h succeeds = h s (p refl) succeeds
andthen-reaches P Q (err e, s) next p h succeeds = absurd (cc)

module _ (t : TreeStore) where
  open t use {S, push_dir, entry_at, kind_of}

  module _ (P : S → Type 0) (pushed : (q : Text) (s : S) → P s → P (push_dir q s)) where
    ensure_one-keeps : (q : Text) (s : S) → P s → P (ensure_one t q s).1
    unfolding ensure_one
    ensure_one-keeps q s p = elim (Option-cases (entry_at s q)) [
      | inl missing ↦ rw (missing, ensure_one) (pushed q s p)
      | inr (e, found) ↦ rw (found, ensure_one) (by_kind (kind_of e))
    ]
      where
        by_kind : (k : EntryKind) → P (existing t k q s).1
        by_kind file = p
        by_kind dir = p

    pub ensure-keeps : (path : Text) (s : S) → P s → P (ensure t path s).1
    unfolding ensure
    ensure-keeps path s p = walk-keeps P (ensure_one t) ensure_one-keeps [] _ s p
