-- ===== src/Batch/Counting.antt =====
-- crates/filesec-core/src/format_v2.rs: how often the entries of a manifest name a blob.
use file_sec.Prelude.{
  ℕ, zero, suc, ◌+◌, ◌≡◌, refl, ap, Bool, not, none, some, List, [], ◌∷◌, ◌++◌, map, set, get_elem?,
  if◌then◌else◌, Bool-cases, inl, inr, Text, text_eq, arith,
}
use file_sec.Blobs.{EntryV2, dir_entry}
use file_sec.Batch.Ops.{retain, removed_ids, move_entry, extend}
use file_sec.Batch.Commit.{ids_of}

abbrev pub count : Text → List Text → ℕ
count id [] = 0
count id (x ∷ ids) = if text_eq x id then suc (count id ids) else count id ids

pub count-append : (id : Text) (xs ys : List Text) → count id (xs ++ ys) ≡ count id xs + count id ys
count-append id [] ys = omega arith
count-append id (x ∷ xs) ys = ground (arith, count-append id xs ys)

-- How often an entry names a blob.
abbrev pub names : Text → EntryV2 → ℕ
names id e = count id (extend [] e.file_id)

-- How often the entries name a blob.
abbrev pub uses : Text → List EntryV2 → ℕ
uses id es = count id (ids_of es)

uses-cons :
    (id : Text) (e : EntryV2) (es : List EntryV2) → uses id (e ∷ es) ≡ names id e + uses id es
unfolding ids_of
uses-cons id e es = count-append id (extend [] e.file_id) (ids_of es)

uses_nil : (id : Text) → uses id [] ≡ 0
unfolding ids_of
uses_nil id = refl

pub uses-push :
    (id : Text) (es : List EntryV2) (e : EntryV2) → uses id (es ++ e ∷ []) ≡ uses id es + names id e
uses-push id [] e = omega (arith, uses-cons id e [], uses_nil id)
uses-push id (x ∷ es) e =
    omega (arith, uses-push id es e, uses-cons id x es, uses-cons id x (es ++ e ∷ []))

pub uses-set :
    (id : Text) (es : List EntryV2) (i : ℕ) (e x : EntryV2)
    → get_elem? es i ≡ some e
    → uses id (set es i x) + names id e ≡ uses id es + names id x
uses-set id [] i e x h = absurd (cc)
uses-set id (y ∷ es) zero e x h =
    let same : y ≡ e = ground arith in
    omega (arith, ap (names id) same, uses-cons id y es, uses-cons id x es)
uses-set id (y ∷ es) (suc i) e x h =
    omega (arith, uses-set id es i e x h, uses-cons id y es, uses-cons id y (set es i x))

pub uses-set_missing :
    (id : Text) (es : List EntryV2) (i : ℕ) (x : EntryV2)
    → get_elem? es i ≡ none
    → uses id (set es i x) ≡ uses id es
uses-set_missing id [] i x h = refl
uses-set_missing id (y ∷ es) zero x h = absurd (cc)
uses-set_missing id (y ∷ es) (suc i) x h =
    omega (arith, uses-set_missing id es i x h, uses-cons id y es, uses-cons id y (set es i x))

pub uses-retain :
    (id : Text) (hit : EntryV2 → Bool) (es : List EntryV2)
    → uses id (retain (λ e. not (hit e)) es) + count id (removed_ids hit es) ≡ uses id es
unfolding retain removed_ids ids_of
uses-retain id hit [] = omega arith
uses-retain id hit (e ∷ es) = elim (Bool-cases (hit e)) [
  | inl gone ↦ rw gone (
      omega (
        arith,
        uses-retain id hit es,
        uses-cons id e es,
        count-append id (extend [] e.file_id) (removed_ids hit es),
      ))
  | inr stays ↦ rw stays (
      omega (
        arith,
        uses-retain id hit es,
        uses-cons id e es,
        uses-cons id e (retain (λ e. not (hit e)) es),
      ))
]

pub uses-map :
    (id from to : Text) (es : List EntryV2) → uses id (map (move_entry from to) es) ≡ uses id es
uses-map id from to [] = refl
uses-map id from to (e ∷ es) = omega (
  arith,
  uses-map id from to es,
  uses-cons id e es,
  uses-cons id (move_entry from to e) (map (move_entry from to) es),
)

pub names-dir_entry : (id p : Text) → names id (dir_entry p) ≡ 0
unfolding dir_entry
names-dir_entry id p = refl
