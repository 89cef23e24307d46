-- ===== src/Batch/Garbage.antt =====
-- The collection of garbage (crates/filesec-core/src/format_v2.rs).
use file_sec.Prelude.{
  ◌==◌, ◌≤◌, ◌≡◌, refl, ap, ◌∙◌, Bool, true, false, some, List, [], ◌∷◌, sym, ℕ, any, if◌then◌else◌,
  Bool-cases, inl, inr, Text, text, text_eq, text_eq_iff, starts_with, arith,
}
use file_sec.Errors.{Result, Result-cases, ok, err}
use file_sec.Blobs.{Blobs, open_file, validate_blob_id, is_safe_writer_temp, is_lower_hex}
use file_sec.Batch.Ops.{is_some}
use file_sec.Batch.Commit.{
  VaultReaderV2, Disk, ids_of, is_orphan, Listing, is_removed, sweep, swept, collect_garbage,
}
use file_sec.Batch.Counting.{count, uses}
use file_sec.Batch.Sound.{IsSound}

open_file-sweep :
    (removed : Text → Result Bool) (id : Text) (blobs : Blobs)
    → ¬ removed id ≡ ok true
    → open_file id (sweep removed blobs).1 ≡ open_file id blobs
unfolding open_file sweep
open_file-sweep removed id [] h = refl
open_file-sweep removed id (b ∷ blobs) h = elim (Result-cases (removed b.0)) [
  | inr (e, x) ↦ rw (x, sweep) refl
  | inl (true, x) ↦ elim (Bool-cases (text_eq b.0 id)) [
    | inl same ↦ absurd (h (ap removed (sym ((text_eq_iff b.0 id).0 same)) ∙ x))
    | inr other ↦ rw (x, sweep, other) (open_file-sweep removed id blobs h)
  ]
  | inl (false, x) ↦
      rw (x, sweep)
        (ap (λ o. if text_eq b.0 id then some b.1 else o) (open_file-sweep removed id blobs h))
]

count-any : (id : Text) (ids : List Text) → 1 ≤ count id ids → any (text_eq id) ids ≡ true
count-any id [] h = absurd (omega arith)
count-any id (x ∷ ids) h = ground (arith, count-any id ids, text_eq_iff x id, text_eq_iff id x)

-- The id of a blob is not the name of an interrupted write.
blob_id-not_temp : (id : Text) → validate_blob_id id ≡ ok tt → is_safe_writer_temp id ≡ false
unfolding validate_blob_id is_safe_writer_temp starts_with text
blob_id-not_temp [] h = refl
blob_id-not_temp (c ∷ id) h = elim (Bool-cases (is_lower_hex c)) [
  | inl hex ↦ let no_dot : (b'.' == c) ≡ false = ground arith in rw no_dot
  | inr other ↦ absurd (ground arith)
]

is_removed-spares :
    (referenced : List Text) (listing : Listing) (id : Text)
    → is_orphan referenced id ≡ false
    → ¬ is_removed referenced listing id ≡ ok true
unfolding is_removed
is_removed-spares referenced listing id kept removed = elim (Result-cases (listing.entry id)) [
  | inr (e, x) ↦ absurd (let h = rw x at removed in cc)
  | inl (done, x) ↦ absurd (let h = rw (x, kept) at removed in cc)
]

swept-IsSound :
    (r : VaultReaderV2) (disk : Disk) (x : Result ℕ × Blobs)
    → IsSound r disk
    → ((id : Text) → 1 ≤ uses id r.manifest.entries → open_file id x.1 ≡ open_file id disk.blobs)
    → IsSound (swept r disk x).1.0 (swept r disk x).1.1
swept-IsSound r disk (err e, blobs) sound same = record {
  once = sound.once;
  backed = λ id u. ap is_some (same id u) ∙ sound.backed id u;
}
swept-IsSound r disk (ok n, blobs) sound same = record {
  once = λ id. omega (arith, sound.once id);
  backed = λ id u. ap is_some (same id u) ∙ sound.backed id u;
}

-- Collecting garbage in a sound vault keeps it sound, whatever it returns: no blob that its manifest names
-- is removed, whatever else lies in the directory, whichever removals succeed and at whatever entry an
-- error ends it, if the ids in the manifest are valid ids.
pub collect_garbage-IsSound :
    (listing : Listing) (synced : Bool) (r : VaultReaderV2) (disk : Disk)
    → IsSound r disk
    → ((id : Text) → 1 ≤ uses id r.manifest.entries → validate_blob_id id ≡ ok tt)
    → IsSound
        (collect_garbage listing synced r disk).1.0
        (collect_garbage listing synced r disk).1.1
unfolding collect_garbage
collect_garbage-IsSound listing false r disk sound valid = sound
collect_garbage-IsSound listing true r disk sound valid = elim (Result-cases listing.read_dir) [
  | inr (e, x) ↦ rw x sound
  | inl (opened, x) ↦
      let ids = ids_of r.manifest.entries in
      rw x (
        swept-IsSound r disk (sweep (is_removed ids listing) disk.blobs) sound (λ id u.
          open_file-sweep (is_removed ids listing) id disk.blobs (
            is_removed-spares ids listing id
              (rw (valid id u, count-any id ids u, blob_id-not_temp id (valid id u)) refl))))
]
