-- ===== src/Batch/MoveTests.antt =====
-- A witness and a test for the rename of a vault directory's entry.
use file_sec.Prelude.{
  ℕ, pos, ◌-◌, ◌≡◌, ◌≢◌, refl, ◌∙◌, none, some, [], ◌∷◌, ◌++◌, leb, ◌&&◌, if◌then◌else◌, Text, text,
  text_eq, text_eq_iff, starts_with, utf8_len, Bool-cases, inl, inr, arith, ap, length,
  length-append,
}
use file_sec.Errors.{ok}
use file_sec.Paths.{
  slash, split_from, join, has_drive, ends_badly, is_device, to_uppercase, check_component, collect,
  normalize_stored_path, normalize_path, is_spoofing_format_char,
}
use file_sec.Tree.{file, ensure_one, walk, init, ensure}
use file_sec.Blobs.{EntryV2, dir_entry, find_path}
use file_sec.Batch.{
  VaultBatch, new_batch, new_batch-IsIndexed, index_entries, lookup, entry_at, push_at, reindex,
}
use file_sec.Batch.Ops.{count_op, ensure_dirs, moved, rename}
use file_sec.Batch.Moves.{IsTree, IsMoved, rename-IsMoved}

ascii_upper : ℕ → Text
ascii_upper c = (if leb b'a' c && leb c b'z' then c - 32 else c) ∷ []

abbrev one_file : EntryV2
one_file = record {
  path = b'c' ∷ [];
  kind = file;
  size = 1;
  mtime = none;
  mode = none;
  blake3 = 5 ∷ [];
  file_id = some (1 ∷ []);
  key = some [];
  nonce = some [];
  chunk_size = 65536;
}

abbrev start : VaultBatch
start = new_batch (record { vault_name = []; created_at = pos 0; entries = one_file ∷ [] }) none

abbrev d_e : Text
d_e = b'd' ∷ b'/' ∷ b'e' ∷ []

abbrev head : Text → ℕ
head [] = 0
head (c ∷ s) = c

no_slash : (p rest : Text) → b'c' ∷ [] ≢ p ++ slash ∷ rest
no_slash [] rest e = omega (arith, ap head e)
no_slash (x ∷ p) rest e = omega (arith, ap (length {A = ℕ}) e, length-append p (slash ∷ rest))

start-IsTree : IsTree start
start-IsTree = record {
  indexed = new_batch-IsIndexed _ none (unfold find_path in (refl, tt));
  closed = λ p q e found (rest, below). elim (Bool-cases (text_eq (b'c' ∷ []) q)) [
    | inl same ↦ absurd (no_slash p rest ((text_eq_iff (b'c' ∷ []) q).0 same ∙ below))
    | inr other ↦ absurd (unfold entry_at new_batch index_entries lookup in ground arith)
  ];
}

c_normal : normalize_stored_path ascii_upper (b'c' ∷ []) ≡ ok (b'c' ∷ [])
unfolding normalize_stored_path collect split_from check_component join has_drive ends_badly
    is_device to_uppercase ascii_upper text_eq text starts_with utf8_len
c_normal = refl

d_e_normal : normalize_path ascii_upper d_e ≡ ok d_e
unfolding normalize_path normalize_stored_path collect split_from check_component join has_drive
    ends_badly is_device to_uppercase ascii_upper text_eq text starts_with utf8_len
    is_spoofing_format_char
d_e_normal = refl

renamed : (rename ascii_upper (b'c' ∷ []) d_e start).0 ≡ ok tt
unfolding rename count_op ensure_dirs moved reindex new_batch index_entries lookup entry_at push_at
    ensure ensure_one walk init dir_entry normalize_path normalize_stored_path collect split_from
    check_component join has_drive ends_badly is_device to_uppercase ascii_upper text_eq text
    starts_with utf8_len is_spoofing_format_char
renamed = refl

rename-IsMoved_example : IsMoved (b'c' ∷ []) d_e start (rename ascii_upper (b'c' ∷ []) d_e start).1
rename-IsMoved_example =
    rename-IsMoved ascii_upper (b'c' ∷ []) d_e (b'c' ∷ []) d_e start start-IsTree c_normal
      d_e_normal (λ e. omega (arith, ap (length {A = ℕ}) e)) renamed
