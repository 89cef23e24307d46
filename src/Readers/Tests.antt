-- ===== src/Readers/Tests.antt =====
-- Concrete runs of the readers of crates/filesec-core/src/format.rs.
use file_sec.Prelude.{true, false, ◌≡◌, refl, pos, none, [], ◌∷◌, text}
use file_sec.Errors.{ok}
use file_sec.State.{Bytes}
use file_sec.Tree.{EntryKind, file, dir}
use file_sec.Vault.{VaultEntry, Vault}
use file_sec.Readers.{
  VaultContentReader, content_reader, new_content_reader, read_chunk, ChainReader, chain_reader,
  new_chain, read_chain,
}
use file_sec.Readers.Contract.{IsReader, IsFilled, read_chunk-IsFilled}
use file_sec.Readers.Content.{AnySource, to_come, content_reader-IsReader}
use file_sec.Readers.Select.{select_reader, new_select}
use file_sec.Readers.Selecting.{IsSelectValid, selected_remaining, select_reader-IsReader}

abbrev entry : EntryKind → Bytes → VaultEntry
entry kind content = record {
  path = text "a";
  kind = kind;
  mtime = none;
  mode = none;
  content = content;
}

abbrev two_files : Vault
two_files = record {
  name = text "v";
  created_at = pos 0;
  entries = entry dir [] ∷ entry file (1 ∷ 2 ∷ []) ∷ entry file [] ∷ entry file (3 ∷ []) ∷ [];
}

-- A chunk reaches over the end of a file.
chunk_over_files :
    (read_chunk content_reader 3 (new_content_reader two_files)).0 ≡ ok (1 ∷ 2 ∷ 3 ∷ [])
unfolding read_chunk new_content_reader file_sec.Readers.read_entries file_sec.Readers.read_loop
chunk_over_files = refl

-- A read into an empty buffer gives nothing, and makes the chain give up its first source.
empty_buffer_drops_source :
    read_chain content_reader 0
      (record { entries = entry file (1 ∷ []) ∷ []; pos = 0 })
      (record { entries = entry file (2 ∷ []) ∷ []; pos = 0 } ∷ [])
    ≡ (ok [], record { current = none; rest = [] })
unfolding read_chain file_sec.Readers.read_entries
empty_buffer_drops_source = refl

read_chunk-IsFilled_example :
    (bytes : Bytes) × (next : VaultContentReader) × (read_chunk content_reader 3
        (new_content_reader two_files)
      ≡ (ok bytes, next))
    × IsFilled content_reader AnySource to_come content_reader-IsReader 3
        (new_content_reader two_files)
        []
        bytes
        next
read_chunk-IsFilled_example =
    read_chunk-IsFilled content_reader AnySource to_come content_reader-IsReader 3
      (new_content_reader two_files) tt

select_reader-IsReader_example :
    IsReader
      (select_reader content_reader)
      (IsSelectValid content_reader AnySource to_come content_reader-IsReader)
      (selected_remaining content_reader AnySource to_come content_reader-IsReader)
select_reader-IsReader_example =
    select_reader-IsReader content_reader AnySource to_come content_reader-IsReader

-- The first file is dropped.
kept_file :
    (read_chunk (select_reader content_reader) 8 (
      new_select content_reader
        (new_content_reader two_files)
        ((2, false) ∷ (0, true) ∷ (1, true) ∷ []))).0
    ≡ ok (3 ∷ [])
unfolding read_chunk new_content_reader new_select file_sec.Readers.Select.read_segments
    file_sec.Readers.Select.discard file_sec.Readers.read_entries file_sec.Readers.read_loop
kept_file = refl
