-- ===== src/Readers.antt =====
-- The readers of crates/filesec-core/src/format.rs, and `read_chunk` of crates/filesec-core/src/aead.rs
-- that reads from them. `Read` is an interface: a state, and what a read into a buffer of some length
-- gives with the state behind it.
pub mod Contract
pub mod Content
pub mod Chain
pub mod Select
pub mod Selecting
mod Tests
use file_sec.Prelude.{
  ℕ, zero, suc, ◌+◌, ◌-◌, min, Bool, true, false, not, ◌||◌, Option, none, some, List, [], ◌∷◌,
  ◌++◌, length, take, drop, is_empty, if◌then◌else◌, leb,
}
use file_sec.Errors.{Result, ok, err}
use file_sec.State.{Bytes}
use file_sec.Tree.{is_file}
use file_sec.Vault.{VaultEntry, Vault}

pub record Reader : Type 1 where
  pub Source : Type 0
  pub read : ℕ → Source → Result Bytes × Source

module _ (r : Reader) where
  -- The loop of `read_chunk`: fuel, the bytes of the buffer that are not filled, those that are. Each round
  -- but the last fills one at least, so the fuel is the length of the buffer.
  unfoldable pub read_loop : ℕ → ℕ → Bytes → r.Source → Result Bytes × r.Source
  read_loop zero room filled s = (ok filled, s)
  read_loop (suc fuel) zero filled s = (ok filled, s)
  read_loop (suc fuel) (suc room) filled s =
      let (got, s2) = r.read (suc room) s in
      elim got [
        | err failure ↦ (err failure, s2)
        | ok bytes ↦ elim (is_empty bytes) [
          | true ↦ (ok filled, s2)
          | false ↦ read_loop fuel (suc room - length bytes) (filled ++ bytes) s2
        ]
      ]

  unfoldable pub read_chunk : ℕ → r.Source → Result Bytes × r.Source
  unfolding read_loop
  read_chunk size s = read_loop size size [] s

-- `VaultContentReader`: the entries from the index on, and the position in the first.
pub record VaultContentReader : Type 0 where
  pub entries : List VaultEntry
  pub pos : ℕ

unfoldable pub new_content_reader : Vault → VaultContentReader
new_content_reader v = record { entries = v.entries; pos = 0 }

unfoldable pub read_entries : ℕ → List VaultEntry → ℕ → Result Bytes × VaultContentReader
read_entries room [] pos = (ok [], record { entries = []; pos = pos })
read_entries room (e ∷ es) pos =
    let rest = read_entries room es 0 in
    if not (is_file e.kind) || leb (length e.content) pos then rest else (
      ok (take (min (length (drop pos e.content)) room) (drop pos e.content)),
      record { entries = e ∷ es; pos = pos + min (length (drop pos e.content)) room },
    )

abbrev pub content_reader : Reader
content_reader = record {
  Source = VaultContentReader;
  read = (λ room s. read_entries room s.entries s.pos);
}

-- `ChainReader` over readers of one kind.
pub record ChainReader (r : Reader) : Type 0 where
  pub current : Option r.Source
  pub rest : List r.Source

module _ (r : Reader) where
  unfoldable pub new_chain : List r.Source → ChainReader r
  new_chain [] = record { current = none; rest = [] }
  new_chain (s ∷ ss) = record { current = some s; rest = ss }

  unfoldable pub read_chain : ℕ → r.Source → List r.Source → Result Bytes × ChainReader r
  read_chain room s [] =
      let (got, s2) = r.read room s in
      elim got [
        | err failure ↦ (err failure, record { current = some s2; rest = [] })
        | ok bytes ↦ elim (is_empty bytes) [
          | true ↦ (ok [], record { current = none; rest = [] })
          | false ↦ (ok bytes, record { current = some s2; rest = [] })
        ]
      ]
  read_chain room s (next ∷ ss) =
      let (got, s2) = r.read room s in
      elim got [
        | err failure ↦ (err failure, record { current = some s2; rest = next ∷ ss })
        | ok bytes ↦ elim (is_empty bytes) [
          | true ↦ read_chain room next ss
          | false ↦ (ok bytes, record { current = some s2; rest = next ∷ ss })
        ]
      ]

  abbrev pub read_current : ℕ → Option r.Source → List r.Source → Result Bytes × ChainReader r
  read_current room none rest = (ok [], record { current = none; rest = rest })
  read_current room (some s) rest = read_chain room s rest

  abbrev pub chain_reader : Reader
  chain_reader = record {
    Source = ChainReader r;
    read = (λ room s. read_current room s.current s.rest);
  }
