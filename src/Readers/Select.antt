-- ===== src/Readers/Select.antt =====
-- crates/filesec-core/src/format.rs: the reader that keeps some segments of a stream.
use file_sec.Prelude.{ℕ, zero, suc, ◌-◌, min, Bool, true, false, List, [], ◌∷◌, length, is_empty}
use file_sec.Errors.{Result, ok, err, io}
use file_sec.State.{Bytes}
use file_sec.Readers.{Reader}

abbrev pub scratch_len : ℕ
scratch_len = 65536

-- The bytes left of the current segment and whether they are kept; the segments behind it.
pub record SelectReader (r : Reader) : Type 0 where
  pub inner : r.Source
  pub segments : List (ℕ × Bool)
  pub left : ℕ
  pub keep : Bool

module _ (r : Reader) where
  unfoldable pub new_select : r.Source → List (ℕ × Bool) → SelectReader r
  new_select inner segments = record { inner = inner; segments = segments; left = 0; keep = false }

  -- The loop that discards a removed segment: fuel, the bytes left of it, the source. Each round takes a
  -- byte at least, so the fuel is what is left.
  unfoldable pub discard : ℕ → ℕ → r.Source → Result (Unit {0}) × ℕ × r.Source
  discard zero left inner = (ok tt, left, inner)
  discard (suc fuel) zero inner = (ok tt, 0, inner)
  discard (suc fuel) (suc left) inner =
      let (got, s2) = r.read (min (suc left) scratch_len) inner in
      elim got [
        | err failure ↦ (err failure, suc left, s2)
        | ok bytes ↦ elim (is_empty bytes) [
          | true ↦ (err (io "source stream ended early"), suc left, s2)
          | false ↦ discard fuel (suc left - length bytes) s2
        ]
      ]

  -- What a read of the source gives from a segment that is kept.
  abbrev pub after_read :
      List (ℕ × Bool) → ℕ → Result Bytes × r.Source → Result Bytes × SelectReader r
  after_read segments left (err failure, s2) =
      (err failure, record { inner = s2; segments = segments; left = left; keep = true })
  after_read segments left (ok bytes, s2) = elim (is_empty bytes) [
    | true ↦ (
      err (io "source stream ended early"),
      record { inner = s2; segments = segments; left = left; keep = true },
    )
    | false ↦ (
      ok bytes,
      record { inner = s2; segments = segments; left = left - length bytes; keep = true },
    )
  ]

  abbrev pub read_kept : ℕ → List (ℕ × Bool) → ℕ → r.Source → Result Bytes × SelectReader r
  read_kept zero segments left inner =
      (ok [], record { inner = inner; segments = segments; left = left; keep = true })
  read_kept (suc room) segments left inner =
      after_read segments left (r.read (min left (suc room)) inner)

  -- How a read goes on behind a removed segment.
  abbrev pub after_discard :
      List (ℕ × Bool)
      → (r.Source → Result Bytes × SelectReader r)
      → Result (Unit {0}) × ℕ × r.Source
      → Result Bytes × SelectReader r
  after_discard segments continue (err failure, left, s2) =
      (err failure, record { inner = s2; segments = segments; left = left; keep = false })
  after_discard segments continue (ok done, left, s2) = continue s2

  unfoldable pub read_segments :
      ℕ → List (ℕ × Bool) → ℕ → Bool → r.Source → Result Bytes × SelectReader r
  unfolding discard
  read_segments room [] zero keep inner =
      (ok [], record { inner = inner; segments = []; left = 0; keep = keep })
  read_segments room ((size, k) ∷ segments) zero keep inner =
      read_segments room segments size k inner
  read_segments room [] (suc left) true inner = read_kept room [] (suc left) inner
  read_segments room (x ∷ segments) (suc left) true inner =
      read_kept room (x ∷ segments) (suc left) inner
  read_segments room [] (suc left) false inner =
      after_discard [] (λ s2. (ok [], record { inner = s2; segments = []; left = 0; keep = false }))
        (discard (suc left) (suc left) inner)
  read_segments room ((size, k) ∷ segments) (suc left) false inner =
      after_discard ((size, k) ∷ segments) (λ s2. read_segments room segments size k s2)
        (discard (suc left) (suc left) inner)

  abbrev pub select_reader : Reader
  select_reader = record {
    Source = SelectReader r;
    read = (λ room s. read_segments room s.segments s.left s.keep s.inner);
  }
